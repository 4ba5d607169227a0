-- ===== src/Requests/Course/Served.antt =====
-- The status of a deal's row through each of the requests of `Requests`.
use ganji.Base.{◌≡◌, refl, some, Text}
use ganji.Deals.Status.{Status}
use ganji.Deals.Types.{Deal, DisputeResolution, ReconcileAction}
use ganji.Deals.World.{Result, ok, err, World, Env, Config, M, step}
use ganji.Deals.Contract.{Post, Contract-pure, Contract-raise, Contract-bind, Contract-raise_if}
use ganji.Deals.Contract.Row.{payouts, row_of}
use ganji.Deals.Release.{approve_deal, resolve_dispute}
use ganji.Deals.Release.Lawful.{approve-IsLawful, public-IsLawful, resolve-IsLawful}
use ganji.Deals.Payment.{reconcile_payout, reset_payout}
use ganji.Requests.{Request, serve}
use ganji.Requests.Request.{
  approve, release_by_link, resolve, confirm, reset, dispute, change_status, submit, poll,
  view_link, change_invoice, rotate_link, notification, sweep,
}
use ganji.Requests.Course.{Legal, Still, Rows-same}
use ganji.Requests.Course.Releases.{At, To, arrived, release-Contract}
use ganji.Requests.Course.Others.{
  Moves, Closed, Moves-Closed, step_tables, update_status-Moves, submit_work-Moves,
  dispute_deal-Moves, update_payee_invoice-Closed, rotate_share_link-Closed, check_payment-Closed,
  get_public_deal-Closed, handle_payment-Closed,
}
use ganji.Requests.Course.Operators.{
  sweep-Closed, refund-Moves, confirm_payout-Moves, reset_payout-Closed,
}

-- The row of the deal, with a status that `s` may go to.
abbrev pub HasCome : Text → Status → World → Type 0
HasCome id s w = (d : Deal) × (row_of id w.tables ≡ some d) × Legal s d.status

module _ (env : Env) (cfg : Config) (id : Text) (still : Still env id) (s : Status) where
  abbrev Goes : {A : Type 0} → M A → Type 0
  Goes m = Moves env cfg id still s m

  start : (w : World) → At env cfg id still s w → To env cfg id still s w
  start = arrived env cfg id still s

  approve-Moves : (email : Text) → Goes (approve_deal env cfg email id)
  unfolding approve_deal
  approve-Moves email =
      Contract-raise_if _ _ _ (λ w h _. start w h)
        λ _. release-Contract env cfg id still s _ (approve-IsLawful env cfg id email)

  resolve-Moves :
      (operator : Text) (r : DisputeResolution) → Goes (resolve_dispute env cfg operator id r)
  unfolding resolve_dispute
  resolve-Moves operator DisputeResolution.release =
      Contract-raise_if _ _ _ (λ w h _. start w h)
        λ _.
          Contract-raise_if _ _ _ (λ w h _. start w h)
            λ _.
              Contract-bind (λ _. To env cfg id still s)
                (release-Contract env cfg id still s _ (resolve-IsLawful env cfg id _))
                λ d.
                  Contract-bind (λ _. To env cfg id still s) (Rows-same id _ step step_tables)
                    λ t. Contract-pure _ (λ w h. h)
  resolve-Moves operator DisputeResolution.refund =
      Contract-raise_if _ _ _ (λ w h _. start w h)
        λ _. Contract-raise_if _ _ _ (λ w h _. start w h) λ _. refund-Moves env cfg id still s _
  resolve-Moves operator DisputeResolution.invalid =
      Contract-raise_if _ _ _ (λ w h _. start w h)
        λ _. Contract-raise_if _ _ _ (λ w h _. start w h) λ _. Contract-raise _ start

  confirm-Moves :
      (operator payout : Text)
      → Goes (reconcile_payout env cfg operator id ReconcileAction.confirm_payout payout)
  unfolding reconcile_payout
  confirm-Moves operator payout =
      Contract-raise_if _ _ _ (λ w h _. start w h)
        λ _.
          Contract-raise_if _ _ _ (λ w h _. start w h)
            λ _. confirm_payout-Moves env cfg id still s payout

  reset-Moves :
      (operator payout : Text)
      → Goes (reconcile_payout env cfg operator id ReconcileAction.reset_payout payout)
  unfolding reconcile_payout
  reset-Moves operator payout =
      Contract-raise_if _ _ _ (λ w h _. start w h)
        λ _.
          Contract-raise_if _ _ _ (λ w h _. start w h)
            λ _.
              Moves-Closed env cfg id still s (reset_payout env cfg id)
                (reset_payout-Closed env cfg id still s)

  ended :
      {A : Type 0} (m : M A)
      → Goes m
      → (w : World) (d : Deal) → row_of id w.tables ≡ some d
      → s ≡ d.status
      → HasCome id s (m w).1
  ended {A} m h w d found e =
      go (m w)
        (h.at w (payouts w.calls, record { row = d; found = found; holds = e; counted = refl }))
    where
      go :
          (o : Result A × World)
          → Post (λ _. To env cfg id still s) (λ _. To env cfg id still s) o
          → HasCome id s o.1
      go (ok a, w) (n, x) = (x.row, x.found, x.holds)
      go (err e, w) (n, x) = (x.row, x.found, x.holds)

  closed : {A : Type 0} (m : M A) → Closed env cfg id still s m → Goes m
  closed m h = Moves-Closed env cfg id still s m h

pub serve_follows_lifecycle :
    (cfg : Config) (id : Text) (env : Env)
    → Still env id
    → (r : Request) (w : World) (d : Deal) → row_of id w.tables ≡ some d
    → HasCome id d.status (serve cfg id env r w)
unfolding serve
serve_follows_lifecycle cfg id env still (approve email) w d found =
    ended env cfg id still d.status _ (approve-Moves env cfg id still d.status email) w d found refl
serve_follows_lifecycle cfg id env still release_by_link w d found =
    ended env cfg id still d.status _
      (release-Contract env cfg id still d.status _ (public-IsLawful env cfg id)) w d found refl
serve_follows_lifecycle cfg id env still (resolve operator r) w d found =
    ended env cfg id still d.status _ (resolve-Moves env cfg id still d.status operator r) w d found
      refl
serve_follows_lifecycle cfg id env still (confirm operator payout) w d found =
    ended env cfg id still d.status _ (confirm-Moves env cfg id still d.status operator payout) w d
      found refl
serve_follows_lifecycle cfg id env still (reset operator payout) w d found =
    ended env cfg id still d.status _ (reset-Moves env cfg id still d.status operator payout) w d
      found refl
serve_follows_lifecycle cfg id env still (dispute email reason) w d found =
    ended env cfg id still d.status _ (dispute_deal-Moves env cfg id still d.status email reason) w
      d found refl
serve_follows_lifecycle cfg id env still (change_status user new) w d found =
    ended env cfg id still d.status _ (update_status-Moves env cfg id still d.status user new) w d
      found refl
serve_follows_lifecycle cfg id env still (submit user) w d found =
    ended env cfg id still d.status _ (submit_work-Moves env cfg id still d.status user) w d found
      refl
serve_follows_lifecycle cfg id env still (poll user) w d found =
    ended env cfg id still d.status _
      (closed env cfg id still d.status _ (check_payment-Closed env cfg id still d.status user id))
      w d found refl
serve_follows_lifecycle cfg id env still (view_link token) w d found =
    ended env cfg id still d.status _
      (closed env cfg id still d.status _ (get_public_deal-Closed env cfg id still d.status token))
      w d found refl
serve_follows_lifecycle cfg id env still (change_invoice user invoice) w d found =
    ended env cfg id still d.status _
      (closed env cfg id still d.status _
        (update_payee_invoice-Closed env cfg id still d.status user id invoice))
      w d found refl
serve_follows_lifecycle cfg id env still (rotate_link user) w d found =
    ended env cfg id still d.status _
      (closed env cfg id still d.status _
        (rotate_share_link-Closed env cfg id still d.status user id))
      w d found refl
serve_follows_lifecycle cfg id env still (notification p) w d found =
    ended env cfg id still d.status _
      (closed env cfg id still d.status _ (handle_payment-Closed env cfg id still d.status p)) w d
      found refl
serve_follows_lifecycle cfg id env still (sweep cutoff) w d found =
    ended env cfg id still d.status _
      (closed env cfg id still d.status _ (sweep-Closed env cfg id still d.status cutoff)) w d found
      refl
