-- ===== src/Deals/Release/Ledger.antt =====
-- The payout ledger of a deal: what its row says of its payouts between two requests.
use ganji.Base.{ℕ, ◌≡◌, ◌≢◌, true, false, some, Text, is_empty, is_some}
use ganji.Deals.Status.{released}
use ganji.Deals.Types.{Time, Deal}
use ganji.Deals.World.{Result, ok, err, World, Tables, Env, M}
use ganji.Deals.Contract.{Post, Contract}
use ganji.Deals.Contract.Row.{payouts, row_of, Holds, Stable}
use ganji.Deals.Repository.{tx, exec_by_id}
use ganji.Deals.Release.{ReleaseOptions}

-- The row carries the durable marker of a payout attempt.
abbrev pub Marked : Deal → Type 0
Marked d = is_some d.payout_attempted_at ≡ true

-- A payout id is recorded of released deals only.
abbrev pub Recorded : Deal → Type 0
Recorded d = is_empty d.payout_checking_id ≡ false → d.status ≡ released

abbrev pub Armed : Deal → Type 0
Armed d = Recorded d × Marked d

-- Released, with the marker of the payout.
abbrev pub Closed : Deal → Type 0
Closed d = Armed d × (d.status ≡ released)

-- While a request about the deal runs, other requests write neither payout column of its row and
-- do not take it out of `released`.
abbrev pub Undisturbed : Env → Text → Type 0
Undisturbed env id =
    (t : ℕ) (tables : Tables) (d : Deal)
    → row_of id tables ≡ some d
    → (d' : Deal) × (row_of id (env.others t tables) ≡ some d')
      × (d'.payout_attempted_at ≡ d.payout_attempted_at)
      × (d'.payout_checking_id ≡ d.payout_checking_id)
      × (d.status ≡ released → d'.status ≡ released)

-- The ways to finalize a release: an UPDATE of the row that makes it released and leaves the id and
-- the payout columns alone, and that no released deal is authorized for.
pub record IsLawful (env : Env) (id : Text) (opts : ReleaseOptions) : Type 0 where
  pub change : Time → Deal → Deal
  pub finalize_is : opts.finalize tx id ≡ exec_by_id env tx id change
  pub keeps_id : (now : Time) (d : Deal) → (change now d).id ≡ d.id
  pub keeps_attempt :
      (now : Time) (d : Deal) → (change now d).payout_attempted_at ≡ d.payout_attempted_at
  pub releases : (now : Time) (d : Deal) → (change now d).status ≡ released
  pub refuses_released : (d : Deal) → opts.authorize d ≡ ok tt → d.status ≢ released

module _ (env : Env) (id : Text) (quiet : Undisturbed env id) where
  pub Stable-Recorded : Stable env id Recorded
  Stable-Recorded t tables d found r =
      let (d', found', attempt, payout, status) = quiet t tables d found in
      (d', found', λ e. status (r (rw payout at e)))

  pub Stable-Armed : Stable env id Armed
  Stable-Armed t tables d found (r, m) =
      let (d', found', attempt, payout, status) = quiet t tables d found in
      (d', found', ((λ e. status (r (rw payout at e))), rw attempt m))

module _ (id : Text) (n : ℕ) (R : Deal → Type 0) where
  Holds-transfer :
      (w w' : World)
      → w'.tables ≡ w.tables
      → payouts w'.calls ≡ payouts w.calls
      → Holds id n R w
      → Holds id n R w'
  Holds-transfer w w' e p h = record {
    row = h.row;
    found = rw e h.found;
    holds = h.holds;
    counted = rw p h.counted;
  }

  pub Contract-quiet :
      {A : Type 0} (m : M A)
      → ((w : World) → ((m w).1.tables ≡ w.tables) × (payouts (m w).1.calls ≡ payouts w.calls))
      → Contract (Holds id n R) m (λ _. Holds id n R) (λ _. Holds id n R)
  Contract-quiet {A} m q = record { at = λ w h. go w h (m w) (q w) }
    where
      go :
          (w : World)
          → Holds id n R w
          → (o : Result A × World) → (o.1.tables ≡ w.tables) × (payouts o.1.calls ≡ payouts w.calls)
          → Post (λ _. Holds id n R) (λ _. Holds id n R) o
      go w h (ok a, w') (e, p) = Holds-transfer w w' e p h
      go w h (err x, w') (e, p) = Holds-transfer w w' e p h
