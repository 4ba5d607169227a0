-- ===== src/Requests/Network.antt =====
-- The payout ledger of a deal through the webhook and the sweep.
use ganji.Base.{
  ℕ, suc, ◌≢◌, true, false, not, ◌&&◌, List, [], ◌∷◌, Text, text_eq, is_empty, find, All, filter,
  ltb, arith, if◌then◌else◌,
}
use ganji.Deals.Status.{awaiting_payment, locked, released, refunded}
use ganji.Deals.Types.{Time, Deal}
use ganji.Deals.World.{ok, deal_not_found, World, Env, Config, M}
use ganji.Deals.Contract.{
  Contract-pure, Contract-if, Contract-bind, Contract-try, Contract-weaken, Contract-assume,
}
use ganji.Deals.Contract.Row.{Holds}
use ganji.Deals.Contract.Update.{Contract-select}
use ganji.Deals.Contract.Free.{Contract-fact}
use ganji.Deals.Repository.Open.{IsOpen, list_open_before-IsOpen}
use ganji.Deals.Repository
use ganji.Deals.Repository.{pool, is_open, oldest_first, order_by, required}
use ganji.Deals.Escrow.{is_hold_released, notify}
use ganji.Deals.Payment.{sweep_deal, sweep_deals, sweep_expired_holds}
use ganji.Deals.Release.Ledger.{Contract-quiet}
use ganji.Webhook.{PaymentNotification, lock_deal, handle_payment}
use ganji.Requests.Updates.{IsLedger, Kept}
use ganji.Requests.Kept.{check_quiet, notify_quiet, guarded_any}

module _ (env : Env) (cfg : Config) (id : Text) (n : ℕ) (K : Deal → Type 0)
    (ledger : IsLedger env id K) where
  abbrev Row : World → Type 0
  Row = Holds id n K

  abbrev Keeps : {A : Type 0} → M A → Type 0
  Keeps m = Kept env cfg id n K ledger m

  same : (w : World) → Row w → Row w
  same w h = h

  tell : (o : _) (d : Deal) → Keeps (notify cfg o d)
  tell o d = Contract-quiet id n K _ (notify_quiet cfg o d)

  read_checking_id : (c : Text) → Keeps (Repository.get_deal_by_checking_id env pool c)
  unfolding Repository.get_deal_by_checking_id
  read_checking_id c =
      Contract-weaken
        (Contract-select env pool id n K ledger.stable
          λ tables. required deal_not_found (find (λ d. text_eq d.checking_id c) tables.deals))
        same (λ _ w h. h.1) (λ _. same)

  lock_deal-Kept : (c : Text) → Keeps (lock_deal env cfg c)
  unfolding lock_deal
  lock_deal-Kept c =
      Contract-try (λ _. Row) (λ _. Row) _ (read_checking_id c)
        (λ d.
          Contract-try (λ _. Row) (λ _. Row) _
            (guarded_any env cfg id n K ledger d.id awaiting_payment locked (λ e. cc))
            (λ b.
              Contract-bind (λ _. Row)
                (Contract-if b _ _ (λ _. tell _ d) (λ _. Contract-pure tt same))
                (λ _. Contract-pure _ same))
            (λ e. Contract-pure _ same))
        (λ e. Contract-pure _ same)

  pub handle_payment-Kept : (p : PaymentNotification) → Keeps (handle_payment env cfg p)
  unfolding handle_payment
  handle_payment-Kept p =
      Contract-if (is_empty p.checking_id) _ _ (λ _. Contract-pure _ same)
        (λ _.
          Contract-try (λ _. Row) (λ _. Row) _ (Contract-quiet id n K _ (check_quiet env _))
            (λ payment.
              Contract-if (not payment.paid) _ _ (λ _. Contract-pure _ same)
                (λ _. lock_deal-Kept p.checking_id))
            (λ e. Contract-pure _ same))

  sweep_deal-Kept : (d : Deal) → d.status ≢ released → Keeps (sweep_deal env cfg d)
  unfolding sweep_deal
  sweep_deal-Kept d ne =
      Contract-if (is_empty d.checking_id) _ _ (λ _. Contract-pure _ same)
        (λ _.
          Contract-try (λ _. Row) (λ _. Row) _ (Contract-quiet id n K _ (check_quiet env _))
            (λ payment.
              Contract-if (is_hold_released payment.details.status) _ _
                (λ _.
                  Contract-try (λ _. Row) (λ _. Row) _
                    (guarded_any env cfg id n K ledger d.id d.status refunded ne)
                    (elim [
                      | true ↦ Contract-bind (λ _. Row) (tell _ _) (λ _. Contract-pure _ same)
                      | false ↦ Contract-pure _ same
                    ])
                    (λ e. Contract-pure _ same))
                (λ _. Contract-pure _ same))
            (λ e. Contract-pure _ same))

  open-ne-released : (d : Deal) → IsOpen d → d.status ≢ released
  open-ne-released d o e = ground arith

  sweep_deals-Kept :
      (ds : List Deal) (swept : ℕ) → All IsOpen ds → Keeps (sweep_deals env cfg ds swept)
  unfolding sweep_deals
  sweep_deals-Kept [] swept all = Contract-pure swept same
  sweep_deals-Kept (d ∷ ds) swept (o, all) =
      Contract-bind (λ _. Row) (sweep_deal-Kept d (open-ne-released d o))
        λ b. sweep_deals-Kept ds (if b then suc swept else swept) all

  read_list : (cutoff : Time) → Keeps (Repository.list_open_before env pool cutoff)
  unfolding Repository.list_open_before
  read_list cutoff =
      Contract-weaken
        (Contract-select env pool id n K ledger.stable (λ tables. ok (
          order_by oldest_first
            (filter (λ d. is_open d.status && ltb d.created_at cutoff) tables.deals))))
        same (λ _ w h. h.1) (λ _. same)

  pub sweep_expired_holds-Kept : (cutoff : Time) → Keeps (sweep_expired_holds env cfg cutoff)
  unfolding sweep_expired_holds
  sweep_expired_holds-Kept cutoff =
      Contract-bind (λ ds w. All IsOpen ds × Row w)
        (Contract-fact (All IsOpen) Row _ (list_open_before-IsOpen env cutoff) (read_list cutoff))
        λ ds.
          Contract-assume {C = All IsOpen ds} (λ w h. h.0)
            λ all. Contract-weaken (sweep_deals-Kept ds 0 all) (λ w h. h.1) (λ _. same) (λ _. same)
