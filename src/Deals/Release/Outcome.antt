-- ===== src/Deals/Release/Outcome.antt =====
-- What `ApproveDeal` of deals/service.go returns and leaves behind.
use ganji.Base.{ℕ, ◌≡◌, ◌⊎◌, inl, inr, true, some, Text, is_empty, is_some, arith}
use ganji.Deals.Status.{released}
use ganji.Deals.Types.{Deal}
use ganji.Deals.World.{Error, Result, ok, err, World, Env, Config, invalid_input}
use ganji.Deals.Contract.{Post, Contract, Contract-raise_if}
use ganji.Deals.Contract.Row.{payouts, row_of, Holds}
use ganji.Deals.Release.{release_escrow, approve_deal, ReleaseOptions}
use ganji.Deals.Release.Ledger.{Recorded, Closed, Undisturbed, IsLawful}
use ganji.Deals.Release.Money.{Failed}
use ganji.Deals.Release.Lawful.{approve-IsLawful}
use ganji.Deals.Release.Safety.{release-Contract_unpaid}

-- The row of the deal after a run, with the status and the marker it has.
abbrev IsReleased : Text → World → Type 0
IsReleased id w =
    (d : Deal) × (row_of id w.tables ≡ some d)
    × (d.status ≡ released)
    × (is_some d.payout_attempted_at ≡ true)

abbrev HasMarker : Text → World → Type 0
HasMarker id w = (d : Deal) × (row_of id w.tables ≡ some d) × (is_some d.payout_attempted_at ≡ true)

-- A run of a release of a deal that nothing was paid for.
abbrev pub PaidOnce : {A : Type 0} → Text → Result A × World → Type 0
PaidOnce id (ok a, w) = (payouts w.calls ≡ 1) × IsReleased id w
PaidOnce id (err e, w) = (payouts w.calls ≡ 0) ⊎ ((payouts w.calls ≡ 1) × HasMarker id w)

abbrev pub RefusedUnpaid : {A : Type 0} → Text → ℕ → Result A × World → Type 0
RefusedUnpaid id n (ok a, w) = ⊥
RefusedUnpaid id n (err e, w) = (payouts w.calls ≡ n) × HasMarker id w

paid_once :
    {A : Type 0} (id : Text) (o : Result A × World)
    → Post (λ _. Holds id 1 Closed) (Failed 0 id) o
    → PaidOnce id o
paid_once id (ok a, w) h = (h.counted, (h.row, h.found, h.holds.1, h.holds.0.1))
paid_once id (err e, w) (inl h) = inl h.counted
paid_once id (err e, w) (inr h) = inr (h.counted, (h.row, h.found, h.holds.1))

module _ (env : Env) (cfg : Config) (id : Text) (quiet : Undisturbed env id) (email : Text) where
  unpaid : (d : Deal) → is_empty d.payout_checking_id ≡ true → Recorded d
  unpaid d u e = absurd (ground arith)

  approve-Contract :
      {P : World → Type 0} {Q : Deal → World → Type 0} {E : Error → World → Type 0}
      → ((w : World) → P w → E invalid_input w)
      → ((opts : ReleaseOptions)
          → IsLawful env id opts
          → Contract P (release_escrow env cfg opts id) Q E)
      → Contract P (approve_deal env cfg email id) Q E
  unfolding approve_deal
  approve-Contract he h =
      Contract-raise_if _ _ _ (λ w p _. he w p) λ _. h _ (approve-IsLawful env cfg id email)

  -- For a deal with no payout id and no payout sent so far, while other requests write neither payout
  -- column of its row and leave a released row released: an approval that returns a deal has asked
  -- LNbits for exactly one payout that was not refused, and the row is released and carries the
  -- marker; one that fails has asked for none, or for one and the row carries the marker.
  pub approve_deal_pays_once :
      (w : World) (d : Deal)
      → row_of id w.tables ≡ some d
      → is_empty d.payout_checking_id ≡ true
      → payouts w.calls ≡ 0
      → PaidOnce id (approve_deal env cfg email id w)
  approve_deal_pays_once w d found u none_yet = paid_once id _ (
      (approve-Contract (λ w h. inl h)
          λ opts lawful. release-Contract_unpaid env cfg id quiet opts lawful 0).at
        w (record { row = d; found = found; holds = unpaid d u; counted = none_yet }))
