-- ===== src/Deals/Release/Intention.antt =====
-- Phase 1 of `releaseEscrow`: the row that it reads and the marker that it writes.
use ganji.Base.{
  ℕ, ◌≡◌, refl, inl, inr, true, false, some, Text, is_empty, is_some, Bool-cases, arith,
  if◌then◌else◌, subst,
}
use ganji.Deals.Types.{Deal}
use ganji.Deals.World.{ok, payout_in_flight, World, Env, Config, pure, raise, ◌>>=◌}
use ganji.Deals.Contract.{
  Contract, Contract-pure, Contract-raise, Contract-if, Contract-bind, Contract-lift,
  Contract-weaken, Contract-assume,
}
use ganji.Deals.Contract.Row.{payouts, row_of, Holds, stable_tx, Contract-get, Contract-exec_by_id}
use ganji.Deals.Repository.{tx, has_id, get_deal_for_update, mark_payout_attempted}
use ganji.Deals.Repository.Lookup.{find_sound}
use ganji.Deals.Release.{ReleaseOptions, Intent, resume_payout, intend}
use ganji.Deals.Release.Ledger.{Recorded, Armed, IsLawful}

-- What phase 1 hands on for a deal that it has just marked.
abbrev pub IsFresh : Text → Intent → Type 0
IsFresh id i = (i.confirmed ≡ false) × (i.deal.id ≡ id)

pub row-id : (id : Text) (d : Deal) (w : World) → row_of id w.tables ≡ some d → d.id ≡ id
row-id id d w found = ground (arith, find_sound (has_id id) w.tables.deals {d = d} found)

-- With no payout id the switch goes by the marker alone.
resume_fresh :
    (env : Env) (cfg : Config) (d : Deal)
    → is_empty d.payout_checking_id ≡ true
    → resume_payout env cfg d ≡ (
        if is_some d.payout_attempted_at
        then raise payout_in_flight
        else pure
            (record { deal = d; confirmed = false; payout_checking_id = d.payout_checking_id }))
unfolding resume_payout
resume_fresh env cfg d e = rw e

module _ (env : Env) (cfg : Config) (id : Text) (opts : ReleaseOptions)
    (lawful : IsLawful env id opts) where
  -- A deal that is authorized has no payout id.
  no_payout :
      (d : Deal) → Recorded d → opts.authorize d ≡ ok tt → is_empty d.payout_checking_id ≡ true
  no_payout d r a = elim (Bool-cases (is_empty d.payout_checking_id)) [
    | inl e ↦ e
    | inr e ↦ absurd (lawful.refuses_released d a (r e))
  ]

  mark-Contract :
      (n : ℕ) (d : Deal)
      → d.id ≡ id
      → Contract
          (Holds id n Recorded)
          (mark_payout_attempted env tx d.id)
          (λ _. Holds id n Armed)
          (λ _. Holds id n Recorded)
  unfolding mark_payout_attempted
  mark-Contract n d same = rw same (
      Contract-exec_by_id env tx id n Recorded Armed (stable_tx env id Recorded)
        (λ now x. record x { payout_attempted_at = some now }) (λ now x. refl)
        (λ now x h. (h, refl)))

  -- After the row was read and authorized.
  resume-Contract :
      (n : ℕ) (d : Deal)
      → Recorded d
      → d.id ≡ id
      → opts.authorize d ≡ ok tt
      → Contract
          (Holds id n Recorded)
          (resume_payout env cfg d >>= λ i.
            (if i.confirmed then pure tt else mark_payout_attempted env tx d.id) >>= λ _. pure i)
          (λ i w. IsFresh id i × (is_some d.payout_attempted_at ≡ false) × Holds id n Armed w)
          (λ _. Holds id n Recorded)
  resume-Contract n d r same auth = rw (resume_fresh env cfg d (no_payout d r auth)) (
      Contract-bind
        (λ i w. IsFresh id i × (is_some d.payout_attempted_at ≡ false) × Holds id n Recorded w)
        (Contract-if (is_some d.payout_attempted_at) _ _
          (λ t. Contract-raise payout_in_flight (λ w h. h))
          (λ f. Contract-pure _ (λ w h. ((refl, same), f, h))))
        (λ i.
          Contract-assume {C = IsFresh id i × (is_some d.payout_attempted_at ≡ false)}
            (λ w p. (p.0, p.1))
            λ c.
              Contract-bind (λ _. Holds id n Armed)
                (Contract-if i.confirmed _ _ (λ t. absurd (cc (c.0.0)))
                  (λ _.
                    Contract-weaken (mark-Contract n d same) (λ w p. p.2) (λ _ w h. h)
                      (λ _ w h. h)))
                (λ _. Contract-pure i (λ w h. (c.0, c.1, h)))))

  -- `K` is what the ledger says of the row before; the row that phase 1 reads has it too, and had no
  -- marker if phase 1 goes on.
  abbrev Begun : ℕ → (Deal → Type 0) → Intent → World → Type 0
  Begun n K i w =
      IsFresh id i
      × ((d : Deal) × K d × (is_some d.payout_attempted_at ≡ false))
      × Holds id n Armed w

  abbrev Read : ℕ → (Deal → Type 0) → Deal → World → Type 0
  Read n K d = Holds id n (λ x. (x ≡ d) × K x)

  Read-facts : (n : ℕ) (K : Deal → Type 0) (d : Deal) (w : World) → Read n K d w → K d × (d.id ≡ id)
  Read-facts n K d w h = (subst K h.holds.0 h.holds.1, rw (← h.holds.0) (row-id id h.row w h.found))

  forget :
      (n : ℕ) (K : Deal → Type 0)
      → ((d : Deal) → K d → Recorded d)
      → (d : Deal) (w : World) → Read n K d w
      → Holds id n Recorded w
  forget n K le d w h = record {
    row = h.row;
    found = h.found;
    holds = le h.row h.holds.1;
    counted = h.counted;
  }

  pub intend-Contract :
      (n : ℕ) (K : Deal → Type 0)
      → ((d : Deal) → K d → Recorded d)
      → Contract (Holds id n K) (intend env cfg opts id) (Begun n K) (λ _ w. payouts w.calls ≡ n)
  unfolding intend get_deal_for_update
  intend-Contract n K le =
      Contract-bind (Read n K)
        (Contract-weaken (Contract-get env tx id n K (stable_tx env id K)) (λ w h. h) (λ d w h. h)
          (λ _ w h. h.counted))
        (λ d. Contract-assume {C = K d × (d.id ≡ id)} (Read-facts n K d) λ c.
          Contract-lift (opts.authorize d) _ (λ e w h _. h.counted)
            (λ _ auth.
              Contract-weaken (resume-Contract n d (le d c.0) c.1 auth) (forget n K le d)
                (λ i w h. (h.0, (d, c.0, h.1), h.2)) (λ _ w h. h.counted)))
