-- ===== src/Deals/Status/Chains.antt =====
-- Chains of transitions in the table of deals/types.go.
use ganji.Base.{ℕ, ◌+◌, ◌≤◌, ◌<◌, ◌≡◌, refl, ◌⊎◌, inl, inr, true, List, [], ◌∷◌, length, arith}
use ganji.Deals.Status.{
  Status, awaiting_payment, locked, work_submitted, reviewing, released, disputed, refunded, other,
  can_transition,
}

-- How far along the lifecycle a status is.
rank : Status → ℕ
rank awaiting_payment = 0
rank locked = 1
rank work_submitted = 2
rank reviewing = 3
rank disputed = 4
rank released = 5
rank refunded = 5
rank (other s) = 5

rank-can_transition : (s t : Status) → can_transition s t ≡ true → rank s < rank t
unfolding can_transition rank
rank-can_transition s t h = ground arith

rank-bound : (s : Status) → rank s ≤ 5
unfolding rank
rank-bound s = ground arith

-- A chain of transitions from `s`, through each status of the list.
abbrev IsChain : Status → List Status → Type 0
IsChain s [] = Unit
IsChain s (t ∷ ts) = (can_transition s t ≡ true) × IsChain t ts

chain-rank : (s : Status) (ts : List Status) → IsChain s ts → rank s + length ts ≤ 5
chain-rank s [] c = omega (arith, rank-bound s)
chain-rank s (t ∷ ts) (h, c) = omega (arith, rank-can_transition s t h, chain-rank t ts c)

-- A chain of transitions of the table has at most five steps, whatever status it starts from.
pub can_transition_ends : (s : Status) (ts : List Status) → IsChain s ts → length ts ≤ 5
can_transition_ends s ts c = omega (arith, chain-rank s ts c)

abbrev pub Passes : Status → List Status → Type 0
Passes s [] = ⊥
Passes s (t ∷ ts) = (t ≡ s) ⊎ Passes s ts

abbrev pub Ends : Status → Status → List Status → Type 0
Ends s t [] = s ≡ t
Ends s t (u ∷ us) = Ends u t us

-- Every chain of transitions from awaiting_payment to released passes through work_submitted or through
-- disputed.
pub can_transition_work_first :
    (ts : List Status)
    → IsChain awaiting_payment ts
    → Ends awaiting_payment released ts
    → Passes work_submitted ts ⊎ Passes disputed ts
unfolding can_transition
can_transition_work_first [] c e = absurd (ground arith)
can_transition_work_first (awaiting_payment ∷ ts) (h, c) e = absurd (ground arith)
can_transition_work_first (locked ∷ ts) (h, c) e = from_locked ts c e
  where
    from_locked :
        (us : List Status)
        → IsChain locked us
        → Ends locked released us
        → Passes work_submitted (locked ∷ us) ⊎ Passes disputed (locked ∷ us)
    from_locked [] c e = absurd (ground arith)
    from_locked (work_submitted ∷ us) c e = inl (inr (inl refl))
    from_locked (disputed ∷ us) c e = inr (inr (inl refl))
    from_locked (awaiting_payment ∷ us) (h, c) e = absurd (ground arith)
    from_locked (locked ∷ us) (h, c) e = absurd (ground arith)
    from_locked (reviewing ∷ us) (h, c) e = absurd (ground arith)
    from_locked (released ∷ us) (h, c) e = absurd (ground arith)
    from_locked (refunded ∷ us) (h, c) e = absurd (ground arith)
    from_locked (other s ∷ us) (h, c) e = absurd (ground arith)
can_transition_work_first (work_submitted ∷ ts) c e = inl (inl refl)
can_transition_work_first (reviewing ∷ ts) (h, c) e = absurd (ground arith)
can_transition_work_first (released ∷ ts) (h, c) e = absurd (ground arith)
can_transition_work_first (disputed ∷ ts) (h, c) e = inr (inl refl)
can_transition_work_first (refunded ∷ []) (h, c) e = absurd (ground arith)
can_transition_work_first (refunded ∷ t ∷ ts) (h, (g, c)) e = absurd (ground arith)
can_transition_work_first (other s ∷ ts) (h, c) e = absurd (ground arith)
