-- ===== src/Deals/Repository/Guarded.antt =====
-- `UpdateStatusIfCurrent` of deals/repository.go.
use ganji.Base.{
  ℕ, suc, ◌≡◌, refl, inl, inr, Bool, true, false, ◌&&◌, some, List, [], ◌∷◌, Text, find, Bool-cases,
  arith, if◌then◌else◌,
}
use ganji.Deals.Status.{Status, status_eq}
use ganji.Deals.Types.{Deal}
use ganji.Deals.World.{Result, ok, err, db_failed, Tables, World, Env, ◌>>=◌}
use ganji.Deals.Contract.Row.{row_of}
use ganji.Deals.Repository.{
  pool, has_id, update_where, count_where, set_status, update_status_if_current,
}

count-none :
    (p q : Deal → Bool) (rows : List Deal)
    → count_where p rows ≡ 0
    → count_where (λ x. p x && q x) rows ≡ 0
count-none p q [] none_yet = refl
count-none p q (x ∷ xs) h = elim (Bool-cases (p x)) [
  | inl e ↦ absurd (ground arith)
  | inr e ↦ rw e (count-none p q xs (ground arith))
]

update-none :
    (p q : Deal → Bool) (f : Deal → Deal) (rows : List Deal)
    → count_where p rows ≡ 0
    → update_where (λ x. p x && q x) f rows ≡ rows
update-none p q f [] h = refl
update-none p q f (x ∷ xs) h = elim (Bool-cases (p x)) [
  | inl e ↦ absurd (ground arith)
  | inr e ↦ rw (e, update-none p q f xs (ground arith)) refl
]

same_row : (x d : Deal) → some x ≡ some d → x ≡ d
same_row x d e = cc e

guarded_head :
    (q : Deal → Bool) (x d : Deal) (n : ℕ)
    → n ≡ 0
    → x ≡ d
    → (if q x then suc n else n) ≡ (if q d then 1 else 0)
guarded_head q x d n z e = rw (z, e) refl

-- With one row of the id, the guarded update counts it if the status is the expected one.
count-guarded :
    (p q : Deal → Bool) (d : Deal) (rows : List Deal)
    → count_where p rows ≡ 1
    → find p rows ≡ some d
    → count_where (λ x. p x && q x) rows ≡ (if q d then 1 else 0)
count-guarded p q d [] one found = absurd (ground arith)
count-guarded p q d (x ∷ xs) one found = elim (Bool-cases (p x)) [
  | inl e ↦
      rw e (guarded_head q x d _ (count-none p q xs (ground arith)) (same_row x d (rw e at found)))
  | inr e ↦ rw e (count-guarded p q d xs (rw e at one) (rw e at found))
]

update-nothing :
    (p : Deal → Bool) (f : Deal → Deal) (rows : List Deal)
    → count_where p rows ≡ 0
    → update_where p f rows ≡ rows
update-nothing p f [] h = refl
update-nothing p f (x ∷ xs) h = elim (Bool-cases (p x)) [
  | inl e ↦ absurd (ground arith)
  | inr e ↦ rw (e, update-nothing p f xs (ground arith)) refl
]

if-head :
    (b : Bool) (x y : Deal) (xs : List Deal)
    → ((if b then x else y) ∷ xs) ≡ (if b then x ∷ xs else y ∷ xs)
if-head true x y xs = refl
if-head false x y xs = refl

if-tail :
    (b : Bool) (x : Deal) (xs ys : List Deal)
    → (x ∷ (if b then xs else ys)) ≡ (if b then x ∷ xs else x ∷ ys)
if-tail true x xs ys = refl
if-tail false x xs ys = refl

-- The rows that one guarded update leaves.
update-guarded :
    (p q : Deal → Bool) (f : Deal → Deal) (d : Deal) (rows : List Deal)
    → count_where p rows ≡ 1
    → find p rows ≡ some d
    → update_where (λ x. p x && q x) f rows ≡ (if q d then update_where p f rows else rows)
update-guarded p q f d [] one found = absurd (ground arith)
update-guarded p q f d (x ∷ xs) one found = elim (Bool-cases (p x)) [
  | inl e ↦
      let none_left : count_where p xs ≡ 0 = ground arith in
      rw
        (
          e,
          same_row x d (rw e at found),
          update-none p q f xs none_left,
          update-nothing p f xs none_left,
        )
        (if-head (q d) (f d) d xs)
  | inr e ↦
      rw (e, update-guarded p q f d xs (rw e at one) (rw e at found))
        (if-tail (q d) x (update_where p f xs) xs)
]

module _ (env : Env) (id : Text) (expected s : Status) (w : World) where
  -- The tables that the statement sees.
  abbrev seen : Tables
  seen = env.others w.tick w.tables

  -- With one row of the id, and a statement that does not fail, `UpdateStatusIfCurrent` is a
  -- compare-and-swap: it returns true and sets the status of the row where its status is the expected
  -- one, and else returns false and leaves the tables as they were.
  pub update_status_if_current_swaps :
      (d : Deal)
      → env.db_fails w.tick ≡ false
      → count_where (has_id id) seen.deals ≡ 1
      → row_of id seen ≡ some d
      → update_status_if_current env pool id expected s w ≡ (
          if status_eq d.status expected
          then (
            ok true,
            record w {
              tables = record seen {
                deals = update_where (has_id id) (set_status s (env.now w.tick)) seen.deals;
              };
              tick = suc w.tick;
            },
          )
          else (ok false, record w { tables = seen; tick = suc w.tick }))
  unfolding update_status_if_current ◌>>=◌
  update_status_if_current_swaps d alive one found =
      rw
        (
          alive,
          count-guarded (has_id id) (λ x. status_eq x.status expected) d seen.deals one found,
          update-guarded (has_id id) (λ x. status_eq x.status expected)
              (set_status s (env.now w.tick)) d seen.deals one found,
        )
        (elim (Bool-cases (status_eq d.status expected)) [ inl e ↦ rw e refl | inr e ↦ rw e refl ])

-- COMMIT, or ROLLBACK to the tables `before`, after the body of a transaction.
module _ {A : Type 0} (env : Env) (before : Tables) where
  abbrev pub committed : Result A × World → Result A × World
  committed (r, w') = elim r [
    | err e ↦ (err e, record w' { tables = before })
    | ok a ↦
        if env.db_fails w'.tick
        then (
          err db_failed,
          record w' {
            tables = if env.commit_lost w'.tick then w'.tables else before;
            tick = suc w'.tick;
          },
        )
        else (ok a, record w' { tick = suc w'.tick })
  ]
