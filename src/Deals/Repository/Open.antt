-- ===== src/Deals/Repository/Open.antt =====
-- The rows of `ListOpenBefore` of deals/repository.go.
use ganji.Base.{◌≡◌, true, ◌&&◌, List, All, filter, ltb, Bool-cases, inl, inr, arith}
use ganji.Deals.Types.{Time, Deal}
use ganji.Deals.World.{World, Env}
use ganji.Deals.Contract.Free.{OnOk}
use ganji.Deals.Repository.{
  pool, is_open, oldest_first, order_by, select, statement, list_open_before,
}
use ganji.Deals.Repository.Order.{All-imp, All-order_by, All-filter}

abbrev pub IsOpen : Deal → Type 0
IsOpen d = is_open d.status ≡ true

IsOpen-All :
    (cutoff : Time) (rows : List Deal)
    → All IsOpen
        (order_by oldest_first (filter (λ d. is_open d.status && ltb d.created_at cutoff) rows))
IsOpen-All cutoff rows =
    All-order_by IsOpen oldest_first _
      (All-imp _ IsOpen (λ d t. ground arith) _ (All-filter _ rows))

pub list_open_before-IsOpen :
    (env : Env) (cutoff : Time) (w : World)
    → OnOk (All IsOpen) (list_open_before env pool cutoff w).0
unfolding list_open_before select statement
list_open_before-IsOpen env cutoff w = elim (Bool-cases (env.db_fails w.tick)) [
  | inl e ↦ rw e tt
  | inr e ↦ rw e (IsOpen-All cutoff (env.others w.tick w.tables).deals)
]
