-- ===== src/Deals/Lifecycle/Changes.antt =====
-- `UpdateStatus` of deals/service.go.
use ganji.Base.{◌≡◌, refl, ◌⊎◌, inl, inr, true, false, Text, arith}
use ganji.Deals.Status.{
  Status, awaiting_payment, locked, work_submitted, reviewing, released, disputed, refunded, other,
  can_transition,
}
use ganji.Deals.World.{World, Env, Config}
use ganji.Deals.Contract.{Contract-bind, Contract-weaken}
use ganji.Deals.Contract.Free.{Any, free, OnOk, on_ok, guard}
use ganji.Deals.Lifecycle.{update_status, is_money_transition}

-- The statuses that a freelancer may set by hand.
abbrev pub IsManual : Status → Type 0
IsManual s = (s ≡ work_submitted) ⊎ (s ≡ reviewing)

manual : (s t : Status) → is_money_transition t ≡ false → can_transition s t ≡ true → IsManual t
unfolding is_money_transition can_transition
manual s work_submitted m c = inl refl
manual s reviewing m c = inr refl
manual s awaiting_payment m c = ground arith
manual s (other t) m c = ground arith
manual s locked m c = cc m
manual s released m c = cc m
manual s disputed m c = cc m
manual s refunded m c = cc m

-- A status change by the freelancer that succeeds is one to work_submitted or to reviewing.
pub update_status-IsManual :
    (env : Env) (cfg : Config) (user id : Text) (s : Status) (w : World)
    → OnOk (λ _. IsManual s) (update_status env cfg user id s w).0
unfolding update_status
update_status-IsManual env cfg user id s w =
    on_ok {S = Any} _ _
      (Contract-bind (λ _. Any) (free _)
        λ d. guard _ _ _ λ own. guard _ _ _ λ m. guard _ _ _ λ c.
          Contract-weaken (free _) (λ w h. h) (λ _ w h. manual d.status s m (ground arith))
            (λ _ w h. h))
      w tt
