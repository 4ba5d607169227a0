-- ===== src/Requests/Settled.antt =====
-- Sequences of requests about a deal that is released or refunded.
use ganji.Base.{◌≡◌, refl, ◌⊎◌, some, List, [], ◌∷◌, Text, ◌∙◌, sym, arith, subst}
use ganji.Deals.Status.{Status, released, refunded, can_transition}
use ganji.Deals.World.{World, Env, Config}
use ganji.Deals.Contract.Row.{row_of}
use ganji.Deals.Types.{Deal}
use ganji.Requests.{Request, serve, serve_all}
use ganji.Requests.Course.{Legal, Still}
use ganji.Requests.Course.Served.{serve_follows_lifecycle}

-- The statuses of deals whose money went one way or the other.
abbrev IsSettled : Status → Type 0
IsSettled s = (s ≡ released) ⊎ (s ≡ refunded)

settled_stays : (s t : Status) → IsSettled s → Legal s t → t ≡ s
unfolding can_transition
settled_stays s t settled step = ground arith

module _ (cfg : Config) (id : Text) where
  abbrev AllStill : List (Env × Request) → Type 0
  AllStill [] = Unit
  AllStill ((env, r) ∷ rest) = Still env id × AllStill rest

  -- Whatever requests about a deal are served one after the other: a deal that is released stays released,
  -- and one that is refunded stays refunded, while other requests leave the status of its row alone.
  pub serve_all_settled :
      (rs : List (Env × Request))
      → AllStill rs
      → (w : World) (d : Deal) → row_of id w.tables ≡ some d
      → IsSettled d.status
      → (after : Deal) × (row_of id (serve_all cfg id rs w).tables ≡ some after)
        × (after.status ≡ d.status)
  unfolding serve_all
  serve_all_settled [] still w d found settled = (d, found, refl)
  serve_all_settled ((env, r) ∷ rest) (still, later) w d found settled =
      let (d', found', step) = serve_follows_lifecycle cfg id env still r w d found in
      let same = settled_stays d.status d'.status settled step in
      let (after, seen, e) =
        serve_all_settled rest later (serve cfg id env r w) d' found'
          (subst IsSettled (sym same) settled) in
      (after, seen, e ∙ same)
