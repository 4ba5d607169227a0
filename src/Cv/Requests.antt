-- ===== src/Cv/Requests.antt =====
-- The requests of cv/handler.go, the release hook, the goroutines of submissions and the upgrade worker, one
-- after the other in any order.
pub mod Kept
pub mod Anchors
pub mod Faithful
pub mod Due
pub mod Healed
use ganji.Base.{ℕ, List, [], ◌∷◌, Text}
use ganji.Base.Action.{Outcome, ok, err}
use ganji.Cv.{Config, World, Env}
use ganji.Cv.Service

pub data Request : Type 0 where
  profile : Text → Request
  verify anchor : Text → Text → Request
  submission : ℕ → Request
  upgrade : Request

module _ (cfg : Config) where
  unfoldable pub serve : Env → Request → World → World
  serve env (Request.profile slug) w = (Service.get_profile cfg env slug w).1
  serve env (Request.verify slug id) w = (Service.verify_entry cfg env slug id w).1
  serve env (Request.anchor freelancer deal) w =
      (Service.anchor_released_deal cfg env freelancer deal w).1
  serve env (Request.submission n) w = (Service.run_nth_submission cfg env n w).1
  serve env Request.upgrade w = (Service.upgrade_ots_proofs cfg env w).1

  unfoldable pub serve_all : List (Env × Request) → World → World
  unfolding serve
  serve_all [] w = w
  serve_all ((env, r) ∷ rest) w = serve_all rest (serve env r w)
