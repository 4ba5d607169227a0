-- ===== src/Auth/Requests.antt =====
-- The requests of auth/handler.go, the worker of cleanup.go and the start-up's promotion, one after the
-- other in any order.
pub mod Gone
pub mod Replay
pub mod WellFormed
use ganji.Base.{ℕ, List, [], ◌∷◌, Text}
use ganji.Base.Action.{Outcome, ok, err}
use ganji.Auth.{Platform, TokenManager, World, Env}
use ganji.Auth.Service

pub data Request : Type 0 where
  register : Text → Text → Text → Request
  login : Text → Text → Request
  refresh logout me : Text → Request
  promote : List Text → Request
  cleanup : Request

module _ (platform : Platform) (tm : TokenManager) where
  unfoldable pub serve : Env → Request → World → World
  serve env (Request.register email password name) w =
      (Service.register platform tm env email password name w).1
  serve env (Request.login email password) w =
      (Service.authenticate platform tm env email password w).1
  serve env (Request.refresh token) w = (Service.refresh_token platform tm env token w).1
  serve env (Request.logout token) w = (Service.logout platform tm env token w).1
  serve env (Request.me id) w = (Service.get_me platform tm env id w).1
  serve env (Request.promote emails) w = (Service.apply_operator_role platform tm env emails w).1
  serve env Request.cleanup w = (Service.cleanup_expired_refresh_tokens platform tm env w).1

  unfoldable pub serve_all : List (Env × Request) → World → World
  unfolding serve
  serve_all [] w = w
  serve_all ((env, r) ∷ rest) w = serve_all rest (serve env r w)
