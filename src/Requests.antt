-- ===== src/Requests.antt =====
-- Requests about one deal, one after the other in any order: operations of deals/service.go, the webhook
-- and the sweep.
pub mod Updates
pub mod Kept
pub mod Network
pub mod Operator
pub mod OnePayout
pub mod Payers
pub mod Settled
pub mod Course
use ganji.Base.{ℕ, List, [], ◌∷◌, Text, Option}
use ganji.Deals.Status.{Status}
use ganji.Deals.Types.{Time, DisputeResolution, ReconcileAction}
use ganji.Deals.World.{Result, World, Env, Config, M}
use ganji.Deals.Release.{release_escrow, approve_deal, resolve_dispute}
use ganji.Deals.Lifecycle.{
  update_status, submit_work, dispute_deal, update_payee_invoice, rotate_share_link,
}
use ganji.Deals.Payment.{
  check_payment, sweep_expired_holds, public_options, reconcile_payout, get_public_deal,
}
use ganji.Webhook.{PaymentNotification, handle_payment}

-- A request about one deal that exists. `release_by_link` is what the share link's approval runs once it
-- has found the deal. Creating a deal, its artifacts and its verifications are not among them: they
-- write no column of a row of deals that is there.
pub data Request : Type 0 where
  approve : Text → Request
  release_by_link : Request
  resolve : Text → DisputeResolution → Request
  confirm : Text → Text → Request
  reset : Text → Text → Request
  dispute : Text → Text → Request
  change_status : Text → Status → Request
  submit : Text → Request
  poll : Text → Request
  view_link : Text → Request
  change_invoice : Text → Text → Request
  rotate_link : Text → Request
  notification : PaymentNotification → Request
  sweep : Time → Request

module _ (cfg : Config) (id : Text) where
  unfoldable pub serve : Env → Request → World → World
  serve env (approve email) w = (approve_deal env cfg email id w).1
  serve env release_by_link w = (release_escrow env cfg (public_options env cfg) id w).1
  serve env (resolve operator r) w = (resolve_dispute env cfg operator id r w).1
  serve env (confirm operator payout) w =
      (reconcile_payout env cfg operator id ReconcileAction.confirm_payout payout w).1
  serve env (reset operator payout) w =
      (reconcile_payout env cfg operator id ReconcileAction.reset_payout payout w).1
  serve env (dispute email reason) w = (dispute_deal env cfg email id reason w).1
  serve env (change_status user s) w = (update_status env cfg user id s w).1
  serve env (submit user) w = (submit_work env cfg user id w).1
  serve env (poll user) w = (check_payment env cfg user id w).1
  serve env (view_link token) w = (get_public_deal env cfg token w).1
  serve env (change_invoice user invoice) w = (update_payee_invoice env cfg user id invoice w).1
  serve env (rotate_link user) w = (rotate_share_link env cfg user id w).1
  serve env (notification n) w = (handle_payment env cfg n w).1
  serve env (sweep cutoff) w = (sweep_expired_holds env cfg cutoff w).1

  -- Requests one after the other, each with an environment of its own.
  unfoldable pub serve_all : List (Env × Request) → World → World
  unfolding serve
  serve_all [] w = w
  serve_all ((env, r) ∷ rest) w = serve_all rest (serve env r w)
