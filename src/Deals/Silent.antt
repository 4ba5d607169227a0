-- ===== src/Deals/Silent.antt =====
-- Actions that ask for no payout, with one rule for each way to build an action and for each statement.
use ganji.Base.{ℕ, suc, ◌≡◌, refl, ◌∙◌, Bool, true, false, Text, arith, if◌then◌else◌}
use ganji.Deals.Types.{Time, Deal}
use ganji.Deals.World.{
  Error, Result, ok, err, Tables, Notice, World, Env, Config, M, pure, raise, lift, raise_if, try,
  step, ◌>>=◌,
}
use ganji.Deals.Contract.Row.{payouts}
use ganji.Deals.Repository.{Dbtx, statement, select, exec_where, exec_by_id, transaction}
use ganji.Deals.Escrow.{
  lnbits_check, check_outgoing_payout, cancel_escrow_hold, anchor_released_deal, notify,
}

pub record Silent {A : Type 0} (m : M A) : Type 0 where
  pub keeps : (w : World) → payouts (m w).1.calls ≡ payouts w.calls

module _ {A : Type 0} where
  pub Silent-pure : (a : A) → Silent (pure a)
  unfolding pure
  Silent-pure a = record { keeps = λ w. refl }

  pub Silent-raise : (e : Error) → Silent (raise {A = A} e)
  unfolding raise
  Silent-raise e = record { keeps = λ w. refl }

  pub Silent-lift : (r : Result A) → Silent (lift r)
  unfolding lift
  Silent-lift r = record { keeps = λ w. refl }

  pub Silent-if : (b : Bool) (m n : M A) → Silent m → Silent n → Silent (if b then m else n)
  Silent-if true m n hm hn = hm
  Silent-if false m n hm hn = hn

  pub Silent-try : (m : M A) → Silent m → Silent (try m)
  unfolding try
  Silent-try m h = record { keeps = h.keeps }

pub Silent-raise_if : (b : Bool) (e : Error) → Silent (raise_if b e)
unfolding raise_if
Silent-raise_if true e = record { keeps = λ w. refl }
Silent-raise_if false e = record { keeps = λ w. refl }

pub Silent-step : Silent step
unfolding step
Silent-step = record { keeps = λ w. refl }

module _ {A B : Type 0} where
  pub Silent-bind : (m : M A) (f : A → M B) → Silent m → ((a : A) → Silent (f a)) → Silent (m >>= f)
  unfolding ◌>>=◌
  Silent-bind m f hm hf = record { keeps = λ w. go (m w) (hm.keeps w) }
    where
      go :
          {n : ℕ} (o : Result A × World)
          → payouts o.1.calls ≡ n
          → payouts ((lift o.0 >>= f) o.1).1.calls ≡ n
      go (ok a, w) e = (hf a).keeps w ∙ e
      go (err x, w) e = e

module _ (env : Env) where
  pub Silent-statement :
      {A : Type 0} (q : Dbtx) (f : ℕ → Tables → Result A × Tables) → Silent (statement env q f)
  unfolding statement
  Silent-statement q f = record { keeps = λ w. ground arith }

  pub Silent-transaction : {A : Type 0} (body : M A) → Silent body → Silent (transaction env body)
  unfolding transaction
  Silent-transaction {A} body h = record {
    keeps = λ w.
        ground
          (arith, h.keeps (record w { tables = env.others w.tick w.tables; tick = suc w.tick }));
  }

  pub Silent-select : {A : Type 0} (q : Dbtx) (f : Tables → Result A) → Silent (select env q f)
  unfolding select statement
  Silent-select q f = record { keeps = λ w. ground arith }

  pub Silent-exec_where :
      (q : Dbtx) (p : Deal → Bool) (f : Time → Deal → Deal) → Silent (exec_where env q p f)
  unfolding exec_where statement
  Silent-exec_where q p f = record { keeps = λ w. ground arith }

  pub Silent-exec_by_id :
      (q : Dbtx) (id : Text) (f : Time → Deal → Deal) → Silent (exec_by_id env q id f)
  unfolding exec_by_id
  Silent-exec_by_id q id f =
      Silent-bind _ _ (Silent-exec_where q _ f)
        λ rows. Silent-if _ _ _ (Silent-raise _) (Silent-pure _)

  pub Silent-check : (c : Text) → Silent (lnbits_check env c)
  unfolding lnbits_check ◌>>=◌
  Silent-check c = record { keeps = λ w. ground arith }

  pub Silent-cancel_escrow_hold : (d : Deal) → Silent (cancel_escrow_hold env d)
  unfolding cancel_escrow_hold ◌>>=◌
  Silent-cancel_escrow_hold d = record { keeps = λ w. ground arith }

  pub Silent-check_outgoing : (c : Text) → Silent (check_outgoing_payout env c)
  unfolding check_outgoing_payout ◌>>=◌
  Silent-check_outgoing c = record { keeps = λ w. ground arith }

module _ (cfg : Config) where
  pub Silent-notify : (n : Notice) (d : Deal) → Silent (notify cfg n d)
  unfolding notify ◌>>=◌
  Silent-notify n d = record { keeps = λ w. ground arith }

  pub Silent-anchor : (d : Deal) → Silent (anchor_released_deal cfg d)
  unfolding anchor_released_deal ◌>>=◌
  Silent-anchor d = record { keeps = λ w. ground arith }

pub ruleset silence = (
  Silent-pure, Silent-raise, Silent-lift, Silent-if, Silent-try, Silent-raise_if, Silent-step,
  Silent-bind, Silent-statement, Silent-transaction, Silent-select, Silent-exec_where,
  Silent-exec_by_id, Silent-check, Silent-cancel_escrow_hold, Silent-check_outgoing, Silent-notify,
  Silent-anchor,
)
