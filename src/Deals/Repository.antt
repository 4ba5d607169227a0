-- ===== src/Deals/Repository.antt =====
-- The statements of backend/internal/deals/repository.go, over the tables in memory.
--
-- A row is the `Deal` that `scanDeal` reads back: a NULL column is the empty string, as there. The
-- preimage column is kept in the clear: its encryption may fail (`encrypt_fails`), and a row whose
-- preimage cannot be decrypted is a statement that fails.
pub mod Lookup
pub mod Order
pub mod Guarded
pub mod Sorted
pub mod Open
use ganji.Base.{
  ℕ, suc, Bool, true, false, ◌&&◌, ◌||◌, Option, none, some, List, [], ◌∷◌, ◌++◌, Text, text_eq,
  find, filter, any, length, ltb, leb, ◌==◌, if◌then◌else◌,
}
use ganji.Deals.Status.{
  Status, awaiting_payment, locked, work_submitted, reviewing, released, disputed, status_eq,
}
use ganji.Deals.Types.{Time, Deal, Artifact, Verification}
use ganji.Deals.World.{
  Error, Result, ok, err, deal_not_found, artifact_not_found, verification_not_found, db_failed,
  Tables, World, Env, M, pure, raise, ◌>>=◌, ◌>>◌,
}

-- `Repository.q`: the pool (each statement commits by itself) or an open transaction.
pub data Dbtx : Type 0 where
  pool tx : Dbtx

abbrev pub has_id : Text → Deal → Bool
has_id id d = text_eq d.id id

-- `UPDATE deals SET … WHERE …` and the number of rows that it changes.
abbrev pub update_where : (Deal → Bool) → (Deal → Deal) → List Deal → List Deal
update_where p f [] = []
update_where p f (d ∷ ds) = (if p d then f d else d) ∷ update_where p f ds

abbrev pub count_where : (Deal → Bool) → List Deal → ℕ
count_where p [] = 0
count_where p (d ∷ ds) = if p d then suc (count_where p ds) else count_where p ds

-- `verified_at = CASE WHEN $1 = 'released' THEN NOW() ELSE verified_at END`
abbrev pub set_status : Status → Time → Deal → Deal
set_status s now d = record d {
  status = s;
  verified_at = if status_eq s released then some now else d.verified_at;
}

-- The SET clauses of the other updates.
abbrev pub set_payee_invoice : Text → Time → Deal → Deal
set_payee_invoice invoice now d = record d { payee_invoice = invoice }

abbrev pub set_share_token : Text → Time → Deal → Deal
set_share_token token now d = record d { share_token = token }

abbrev pub set_payout_checking_id : Text → Time → Deal → Deal
set_payout_checking_id payout now d = record d { payout_checking_id = payout }

abbrev pub set_attempted : Time → Deal → Deal
set_attempted now d = record d { payout_attempted_at = some now }

abbrev pub clear_payout : Time → Deal → Deal
clear_payout now d = record d { payout_checking_id = []; payout_attempted_at = none }

abbrev pub set_disputed : Text → Time → Deal → Deal
set_disputed reason now d = record d {
  status = disputed;
  dispute_reason = reason;
  disputed_at = some now;
}

abbrev pub set_resolution : Status → Text → Time → Deal → Deal
set_resolution s operator now d = record (set_status s now d) {
  resolved_by = operator;
  resolved_at = some now;
}

-- `ORDER BY`: insertion by a key, the first of equal keys first.
abbrev pub insert_by : {A : Type 0} → (A → A → Bool) → A → List A → List A
insert_by before a [] = a ∷ []
insert_by before a (b ∷ bs) = if before b a then b ∷ insert_by before a bs else a ∷ b ∷ bs

-- What the database does of ORDER BY.
unfoldable pub order_by : {A : Type 0} → (A → A → Bool) → List A → List A
order_by before [] = []
order_by before (a ∷ as') = insert_by before a (order_by before as')

abbrev pub newest_first : Deal → Deal → Bool
newest_first a b = ltb b.created_at a.created_at

abbrev pub oldest_first : Deal → Deal → Bool
oldest_first a b = ltb a.created_at b.created_at

abbrev optional_time : Option Time → Time
optional_time none = 0
optional_time (some t) = t

-- The statuses of `ListOpenBefore`.
abbrev pub is_open : Status → Bool
is_open awaiting_payment = true
is_open locked = true
is_open work_submitted = true
is_open reviewing = true
is_open disputed = true
is_open _ = false

abbrev pub required : {A : Type 0} → Error → Option A → Result A
required e none = err e
required e (some a) = ok a

module _ (env : Env) where
  -- The tables that a statement runs on.
  abbrev pub visible : Dbtx → ℕ → Tables → Tables
  visible pool t tables = env.others t tables
  visible tx t tables = tables

  unfoldable pub statement : {A : Type 0} → Dbtx → (ℕ → Tables → Result A × Tables) → M A
  statement q f w =
      let tables = visible q w.tick w.tables in
      if env.db_fails w.tick
      then (err db_failed, record w { tables = tables; tick = suc w.tick })
      else (let (r, tables') = f w.tick tables in
          (r, record w { tables = tables'; tick = suc w.tick }))

  unfoldable pub select : {A : Type 0} → Dbtx → (Tables → Result A) → M A
  unfolding statement
  select q f = statement q (λ t tables. (f tables, tables))

  -- An UPDATE of deals and `RowsAffected`.
  unfoldable pub exec_where : Dbtx → (Deal → Bool) → (Time → Deal → Deal) → M ℕ
  unfolding statement
  exec_where q p f = statement q λ t tables. (
    ok (count_where p tables.deals),
    record tables { deals = update_where p (f (env.now t)) tables.deals },
  )

  -- An UPDATE by id, `ErrDealNotFound` if it changes no row.
  unfoldable pub exec_by_id : Dbtx → Text → (Time → Deal → Deal) → M (Unit {0})
  unfolding exec_where
  exec_by_id q id f = do
    rows_affected ← exec_where q (has_id id) f
    if rows_affected == 0 then raise deal_not_found else pure tt

  unfoldable pub create_deal : Dbtx → Deal → M Deal
  unfolding statement
  create_deal q deal = statement q λ t tables.
      let stored = record deal {
        id = env.new_id t;
        preimage = if env.encrypt_fails t then [] else deal.preimage;
        created_at = env.now t;
        payout_attempted_at = none;
        dispute_reason = [];
        disputed_at = none;
        resolved_at = none;
        resolved_by = [];
        verified_at = none;
      } in
      (
        ok (record deal { id = env.new_id t; created_at = env.now t }),
        record tables { deals = tables.deals ++ (stored ∷ []) },
      )

  unfoldable pub get_deal_by_id : Dbtx → Text → M Deal
  unfolding select
  get_deal_by_id q id = select q (λ tables. required deal_not_found (find (has_id id) tables.deals))

  unfoldable pub get_deal_by_checking_id : Dbtx → Text → M Deal
  unfolding select
  get_deal_by_checking_id q checking_id =
      select q λ tables.
        required deal_not_found (find (λ d. text_eq d.checking_id checking_id) tables.deals)

  unfoldable pub get_deal_by_share_token : Dbtx → Text → M Deal
  unfolding select
  get_deal_by_share_token q token =
      select q
        λ tables. required deal_not_found (find (λ d. text_eq d.share_token token) tables.deals)

  -- `SELECT … FOR UPDATE`
  unfoldable pub get_deal_for_update : Dbtx → Text → M Deal
  unfolding select
  get_deal_for_update q id =
      select q (λ tables. required deal_not_found (find (has_id id) tables.deals))

  unfoldable list_by_freelancer : Dbtx → Text → M (List Deal)
  unfolding select order_by
  list_by_freelancer q freelancer_id = select q λ tables.
      ok (order_by newest_first (filter (λ d. text_eq d.freelancer_id freelancer_id) tables.deals))

  unfoldable pub list_for_user : Dbtx → Text → Text → M (List Deal)
  unfolding select order_by
  list_for_user q user_id email = select q λ tables. ok (
      order_by newest_first (
        filter (λ d. text_eq d.freelancer_id user_id || text_eq d.client_email email) tables.deals))

  unfoldable pub list_open_before : Dbtx → Time → M (List Deal)
  unfolding select order_by
  list_open_before q cutoff = select q λ tables. ok (
      order_by oldest_first
        (filter (λ d. is_open d.status && ltb d.created_at cutoff) tables.deals))

  unfoldable pub list_disputed : Dbtx → M (List Deal)
  unfolding select order_by
  list_disputed q = select q λ tables. ok (
      order_by (λ a b. ltb (optional_time a.disputed_at) (optional_time b.disputed_at))
        (filter (λ d. status_eq d.status disputed) tables.deals))

  unfoldable pub update_payee_invoice : Dbtx → Text → Text → M (Unit {0})
  unfolding exec_by_id
  update_payee_invoice q id invoice = exec_by_id q id (set_payee_invoice invoice)

  unfoldable pub update_share_token : Dbtx → Text → Text → M (Unit {0})
  unfolding exec_by_id
  update_share_token q id token = exec_by_id q id (set_share_token token)

  unfoldable pub update_payout_checking_id : Dbtx → Text → Text → M (Unit {0})
  unfolding exec_by_id
  update_payout_checking_id q id payout = exec_by_id q id (set_payout_checking_id payout)

  unfoldable pub mark_payout_attempted : Dbtx → Text → M (Unit {0})
  unfolding exec_by_id
  mark_payout_attempted q id = exec_by_id q id set_attempted

  unfoldable pub clear_payout_tracking : Dbtx → Text → M (Unit {0})
  unfolding exec_by_id
  clear_payout_tracking q id = exec_by_id q id clear_payout

  unfoldable pub update_status : Dbtx → Text → Status → M (Unit {0})
  unfolding exec_by_id
  update_status q id s = exec_by_id q id (set_status s)

  unfoldable pub update_status_if_current : Dbtx → Text → Status → Status → M Bool
  unfolding exec_where
  update_status_if_current q id expected s = do
    rows_affected ← exec_where q (λ d. has_id id d && status_eq d.status expected) (set_status s)
    pure (rows_affected == 1)

  unfoldable pub update_dispute_if_current : Dbtx → Text → Status → Text → M Bool
  unfolding exec_where
  update_dispute_if_current q id expected reason = do
    rows_affected ←
        exec_where q (λ d. has_id id d && status_eq d.status expected) (set_disputed reason)
    pure (rows_affected == 1)

  unfoldable pub update_dispute_resolution : Dbtx → Text → Status → Text → M (Unit {0})
  unfolding exec_by_id
  update_dispute_resolution q id s operator = exec_by_id q id (set_resolution s operator)

  unfoldable pub create_artifact : Dbtx → Artifact → M Artifact
  unfolding statement
  create_artifact q artifact = statement q λ t tables.
      let stored = record artifact { id = env.new_id t; uploaded_at = env.now t } in
      (ok stored, record tables { artifacts = tables.artifacts ++ (stored ∷ []) })

  unfoldable pub delete_artifact : Dbtx → Text → M (Unit {0})
  unfolding statement
  delete_artifact q id = statement q λ t tables.
      let is_it = λ (a : Artifact). text_eq a.id id in
      (
        if any is_it tables.artifacts then ok tt else err artifact_not_found,
        record tables {
          artifacts = filter (λ a. if is_it a then false else true) tables.artifacts;
        },
      )

  unfoldable pub get_artifact_by_id : Dbtx → Text → M Artifact
  unfolding select
  get_artifact_by_id q id =
      select q λ tables. required artifact_not_found (find (λ a. text_eq a.id id) tables.artifacts)

  unfoldable pub list_artifacts_by_deal : Dbtx → Text → M (List Artifact)
  unfolding select order_by
  list_artifacts_by_deal q deal_id = select q λ tables. ok (
      order_by (λ a b. ltb a.uploaded_at b.uploaded_at)
        (filter (λ a. text_eq a.deal_id deal_id) tables.artifacts))

  unfoldable pub create_verification : Dbtx → Verification → M Verification
  unfolding statement
  create_verification q v = statement q λ t tables.
      let stored = record v { id = env.new_id t; created_at = env.now t } in
      (ok stored, record tables { verifications = tables.verifications ++ (stored ∷ []) })

  unfoldable pub get_verification_by_id : Dbtx → Text → M Verification
  unfolding select
  get_verification_by_id q id =
      select q
        λ tables. required verification_not_found (find (λ v. text_eq v.id id) tables.verifications)

  unfoldable pub list_verifications_by_artifact : Dbtx → Text → M (List Verification)
  unfolding select order_by
  list_verifications_by_artifact q artifact_id = select q λ tables. ok (
      order_by (λ a b. ltb a.created_at b.created_at)
        (filter (λ v. text_eq v.artifact_id artifact_id) tables.verifications))

  -- What database/sql and the database do of BEGIN, `body`, COMMIT. The deferred `tx.Rollback()` undoes the writes of a body that returns an
  -- error. The rows that a body locks are its own until the end, so others write before BEGIN only.
  unfoldable pub transaction : {A : Type 0} → M A → M A
  transaction body w =
      let before = env.others w.tick w.tables in
      let begun = record w { tables = before; tick = suc w.tick } in
      if env.db_fails w.tick
      then (err db_failed, begun)
      else (let (r, w') = body begun in
          elim r [
            | err e ↦ (err e, record w' { tables = before })
            | ok a ↦
                if env.db_fails w'.tick
                then (
                  err db_failed,
                  record w' {
                    tables = if env.commit_lost w'.tick then w'.tables else before;
                    tick = suc w'.tick;
                  },
                )
                else (ok a, record w' { tick = suc w'.tick })
          ])
