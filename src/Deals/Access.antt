-- ===== src/Deals/Access.antt =====
-- Who may ask for what: `GetDealByID`, `GetArtifactByID`, `RotateShareLink` and `DisputeDeal` of
-- deals/service.go.
use ganji.Base.{
  ℕ, suc, ◌≤◌, ◌≡◌, ◌∙◌, refl, ◌≢◌, ◌⊎◌, inl, inr, true, false, not, Option, none, some, Bool-cases,
  Text, text_eq, equal_fold, is_empty, length, arith,
}
use ganji.Deals.Status.{released, refunded, disputed}
use ganji.Deals.Types.{Deal, Artifact}
use ganji.Deals.World.{Error, Result, ok, err, Tables, World, Env, Config, deal_not_found}
use ganji.Deals.Contract.{
  Post, Contract, Contract-bind, Contract-raise_if, Contract-pure, Contract-weaken, Contract-assume,
}
use ganji.Deals.Contract.Free.{Any, free, OnOk, on_ok, guard}
use ganji.Deals.Repository
use ganji.Deals.Repository.{pool, select, statement, required}
use ganji.Deals.Contract.Row.{row_of}
use ganji.Deals.Lifecycle.{is_party, get_deal_by_id, dispute_deal, rotate_share_link, is_frozen}

required_found :
    {A : Type 0} (e : Error) (found : Option A) (a : A) → (required e found ≡ ok a) → found ≡ some a
required_found e none a h = absurd (ground arith)
required_found e (some b) a h = cc h

module _ (env : Env) (cfg : Config) where
  -- The deal that is returned has passed the test of its parties.
  pub get_deal_by_id-is_party :
      (id user email : Text) (w : World)
      → OnOk (λ d. is_party env cfg d user email ≡ true) (get_deal_by_id env cfg id user email w).0
  unfolding get_deal_by_id
  get_deal_by_id-is_party id user email = λ w.
      on_ok {S = Any} _ _
        (guard _ _ _ λ _.
          Contract-bind (λ _. Any) (free _)
            λ d. guard _ _ _ λ t. Contract-pure d (λ w _. ground arith))
        w tt

  -- The deal that is returned has passed the tests of its owner and of its status.
  pub rotate_share_link_owner :
      (user id : Text) (w : World)
      → OnOk
          (λ d. (d.freelancer_id ≡ user) × (d.status ≢ released) × (d.status ≢ refunded))
          (rotate_share_link env cfg user id w).0
  unfolding rotate_share_link is_frozen
  rotate_share_link_owner user id = λ w.
      on_ok {S = Any} _ _
        (guard _ _ _ λ _.
          Contract-bind (λ _. Any) (free _)
            λ d. guard _ _ _ λ own. guard _ _ _ λ open_yet.
              Contract-bind (λ _. Any) (free _)
                λ token.
                  Contract-bind (λ _. Any) (free _)
                    λ _. Contract-pure _ (λ w _. (ground arith, ground arith, ground arith)))
        w tt

  -- The deal that is returned has passed the tests of its client and of the reason.
  pub dispute_deal_client :
      (email id reason : Text) (w : World)
      → OnOk
          (λ d.
            (equal_fold env.fold_rune d.client_email email ≡ true)
            × (d.status ≡ disputed)
            × (is_empty d.dispute_reason ≡ false)
            × (length d.dispute_reason ≤ 2000))
          (dispute_deal env cfg email id reason w).0
  unfolding dispute_deal
  dispute_deal_client email id reason = λ w.
      on_ok {S = Any} _ _
        (guard _ _ _ λ _. guard _ _ _ λ some_reason. guard _ _ _ λ short.
          Contract-bind (λ _. Any) (free _)
            λ d. guard _ _ _ λ own. guard _ _ _ λ _.
              Contract-bind (λ _. Any) (free _)
                λ b. guard _ _ _ λ _.
                  Contract-bind (λ _. Any) (free _)
                    λ t.
                      Contract-bind (λ _. Any) (free _)
                        λ _.
                          Contract-pure _ (λ w _. (ground arith, refl, some_reason, ground arith)))
        w tt

own : (a : Artifact) (id : Text) → not (text_eq a.deal_id id) ≡ false → a.deal_id ≡ id
own a id mine = ground arith

-- Nobody else writes, and the tables are these.
module _ (env : Env) (cfg : Config) (tables : Tables)
    (alone : (t : ℕ) (seen : Tables) → env.others t seen ≡ seen) where
  abbrev Same : World → Type 0
  Same w = w.tables ≡ tables

  read :
      {A : Type 0} (f : Tables → Result A)
      → Contract Same (select env pool f) (λ a w. (f tables ≡ ok a) × Same w) (λ _. Same)
  unfolding select statement
  read {A} f = record {
    at = λ w h. elim (Bool-cases (env.db_fails w.tick)) [
      | inl e ↦ rw e (alone w.tick w.tables ∙ h)
      | inr e ↦ rw (e, alone w.tick w.tables, h) (go w h (f tables) refl)
    ];
  }
    where
      go :
          (w : World)
          → Same w
          → (r : Result A) → f tables ≡ r
          → Post
              (λ a w. (f tables ≡ ok a) × Same w)
              (λ _. Same)
              (r, record w { tables = tables; tick = suc w.tick })
      go w h (ok a) e = (e, refl)
      go w h (err x) e = refl

  read_deal :
      (id : Text)
      → Contract Same
          (Repository.get_deal_by_id env pool id)
          (λ d w. (row_of id tables ≡ some d) × Same w)
          (λ _. Same)
  unfolding Repository.get_deal_by_id
  read_deal id =
      Contract-weaken (read λ seen. required deal_not_found (row_of id seen)) (λ w h. h)
        (λ a w h. (required_found _ _ a h.0, h.1)) (λ _ w h. h)

  -- What is left of the tables when `id` is not the caller's own deal, or its money has moved.
  abbrev Owned : Text → Text → Type 0
  Owned user id =
      (d : Deal) × (row_of id tables ≡ some d)
      × (d.freelancer_id ≡ user)
      × (d.status ≢ released)
      × (d.status ≢ refunded)

  abbrev Held : Text → Text → World → Type 0
  Held user id w = Same w ⊎ Owned user id

  held :
      {A : Type 0} (user id : Text) (o : Result A × World)
      → Post (λ _. Held user id) (λ _. Held user id) o
      → Held user id o.1
  held user id (ok a, w) h = h
  held user id (err e, w) h = h

  -- Where nobody else writes meanwhile, whatever `RotateShareLink` returns, it leaves the tables as they
  -- were, or else the row of the id has the caller as its freelancer and is neither released nor refunded.
  pub rotate_share_link_owned :
      (user id : Text) (w : World)
      → w.tables ≡ tables
      → ((rotate_share_link env cfg user id w).1.tables ≡ tables)
        ⊎ ((d : Deal) × (row_of id tables ≡ some d)
            × (d.freelancer_id ≡ user)
            × (d.status ≢ released)
            × (d.status ≢ refunded))
  unfolding rotate_share_link is_frozen
  rotate_share_link_owned user id w start = held user id _ (rotated.at w start)
    where
      rotated :
          Contract Same (rotate_share_link env cfg user id) (λ _. Held user id) (λ _. Held user id)
      rotated =
          Contract-raise_if _ _ _ (λ w h _. inl h)
            λ _.
              Contract-bind (λ d w. (row_of id tables ≡ some d) × Same w)
                (Contract-weaken (read_deal id) (λ w h. h) (λ d w h. h) (λ _ w h. inl h))
                λ d.
                  Contract-raise_if _ _ _ (λ w h _. inl h.1)
                    λ mine.
                      Contract-raise_if _ _ _ (λ w h _. inl h.1)
                        λ open_yet.
                          Contract-assume (λ w h. h.0)
                            λ found.
                              let own_deal : Owned user id =
                                (d, found, ground arith, ground arith, ground arith) in
                              Contract-weaken (free _) (λ w h. tt) (λ _ w h. inr own_deal)
                                (λ _ w h. inr own_deal)
