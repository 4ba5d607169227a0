-- ===== src/Cv/Requests/Faithful.antt =====
-- `VerifyEntry` of cv/service.go, the rows that it reads and the content that it hashes.
use ganji.Base.{
  ℕ, ◌≡◌, refl, sym, ap, ◌∙◌, subst, inl, inr, Bool, true, Bool-cases, Option, none, some, List, [],
  ◌∷◌, map, any, All, Text, text_eq, is_empty, trim_space, ◌&&◌, arith,
}
use ganji.Base.Hex.{encode_hex}
use ganji.Base.Action.{
  Outcome, ok, err, Post, Triple, Triple-bind, Triple-pure, Triple-raise_if, Triple-or_raise,
}
use ganji.Base.Database.{IsStable, Triple-step, Triple-statement}
use ganji.Deals.Types.{Artifact, Deal}
use ganji.Cv.{User, Anchor, EntryRecord, VerifyResult, Error, db_failed, Tables, World, Env, Config}
use ganji.Cv.Repository
use ganji.Cv.Repository.{
  Joined, candidate, has_artifact, insert_anchor_row, set_ots, update_ots, update_score, with_user,
  with_deal, with_artifact, join, joined, keep_some, record_of,
}
use ganji.Cv.Rows.{OnSome, found, IsRow, All-keep, joined-IsRow, All-both}
use ganji.Cv.Service
use ganji.Ots
use ganji.Cv.Requests.{Request, serve, serve_all}
use ganji.Cv.Requests.Kept.{IsKept, serve-In}

with_verification-valid :
    (r : VerifyResult) (o : Ots.Outcome Ots.Verification)
    → (Service.with_verification r o).valid ≡ r.valid
with_verification-valid r (Ots.Outcome.ok ver) = refl
with_verification-valid r (Ots.Outcome.err e) = refl

with_hash-valid :
    (cfg : Config) (proof : Text) (r : VerifyResult) (o : Option Text)
    → (Service.with_hash cfg proof r o).valid ≡ r.valid
with_hash-valid cfg proof r none = refl
with_hash-valid cfg proof r (some hash) = with_verification-valid r _

-- The check of the timestamps leaves the comparison of the hashes alone.
with_ots-valid :
    (cfg : Config) (rec : EntryRecord) (r : VerifyResult) (proof : Option Text)
    (confirmed : Option ℕ)
    → (Service.with_ots cfg rec r proof confirmed).valid ≡ r.valid
with_ots-valid cfg rec r none confirmed = refl
with_ots-valid cfg rec r (some proof) none = refl
with_ots-valid cfg rec r (some proof) (some t) = elim (Bool-cases (is_empty proof)) [
  | inl e ↦ rw e refl
  | inr e ↦ rw e (with_hash-valid cfg proof r _)
]

module _ (cfg : Config) (key_of : Text → Text) (store : Text → Text) where
  abbrev digest_of : Text → Text
  digest_of key = encode_hex (cfg.sha256 (store key))

  -- Artifacts keep their storage keys, and an anchor has the digest of what is stored under its artifact's.
  pub record IsFaithful (t : Tables) : Type 0 where
    pub keyed : All (λ (x : Artifact). x.storage_key ≡ key_of x.id) t.artifacts
    pub hashed : All (λ (a : Anchor). a.hash ≡ digest_of (key_of a.artifact_id)) t.anchors

  -- Blobs are read as they were stored.
  abbrev ReadsStore : Env → Type 0
  ReadsStore env =
      (n : ℕ) (key content : Text) → env.blob n key ≡ some content → content ≡ store key

  insert-IsFaithful :
      (row : Anchor) (t : Tables)
      → row.hash ≡ digest_of (key_of row.artifact_id)
      → IsFaithful t
      → IsFaithful (insert_anchor_row row t).1
  insert-IsFaithful row t h f = elim (Bool-cases (any (has_artifact row.artifact_id) t.anchors)) [
    | inl e ↦ rw e f
    | inr e ↦ rw e (record { keyed = f.keyed; hashed = (h, f.hashed) })
  ]

  All-set_ots :
      (x : Text) (p : Option Text) (s c : Option ℕ) (xs : List Anchor)
      → All (λ a. a.hash ≡ digest_of (key_of a.artifact_id)) xs
      → All (λ a. a.hash ≡ digest_of (key_of a.artifact_id)) (map (set_ots x p s c) xs)
  All-set_ots x p s c [] h = tt
  All-set_ots x p s c (a ∷ xs) (e, h) = (kept, All-set_ots x p s c xs h)
    where
      kept : (set_ots x p s c a).hash ≡ digest_of (key_of (set_ots x p s c a).artifact_id)
      kept = elim (Bool-cases (has_artifact x a)) [ inl t ↦ rw t e | inr f ↦ rw f e ]

  ready :
      (t : Tables)
      → IsFaithful t
      → All
          (λ (x : Artifact). (candidate x).storage_key ≡ key_of (candidate x).artifact_id)
          t.artifacts
  ready t f = f.keyed

  IsFaithful-IsKept :
      (env : Env)
      → IsStable env.others IsFaithful
      → ReadsStore env
      → IsKept cfg env (λ c. c.storage_key ≡ key_of c.artifact_id) IsFaithful
  IsFaithful-IsKept env stable reads = record {
    stable = stable;
    listed = ready;
    inserted = λ n c content key e row same digest t f.
        insert-IsFaithful row t
          (digest
            ∙ ap (λ x. encode_hex (cfg.sha256 x)) (reads n c.storage_key content e)
            ∙ ap digest_of (key ∙ ap key_of (sym same)))
          f;
    updated = λ x proof s c t f. record {
      keyed = f.keyed;
      hashed = All-set_ots x (some proof) s c t.anchors f.hashed;
    };
    scored = λ x score t f. record { keyed = f.keyed; hashed = f.hashed };
    submitted = λ xs t f. record { keyed = f.keyed; hashed = f.hashed };
  }

  -- What a JOIN finds goes together.
  abbrev IsTrue : Joined → Type 0
  IsTrue j = j.anchor.hash ≡ digest_of j.artifact.storage_key

  with_user-IsTrue :
      (a : Anchor) (x : Artifact) (d : Deal) (o : Option User)
      → a.hash ≡ digest_of x.storage_key
      → OnSome IsTrue (with_user a x d o)
  with_user-IsTrue a x d none e = tt
  with_user-IsTrue a x d (some u) e = e

  with_deal-IsTrue :
      (t : Tables) (a : Anchor) (x : Artifact) (o : Option Deal)
      → a.hash ≡ digest_of x.storage_key
      → OnSome IsTrue (with_deal t a x o)
  with_deal-IsTrue t a x none e = tt
  with_deal-IsTrue t a x (some d) e = with_user-IsTrue a x d _ e

  with_artifact-IsTrue :
      (t : Tables) (a : Anchor) (o : Option Artifact)
      → a.hash ≡ digest_of (key_of a.artifact_id)
      → OnSome
          (λ (x : Artifact). (x.storage_key ≡ key_of x.id) × (text_eq x.id a.artifact_id ≡ true))
          o
      → OnSome IsTrue (with_artifact t a o)
  with_artifact-IsTrue t a none h x = tt
  with_artifact-IsTrue t a (some x) h (key, same) =
      let here : x.id ≡ a.artifact_id = ground arith in
      with_deal-IsTrue t a x _ (h ∙ ap digest_of (ap key_of (sym here) ∙ sym key))

  All-joined :
      (t : Tables) (xs : List Anchor)
      → All (λ (x : Artifact). x.storage_key ≡ key_of x.id) t.artifacts
      → All (λ a. a.hash ≡ digest_of (key_of a.artifact_id)) xs
      → All IsTrue (joined t xs)
  All-joined t [] keyed h = tt
  All-joined t (a ∷ xs) keyed (e, h) =
      All-keep t IsTrue (join t a) (joined t xs)
        (with_artifact-IsTrue t a _ e
          (found _ (λ (x : Artifact). text_eq x.id a.artifact_id) t.artifacts keyed))
        (All-joined t xs keyed h)

  -- A record is that of the rows of one anchor, the one of this id on the CV of this slug.
  abbrev IsRecord : Text → Text → Tables → EntryRecord → Type 0
  IsRecord id slug t rec =
      (j : Joined) × (IsRow t j × (j.anchor.id ≡ id) × (j.user.slug ≡ slug) × IsTrue j)
      × (rec.hash ≡ j.anchor.hash)
      × (rec.storage_key ≡ j.artifact.storage_key)

  abbrev is_asked : Text → Text → Joined → Bool
  is_asked id slug j = text_eq j.anchor.id id && text_eq j.user.slug slug

  record_of-IsRecord :
      (id slug : Text) (t : Tables) (o : Option Joined)
      → OnSome (λ j. (IsRow t j × IsTrue j) × (is_asked id slug j ≡ true)) o
      → Post (λ rec t. IsRecord id slug t rec) (λ _ _. Unit {0}) (record_of o, t)
  record_of-IsRecord id slug t none h = tt
  record_of-IsRecord id slug t (some j) ((row, same), asked) =
      (j, (row, ground arith, ground arith, same), refl, refl)

  -- There is an anchor of this id in the tables, whose artifact's deal has a freelancer of this slug, and the
  -- result says whether the content read under the artifact's storage key has the digest of what was stored
  -- there.
  abbrev pub Compares : Env → Text → Text → Tables → VerifyResult → Type 0
  Compares env slug id t r =
      (j : Joined) × (IsRow t j × (j.anchor.id ≡ id) × (j.user.slug ≡ slug))
      × ((n : ℕ) × (content : Text) × (env.blob n j.artifact.storage_key ≡ some content)
          × (r.valid
              ≡ text_eq (digest_of j.artifact.storage_key) (encode_hex (cfg.sha256 content))))

  compared-Compares :
      (env : Env) (slug id : Text) (t : Tables) (rec : EntryRecord) (r : VerifyResult) (n : ℕ)
      (content : Text)
      → IsRecord id slug t rec
      → (env.blob n rec.storage_key ≡ some content)
      → (r.valid ≡ text_eq rec.hash (encode_hex (cfg.sha256 content)))
      → Compares env slug id t r
  compared-Compares env slug id t rec r n content (j, (row, of_id, of_slug, same), hash, key) e v =
      (
        j,
        (row, of_id, of_slug),
        (
          n,
          content,
          ap (env.blob n) (sym key) ∙ e,
          v ∙ ap (λ x. text_eq x (encode_hex (cfg.sha256 content))) (hash ∙ same),
        ),
      )

  verify-Compares :
      (env : Env)
      → IsStable env.others IsFaithful
      → (slug id : Text)
      → Triple
          (λ w. IsFaithful w.tables)
          (Service.verify_entry cfg env slug id)
          (λ r w. Compares env (trim_space slug) (trim_space id) w.tables r)
          (λ _ _. Unit {0})
  unfolding Service.verify_entry Repository.get_entry_for_verify
  verify-Compares env stable slug id =
      Triple-raise_if _ _ _ (λ w f e. tt)
        λ given.
          Triple-bind (λ rec w. IsRecord (trim_space id) (trim_space slug) w.tables rec)
            (Triple-statement db_failed env.db_fails env.others IsFaithful stable
              (λ rec t. IsRecord (trim_space id) (trim_space slug) t rec) (λ _ _. Unit {0}) _
              (λ t f. tt)
              (λ t f. record_of-IsRecord (trim_space id) (trim_space slug) t _ (
                found (λ j. IsRow t j × IsTrue j) (is_asked (trim_space id) (trim_space slug))
                  (joined t t.anchors)
                  (All-both (IsRow t) IsTrue (joined t t.anchors) (joined-IsRow t)
                    (All-joined t t.anchors f.keyed f.hashed)))))
            λ rec.
              Triple-bind (λ n w. IsRecord (trim_space id) (trim_space slug) w.tables rec)
                (Triple-step (λ t. IsRecord (trim_space id) (trim_space slug) t rec)
                  (λ _ _. Unit {0}))
                λ n.
                  Triple-or_raise (env.blob n rec.storage_key) _ _ (λ w h e. tt)
                    λ content e. Triple-pure _ λ w h.
                      compared-Compares env (trim_space slug) (trim_space id) w.tables rec
                        (Service.with_ots cfg rec
                          (Service.compared (trim_space slug) rec (encode_hex (cfg.sha256 content)))
                          rec.ots_proof rec.ots_confirmed_at)
                        n content h e
                        (with_ots-valid cfg rec
                          (Service.compared (trim_space slug) rec (encode_hex (cfg.sha256 content)))
                          rec.ots_proof rec.ots_confirmed_at)

  abbrev AllFaithful : List (Env × Request) → Type 0
  AllFaithful [] = Unit
  AllFaithful ((env, r) ∷ rest) = IsStable env.others IsFaithful × ReadsStore env × AllFaithful rest

  serve_all-IsFaithful :
      (rs : List (Env × Request))
      → AllFaithful rs
      → (w : World) → IsFaithful w.tables
      → IsFaithful (serve_all cfg rs w).tables
  unfolding serve_all
  serve_all-IsFaithful [] h w f = f
  serve_all-IsFaithful ((env, r) ∷ rest) (stable, reads, later) w f =
      serve_all-IsFaithful rest later (serve cfg env r w)
        (serve-In cfg env _ IsFaithful (IsFaithful-IsKept env stable reads) r w f)

  -- While blobs are read as they were stored, whatever requests are served: a verification afterwards that
  -- returns found an anchor of the id asked for, of an artifact of a deal of the freelancer of the slug asked
  -- for, and says that the entry is valid exactly when the content it reads under the storage key of that
  -- artifact, which may have changed by then, has the digest of what was stored under that key. Other requests
  -- are taken to keep storage keys and anchors faithful.
  pub verify_entry_faithful :
      (rs : List (Env × Request))
      → AllFaithful rs
      → (w : World) → IsFaithful w.tables
      → (last : Env) → IsStable last.others IsFaithful
      → (slug id : Text) (r : VerifyResult)
      → (Service.verify_entry cfg last slug id (serve_all cfg rs w)).0 ≡ ok r
      → Compares last
          (trim_space slug)
          (trim_space id)
          (Service.verify_entry cfg last slug id (serve_all cfg rs w)).1.tables
          r
  verify_entry_faithful rs h w f last stable slug id r e = result _ e (
      (verify-Compares last stable slug id).at (serve_all cfg rs w) (serve_all-IsFaithful rs h w f))
    where
      result :
          (o : Outcome Error VerifyResult × World)
          → o.0 ≡ ok r
          → Post
              (λ r w. Compares last (trim_space slug) (trim_space id) w.tables r)
              (λ _ _. Unit {0})
              o
          → Compares last (trim_space slug) (trim_space id) o.1.tables r
      result (ok r', v) e h =
          let same : r' ≡ r = ground arith in
          subst (Compares last (trim_space slug) (trim_space id) v.tables) same h
      result (err x, v) e h = absurd (ground arith)
