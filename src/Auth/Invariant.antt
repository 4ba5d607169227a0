-- ===== src/Auth/Invariant.antt =====
-- An invariant of the tables of accounts, and the statements of auth/repository.go.
use ganji.Base.{
  ◌≡◌, ◌∙◌, inl, inr, Bool, true, not, ◌||◌, Bool-cases, List, any, filter, All, Text, arith,
}
use ganji.Base.Distinct.{
  Distinct, Distinct-filter, All-filter, All-imp, any-map, Distinct-map, All-map,
}
use ganji.Auth.{User, StoredRefreshToken, Tables}
use ganji.Auth.Emails.{matches_email}
use ganji.Auth.Repository
use ganji.Auth.Repository.{
  has_id, insert_user, insert_token, delete_token, delete_expired, promote, promote_all,
}
use ganji.Auth.Slugs.Shape.{IsSlug}

-- Emails, slugs and hashes are unique, every email passes the test of addresses, every slug has its
-- shape, and every token has an owner.
pub record IsWellFormed (t : Tables) : Type 0 where
  pub emails : Distinct (λ (u : User). u.email) t.users
  pub slugs : Distinct (λ (u : User). u.slug) t.users
  pub hashes : Distinct (λ (x : StoredRefreshToken). x.token_hash) t.refresh_tokens
  pub addressed : All (λ (u : User). matches_email u.email ≡ true) t.users
  pub shaped : All (λ u. IsSlug u.slug) t.users
  pub owned :
      All (λ (x : StoredRefreshToken). any (has_id x.user_id) t.users ≡ true) t.refresh_tokens

promote-email : (emails : List Text) (u : User) → (promote emails u).email ≡ u.email
promote-email emails u = ground arith

promote-slug : (emails : List Text) (u : User) → (promote emails u).slug ≡ u.slug
promote-slug emails u = ground arith

promote-id : (emails : List Text) (u : User) → (promote emails u).id ≡ u.id
promote-id emails u = ground arith

pub promote_all-IsWellFormed :
    (emails : List Text) (t : Tables) → IsWellFormed t → IsWellFormed (promote_all emails t).1
promote_all-IsWellFormed emails t h = record {
  emails = Distinct-map (promote emails) (λ u. u.email) (promote-email emails) t.users h.emails;
  slugs = Distinct-map (promote emails) (λ u. u.slug) (promote-slug emails) t.users h.slugs;
  hashes = h.hashes;
  addressed =
      All-map (promote emails) (λ u. u.email) (promote-email emails) (λ e. matches_email e ≡ true)
        t.users h.addressed;
  shaped = All-map (promote emails) (λ u. u.slug) (promote-slug emails) IsSlug t.users h.shaped;
  owned =
      All-imp _ _ t.refresh_tokens
        (λ x e. any-map (promote emails) (λ u. u.id) (promote-id emails) x.user_id t.users ∙ e)
        h.owned;
}

pub filter-IsWellFormed :
    (q : StoredRefreshToken → Bool) (t : Tables)
    → IsWellFormed t
    → IsWellFormed (record t { refresh_tokens = filter q t.refresh_tokens })
filter-IsWellFormed q t h = record {
  emails = h.emails;
  slugs = h.slugs;
  hashes = Distinct-filter _ q t.refresh_tokens h.hashes;
  addressed = h.addressed;
  shaped = h.shaped;
  owned = All-filter _ q t.refresh_tokens h.owned;
}

pub insert_user-IsWellFormed :
    (u : User) (t : Tables)
    → matches_email u.email ≡ true
    → IsSlug u.slug
    → IsWellFormed t
    → IsWellFormed (insert_user u t).1
insert_user-IsWellFormed u t address shape h =
    elim (Bool-cases
      (any (Repository.has_email u.email) t.users || any (Repository.has_slug u.slug) t.users)) [
        | inl e ↦ rw e h
        | inr e ↦ rw e (record {
          emails = (ground arith, h.emails);
          slugs = (ground arith, h.slugs);
          hashes = h.hashes;
          addressed = (address, h.addressed);
          shaped = (shape, h.shaped);
          owned = All-imp _ _ t.refresh_tokens (λ x o. ground arith) h.owned;
        })
      ]

pub insert_token-IsWellFormed :
    (x : StoredRefreshToken) (t : Tables) → IsWellFormed t → IsWellFormed (insert_token x t).1
insert_token-IsWellFormed x t h =
    elim (Bool-cases (
      any (Repository.has_hash x.token_hash) t.refresh_tokens
      || not (any (has_id x.user_id) t.users))) [
        | inl e ↦ rw e h
        | inr e ↦ rw e (record {
          emails = h.emails;
          slugs = h.slugs;
          hashes = (ground arith, h.hashes);
          addressed = h.addressed;
          shaped = h.shaped;
          owned = (ground arith, h.owned);
        })
      ]

pub delete_token-IsWellFormed :
    (k : Text) (t : Tables) → IsWellFormed t → IsWellFormed (delete_token k t).1
delete_token-IsWellFormed k t h = elim (Bool-cases (any (Repository.has_hash k) t.refresh_tokens)) [
  | inl e ↦ rw e (filter-IsWellFormed _ t h)
  | inr e ↦ rw e h
]
