-- ===== src/Cv/Profiles.antt =====
-- What `GetProfile` of cv/service.go returns, and the rows that it comes from.
use ganji.Base.{
  ℕ, ◌≡◌, ◌∙◌, ◌&&◌, text_eq, refl, subst, true, false, Option, List, map, filter, All, Text,
  trim_space, arith,
}
use ganji.Base.Action.{Outcome, ok, err, Post, Triple, Triple-bind, Triple-pure, Triple-raise_if}
use ganji.Base.Database.{Triple-statement}
use ganji.Deals.Status.{released, status_eq}
use ganji.Deals.Repository.{order_by}
use ganji.Deals.Repository.Order.{All-order_by, All-filter, All-imp}
use ganji.Deals.Repository.Sorted.{
  IsOrdered, IsOrder, occurrences, occurrences-filter, order_by-IsOrdered, order_by-occurrences,
}
use ganji.Cv.{Entry, Profile, Error, db_failed, Tables, World, Env, Config, M}
use ganji.Cv.Repository
use ganji.Cv.Repository.{
  Joined, joined, later, newest_verified_first, entry_of, is_listed, entries_of,
}
use ganji.Base.Distinct
use ganji.Cv.Rows.{IsRow, joined-IsRow, All-both}
use ganji.Cv.Service
use ganji.Cv.Service.{trust_score_cap, trust_score_of, score_or}

later_trans : (a b c : Option ℕ) → later b a ≡ false → later c b ≡ false → later c a ≡ false
later_trans a b c h k = ground arith

newest-IsOrder : IsOrder newest_verified_first
newest-IsOrder = ((λ a b h. ground arith), (λ a b c h k. ground arith))

-- A row of the CV of this slug.
abbrev IsShown : Text → Joined → Type 0
IsShown slug j = (j.deal.status ≡ released) × (j.user.slug ≡ slug)

listed-IsShown : (slug : Text) (j : Joined) → is_listed slug j ≡ true → IsShown slug j
listed-IsShown slug j e = ground arith

-- The entries are those of rows of the tables that belong to the CV, as many as the JOINs find of them, the
-- newest verified first.
abbrev pub Shows : Text → Tables → List Entry → Type 0
Shows slug t entries =
    (js : List Joined) × (entries ≡ map entry_of js)
    × All (λ j. IsRow t j × IsShown slug j) js
    × (occurrences (λ j. true) js
        ≡ occurrences (λ j. text_eq j.user.slug slug && status_eq j.deal.status released)
            (joined t t.anchors))
    × IsOrdered newest_verified_first js

entries_of-Shows : (slug : Text) (t : Tables) → Shows slug t (map entry_of (entries_of slug t))
unfolding entries_of
entries_of-Shows slug t =
    let listed : List Joined = filter (is_listed slug) (joined t t.anchors) in
    (
      order_by newest_verified_first listed,
      refl,
      All-order_by (λ j. IsRow t j × IsShown slug j) newest_verified_first listed
          (All-both (IsRow t) (IsShown slug) listed
            (Distinct.All-filter (IsRow t) (is_listed slug) (joined t t.anchors) (joined-IsRow t))
            (All-imp _ (IsShown slug) (listed-IsShown slug) listed
              (All-filter (is_listed slug) (joined t t.anchors)))),
      order_by-occurrences newest_verified_first (λ j. true) listed
          ∙ occurrences-filter (λ j. true) (is_listed slug) (joined t t.anchors),
      order_by-IsOrdered newest_verified_first newest-IsOrder listed,
    )

abbrev Any : World → Type 0
Any w = Unit

free : {A : Type 0} (m : M A) → Triple Any m (λ _. Any) (λ _. Any)
free {A} m = record { at = λ w x. go (m w) }
  where
    go : (o : Outcome Error A × World) → Post (λ _. Any) (λ _. Any) o
    go (ok a, w) = tt
    go (err e, w) = tt

list_entries-Shows :
    (env : Env) (slug : Text)
    → Triple Any
        (Repository.list_entries env slug)
        (λ entries w. Shows slug w.tables entries)
        (λ _. Any)
unfolding Repository.list_entries
list_entries-Shows env slug =
    Triple-statement db_failed env.db_fails env.others (λ _. Unit {0}) (λ n t x. tt)
      (λ entries t. Shows slug t entries) (λ _ _. Unit {0}) _ (λ t x. tt)
      (λ t x. entries_of-Shows slug t)

-- Every entry of a CV that is answered is that of an anchor in the tables at the end, of its artifact, of the
-- released deal of that artifact and of that deal's freelancer, whose slug is the one asked for, and there are
-- as many entries as the JOINs find of such rows. They come newest verified first and, among those, newest
-- anchored first, whatever happens to the healing and the score.
pub get_profile-Shows :
    (cfg : Config) (env : Env) (slug : Text) (w : World) (p : Profile)
    → (Service.get_profile cfg env slug w).0 ≡ ok p
    → Shows (trim_space slug) (Service.get_profile cfg env slug w).1.tables p.entries
unfolding Service.get_profile
get_profile-Shows cfg env slug w p e = result _ e (shown.at w tt)
  where
    shown :
        Triple Any
          (Service.get_profile cfg env slug)
          (λ (p : Profile) v. Shows (trim_space slug) v.tables p.entries)
          (λ _. Any)
    shown =
        Triple-raise_if _ _ _ (λ w x e. tt)
          λ given.
            Triple-bind (λ _. Any) (free _)
              λ row.
                Triple-bind (λ _. Any) (free _)
                  λ healed.
                    Triple-bind (λ _. Any) (free _)
                      λ refreshed.
                        Triple-bind (λ entries v. Shows (trim_space slug) v.tables entries)
                          (list_entries-Shows env (trim_space slug))
                          λ entries. Triple-pure _ (λ w h. h)

    result :
        (o : Outcome Error Profile × World)
        → o.0 ≡ ok p
        → Post (λ (p : Profile) v. Shows (trim_space slug) v.tables p.entries) (λ _. Any) o
        → Shows (trim_space slug) o.1.tables p.entries
    result (ok q, v) e h =
        let same : q ≡ p = ground arith in
        subst (λ (p : Profile). Shows (trim_space slug) v.tables p.entries) same h
    result (err x, v) e h = absurd (ground arith)
