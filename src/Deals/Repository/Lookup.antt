-- ===== src/Deals/Repository/Lookup.antt =====
-- UPDATEs of deals and the row that a later SELECT finds.
use ganji.Base.{
  ◌<◌, ◌≡◌, refl, ◌≢◌, Bool, true, some, List, [], ◌∷◌, Text, find, arith, if◌then◌else◌,
}
use ganji.Deals.Types.{Deal}
use ganji.Deals.Repository.{has_id, update_where, count_where}

pub find-update_where_self :
    (id : Text) (f : Deal → Deal) (ds : List Deal) {d : Deal}
    → ((x : Deal) → (f x).id ≡ x.id)
    → find (has_id id) ds ≡ some d
    → find (has_id id) (update_where (has_id id) f ds) ≡ some (f d)
find-update_where_self id f [] {d} keep h = cc
find-update_where_self id f (x ∷ xs) {d} keep h =
    ground (arith, keep x, find-update_where_self id f xs {d = d} keep)

pub count_where-pos :
    (p : Deal → Bool) (ds : List Deal) {d : Deal} → find p ds ≡ some d → 0 < count_where p ds
count_where-pos p [] {d} h = cc
count_where-pos p (x ∷ xs) {d} h = ground (arith, count_where-pos p xs {d = d})

-- An UPDATE of one id leaves the rows of the others.
find-update_where_ne :
    (id j : Text) (f : Deal → Deal) (ds : List Deal)
    → ((x : Deal) → (f x).id ≡ x.id)
    → id ≢ j
    → find (has_id j) (update_where (has_id id) f ds) ≡ find (has_id j) ds
find-update_where_ne id j f [] keep ne = refl
find-update_where_ne id j f (x ∷ xs) keep ne =
    ground (arith, keep x, find-update_where_ne id j f xs keep ne)

pub find_sound : (p : Deal → Bool) (ds : List Deal) {d : Deal} → find p ds ≡ some d → p d ≡ true
find_sound p [] {d} h = cc
find_sound p (x ∷ xs) {d} h = ground (arith, find_sound p xs {d = d})

-- Any UPDATE that keeps ids: the row is changed where it passes the test.
pub find-update_where :
    (id : Text) (p : Deal → Bool) (f : Deal → Deal) (ds : List Deal) {d : Deal}
    → ((x : Deal) → (f x).id ≡ x.id)
    → find (has_id id) ds ≡ some d
    → find (has_id id) (update_where p f ds) ≡ some (if p d then f d else d)
find-update_where id p f [] {d} keep h = cc
find-update_where id p f (x ∷ xs) {d} keep h =
    ground (arith, keep x, find-update_where id p f xs {d = d} keep)
