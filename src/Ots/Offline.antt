-- ===== src/Ots/Offline.antt =====
-- `VerifyProof` of ots/verify.go without a chain.
use ganji.Base.{
  ◌≡◌, ◌≢◌, refl, ap, sym, ◌∙◌, ◌⊎◌, inl, inr, true, false, ◌||◌, Bool-cases, Option, none, some,
  List, [], ◌∷◌, Text, All, arith, length, ◌==◌,
}
use ganji.Base.Int.{ℤ, pos, leb_ℤ, is_zero_ℤ}
use ganji.Ots.{
  Outcome, ok, err, Sequence, ProofFile, Verification, to_int, embeds_tx, next_height,
  lowest_height, attested_at, verify_file, verify_proof,
}

-- Some sequence of the list satisfies `P`.
abbrev pub Some : (Sequence → Type 0) → List Sequence → Type 0
Some P [] = ⊥
Some P (s ∷ rest) = P s ⊎ Some P rest

-- The sequence is attested at a height, embeds a transaction and computes a root of 32 bytes.
abbrev AttestsAt : Text → ℤ → Sequence → Type 0
AttestsAt hash h s = (s.height ≢ 0) × (to_int s.height ≡ h) × (embeds_tx hash s ≡ true)

-- No attested height is below `h`.
abbrev NotBelow : ℤ → Sequence → Type 0
NotBelow h s = s.height ≡ 0 ⊎ (leb_ℤ h (to_int s.height) ≡ true)

-- `h` is at most the height found so far, where there is one.
abbrev NotAbove : ℤ → ℤ → Type 0
NotAbove h min = (is_zero_ℤ min ≡ true) ⊎ (leb_ℤ h min ≡ true)

abbrev Lowest : Text → List Sequence → ℤ → ℤ → Type 0
Lowest hash ss min h =
    All (NotBelow h) ss × NotAbove h min × ((h ≡ min) ⊎ Some (AttestsAt hash h) ss)

ok-inj : {A : Type 0} {a b : A} → (ok a) ≡ (ok b) → a ≡ b
ok-inj {A} {a} e = ap (λ o. value a o) e
  where
    value : A → Outcome A → A
    value d (ok x) = x
    value d (err x) = d

next-NotBelow :
    (h min : ℤ) (s : Sequence) → NotAbove h (next_height min s) → NotBelow h s × NotAbove h min
next-NotBelow h min s a = ground arith

next-cases :
    (hash : Text) (h min : ℤ) (s : Sequence)
    → (s.height == 0 || embeds_tx hash s) ≡ true
    → h ≡ next_height min s
    → (h ≡ min) ⊎ AttestsAt hash h s
next-cases hash h min s ok_step e = ground arith

NotAbove-self : (h min : ℤ) → min ≡ h → NotAbove h min
NotAbove-self h min e = ground arith

step-err :
    (hash : Text) (s : Sequence) (rest : List Sequence) (min h : ℤ)
    → (s.height == 0 || embeds_tx hash s) ≡ false
    → lowest_height hash (s ∷ rest) min ≢ ok h
unfolding lowest_height
step-err hash s rest min h bad = ground arith

step-ok :
    (hash : Text) (s : Sequence) (rest : List Sequence) (min : ℤ)
    → (s.height == 0 || embeds_tx hash s) ≡ true
    → lowest_height hash (s ∷ rest) min ≡ lowest_height hash rest (next_height min s)
unfolding lowest_height
step-ok hash s rest min good = rw good refl

extend :
    (hash : Text) (s : Sequence) (rest : List Sequence) (min h : ℤ)
    → (s.height == 0 || embeds_tx hash s) ≡ true
    → Lowest hash rest (next_height min s) h
    → Lowest hash (s ∷ rest) min h
extend hash s rest min h good (below, above, inr seen) =
    let (b, a) = next-NotBelow h min s above in ((b, below), a, inr (inr seen))
extend hash s rest min h good (below, above, inl same) =
    let (b, a) = next-NotBelow h min s above in
    elim (next-cases hash h min s good same) [
      | inl e ↦ ((b, below), a, inl e)
      | inr at ↦ ((b, below), a, inr (inl at))
    ]

lowest_height-Lowest :
    (hash : Text) (ss : List Sequence) (min h : ℤ)
    → lowest_height hash ss min ≡ ok h
    → Lowest hash ss min h
unfolding lowest_height
lowest_height-Lowest hash [] min h e = (tt, NotAbove-self h min (ok-inj e), inl (sym (ok-inj e)))
lowest_height-Lowest hash (s ∷ rest) min h e =
    elim (Bool-cases (s.height == 0 || embeds_tx hash s)) [
      | inl good ↦ extend hash s rest min h good (
          lowest_height-Lowest hash rest (next_height min s) h
            (sym (step-ok hash s rest min good) ∙ e))
      | inr bad ↦ absurd (step-err hash s rest min h bad e)
    ]

-- What is known of a proof that verifies offline.
abbrev pub Commits : Text → Verification → ProofFile → Type 0
Commits hash v file =
    (file.digest ≡ hash)
    × All (NotBelow v.block_height) file.attested
    × Some (AttestsAt hash v.block_height) file.attested

attested-height :
    (o : Outcome ℤ) (v : Verification)
    → attested_at o ≡ ok v
    → (o ≡ ok v.block_height) × (is_zero_ℤ v.block_height ≡ false)
attested-height (err x) v e = ground arith
attested-height (ok h) v e = ground arith

pub file-digest :
    (hash : Text) (v : Verification) (file : ProofFile)
    → verify_file hash (some file) ≡ ok v
    → (file.digest ≡ hash) × (attested_at (lowest_height hash file.attested (pos 0)) ≡ ok v)
file-digest hash v file e = ground arith

file-Commits :
    (hash : Text) (v : Verification) (file : ProofFile)
    → verify_file hash (some file) ≡ ok v
    → Commits hash v file
file-Commits hash v file e =
    let (same, found) = file-digest hash v file e in
    let (run, some_height) = attested-height (lowest_height hash file.attested (pos 0)) v found in
    let (below, above, seen) = lowest_height-Lowest hash file.attested (pos 0) v.block_height run in
    (same, below, elim seen [ inl zero_height ↦ absurd (ground arith) | inr at ↦ at ])

verified-file :
    (hash : Text) (v : Verification) (o : Option ProofFile)
    → verify_file hash o ≡ ok v
    → (file : ProofFile) × (o ≡ some file) × Commits hash v file
verified-file hash v none e = absurd (ground arith)
verified-file hash v (some file) e = (file, refl, file-Commits hash v file e)

-- A proof that verifies offline is of a digest of 32 bytes, its file is of this digest, and the height
-- reported is the lowest that is attested in it: one of its sequences is attested at that height, embeds a
-- transaction and computes a root of 32 bytes.
pub verify_proof-Commits :
    (parse : Text → Option ProofFile) (proof hash : Text) (v : Verification)
    → verify_proof parse proof hash ≡ ok v
    → (length hash ≡ 32) × ((file : ProofFile) × (parse proof ≡ some file) × Commits hash v file)
unfolding verify_proof
verify_proof-Commits parse proof hash v e =
    let size : length hash ≡ 32 = ground arith in
    let rest : verify_file hash (parse proof) ≡ ok v = ground arith in
    (size, verified-file hash v (parse proof) rest)
