-- ===== src/Ots/Chained.antt =====
-- `Verify` of ots/verify.go, checked against the blocks that it fetches.
use ganji.Base.{
  ℕ, ◌≡◌, ◌≢◌, refl, ap, sym, ◌∙◌, subst, ◌⊎◌, inl, inr, true, false, Bool-cases, Option, none,
  some, List, [], ◌∷◌, Text, All, arith, length, ◌==◌, text_eq,
}
use ganji.Base.Int.{ℤ, pos, is_zero_ℤ}
use ganji.Ots.{
  Outcome, ok, err, Sequence, ProofFile, Verification, BlockHeader, Chain, Confirmed, to_int,
  is_better, fetch, confirm, check_header, check_sequence, check_sequences, attested_at,
  lowest_height, verify_file, and_then, confirmed_at, start, check_file, combine, verify_proof,
  verify_against_chain, with_chain, verify,
}
use ganji.Ots.Offline.{Some, file-digest, verify_proof-Commits}

-- The block at the sequence's height has the root that the sequence computes.
abbrev HasRoot : Chain → Text → Sequence → BlockHeader → Type 0
HasRoot chain hash s header =
    (fetch chain s.height ≡ some header) × ((s.compute hash).0 ≡ header.merkle_root)

-- The chain does not contradict the sequence.
abbrev Agrees : Chain → Text → Sequence → Type 0
Agrees chain hash s =
    (s.height ≡ 0)
    ⊎ (fetch chain s.height ≡ none)
    ⊎ ((header : BlockHeader) × HasRoot chain hash s header)

-- The sequence is anchored in the block of this height and time.
abbrev AnchoredAt : Chain → Text → ℤ → Option ℕ → Sequence → Type 0
AnchoredAt chain hash h ts s =
    (s.height ≢ 0)
    × (to_int s.height ≡ h)
    × ((header : BlockHeader) × HasRoot chain hash s header × (ts ≡ some header.timestamp))

abbrev Same : Confirmed → Confirmed → Type 0
Same c after = (after.min_height ≡ c.min_height) × (after.best_timestamp ≡ c.best_timestamp)

some-inj : {a b : Confirmed} → some a ≡ some b → a ≡ b
some-inj {a} e = ap (λ o. value a o) e
  where
    value : Confirmed → Option Confirmed → Confirmed
    value d none = d
    value d (some x) = x

confirm-cases :
    (height : ℕ) (header : BlockHeader) (c : Confirmed)
    → Same c (confirm height header c)
      ⊎ (((confirm height header c).min_height ≡ to_int height)
          × ((confirm height header c).best_timestamp ≡ some header.timestamp))
confirm-cases height header c = elim (Bool-cases (is_better c.min_height (to_int height))) [
  | inl better ↦ rw better (inr (refl, refl))
  | inr worse ↦ rw worse (inl (refl, refl))
]

abbrev StepOf : Chain → Text → Sequence → Confirmed → Confirmed → Type 0
StepOf chain hash s c after =
    Agrees chain hash s
    × (Same c after ⊎ AnchoredAt chain hash after.min_height after.best_timestamp s)

checked-header :
    (hash : Text) (s : Sequence) (c after : Confirmed) (header : BlockHeader)
    → check_header hash s (some header) c ≡ some after
    → ((s.compute hash).0 ≡ header.merkle_root) × (confirm s.height header c ≡ after)
checked-header hash s c after header run =
    elim (Bool-cases (text_eq (s.compute hash).0 header.merkle_root)) [
      | inl t ↦ (ground arith, some-inj (opened t))
      | inr f ↦ absurd (ground arith)
    ]
  where
    opened :
        text_eq (s.compute hash).0 header.merkle_root ≡ true
        → some (confirm s.height header c) ≡ some after
    opened t = ground arith

header-StepOf :
    (chain : Chain) (hash : Text) (s : Sequence) (c after : Confirmed) (o : Option BlockHeader)
    → s.height ≢ 0
    → fetch chain s.height ≡ o
    → check_header hash s o c ≡ some after
    → StepOf chain hash s c after
header-StepOf chain hash s c after none high e run =
    let same : after ≡ record c { fetch_failed = true } = sym (some-inj run) in
    (inr (inl e), inl (ap (λ x. x.min_height) same, ap (λ x. x.best_timestamp) same))
header-StepOf chain hash s c after (some header) high e run =
    let (root, done) = checked-header hash s c after header run in
    subst (λ x. StepOf chain hash s c x) done
      (
        inr (inr (header, (e, root))),
        elim (confirm-cases s.height header c) [
          | inl same ↦ inl same
          | inr found ↦ inr (high, sym found.0, (header, (e, root), found.1))
        ],
      )

check_sequence-StepOf :
    (chain : Chain) (hash : Text) (s : Sequence) (c after : Confirmed)
    → check_sequence chain hash s c ≡ some after
    → StepOf chain hash s c after
check_sequence-StepOf chain hash s c after run = elim (Bool-cases (s.height == 0)) [
  | inl t ↦ low t
  | inr f ↦
      header-StepOf chain hash s c after (fetch chain s.height) (ground arith) refl (ground arith)
]
  where
    low : (s.height == 0) ≡ true → StepOf chain hash s c after
    low t =
        let kept : after ≡ c = ground arith in
        (inl (ground arith), inl (ap (λ x. x.min_height) kept, ap (λ x. x.best_timestamp) kept))

abbrev Checked : Chain → Text → List Sequence → Confirmed → Confirmed → Type 0
Checked chain hash ss c after =
    All (Agrees chain hash) ss
    × (Same c after ⊎ Some (AnchoredAt chain hash after.min_height after.best_timestamp) ss)

join :
    (chain : Chain) (hash : Text) (s : Sequence) (rest : List Sequence) (c next after : Confirmed)
    → Same c next ⊎ AnchoredAt chain hash next.min_height next.best_timestamp s
    → Same next after ⊎ Some (AnchoredAt chain hash after.min_height after.best_timestamp) rest
    → Same c after ⊎ Some (AnchoredAt chain hash after.min_height after.best_timestamp) (s ∷ rest)
join chain hash s rest c next after here (inr seen) = inr (inr seen)
join chain hash s rest c next after (inl a) (inl b) = inl (b.0 ∙ a.0, b.1 ∙ a.1)
join chain hash s rest c next after (inr (high, h, (header, root, ts))) (inl b) =
    inr (inl (high, h ∙ sym b.0, (header, root, b.1 ∙ ts)))

check_sequences-Checked :
    (chain : Chain) (hash : Text) (ss : List Sequence) (c after : Confirmed)
    → check_sequences chain hash ss c ≡ some after
    → Checked chain hash ss c after
unfolding check_sequences
check_sequences-Checked chain hash [] c after run =
    let same : after ≡ c = sym (some-inj run) in
    (tt, inl (ap (λ x. x.min_height) same, ap (λ x. x.best_timestamp) same))
check_sequences-Checked chain hash (s ∷ rest) c after run =
    onward (check_sequence chain hash s c) refl run
      (λ next. check_sequences-Checked chain hash rest next after)
  where
    onward :
        (o : Option Confirmed)
        → check_sequence chain hash s c ≡ o
        → and_then o (check_sequences chain hash rest) ≡ some after
        → ((next : Confirmed)
            → check_sequences chain hash rest next ≡ some after
            → Checked chain hash rest next after)
        → Checked chain hash (s ∷ rest) c after
    onward none e run later = absurd (ground arith)
    onward (some next) e run later =
        let (agrees, here) = check_sequence-StepOf chain hash s c next e in
        let (all, there) = later next run in
        ((agrees, all), join chain hash s rest c next after here there)

-- The chain bears out a verification of this file.
abbrev pub IsAnchored : Chain → Text → ProofFile → Verification → Type 0
IsAnchored chain hash file v =
    All (Agrees chain hash) file.attested
    × Some (AnchoredAt chain hash v.block_height v.timestamp) file.attested

confirmed-cases :
    (o : Option Confirmed) (h : ℤ) (ts : Option ℕ)
    → confirmed_at o ≡ ok (h, ts)
    → (c : Confirmed) × (o ≡ some c)
      × (is_zero_ℤ c.min_height ≡ false)
      × (h ≡ c.min_height)
      × (ts ≡ c.best_timestamp)
confirmed-cases none h ts e = absurd (ground arith)
confirmed-cases (some c) h ts e = (c, refl, ground arith, ground arith, ground arith)

combine-cases :
    (res v : Verification) (o : Outcome (ℤ × Option ℕ))
    → res.chain_checked ≡ false
    → combine res o ≡ ok v
    → v.chain_checked ≡ true
    → o ≡ ok (v.block_height, v.timestamp)
combine-cases res v (err x) fresh e checked = absurd (ground arith)
combine-cases res v (ok (h, ts)) fresh e checked = ground arith

attested-fresh :
    (o : Outcome ℤ) (res : Verification) → attested_at o ≡ ok res → res.chain_checked ≡ false
attested-fresh (err x) res e = absurd (ground arith)
attested-fresh (ok h) res e = ground arith

file-fresh :
    (hash : Text) (o : Option ProofFile) (res : Verification)
    → verify_file hash o ≡ ok res
    → res.chain_checked ≡ false
file-fresh hash none res e = absurd (ground arith)
file-fresh hash (some file) res e =
    attested-fresh (lowest_height hash file.attested (pos 0)) res (file-digest hash res file e).1

verify_proof-fresh :
    (parse : Text → Option ProofFile) (proof hash : Text) (res : Verification)
    → verify_proof parse proof hash ≡ ok res
    → res.chain_checked ≡ false
unfolding verify_proof
verify_proof-fresh parse proof hash res e =
    let rest : verify_file hash (parse proof) ≡ ok res = ground arith in
    file-fresh hash (parse proof) res rest

check_file-IsAnchored :
    (chain : Chain) (hash : Text) (file : ProofFile) (v : Verification)
    → check_file chain hash (some file) ≡ ok (v.block_height, v.timestamp)
    → IsAnchored chain hash file v
check_file-IsAnchored chain hash file v e =
    let (c, run, high, h, ts) =
      confirmed-cases (check_sequences chain hash file.attested start) v.block_height v.timestamp
        e in
    let (agrees, seen) = check_sequences-Checked chain hash file.attested start c run in
    (agrees, rw (h, ts) (elim seen [ inl same ↦ absurd (ground arith) | inr at ↦ at ]))

-- Where a chain source is configured and a verification counts as checked against it, the proof is of the
-- given digest of 32 bytes; no block that the source returned for an attested height has another root than
-- the proof computes; and the height and time reported are those of such a block whose root the proof
-- computes.
pub verify-IsAnchored :
    (parse : Text → Option ProofFile) (chain : Chain) (proof hash : Text) (v : Verification)
    → verify parse (some chain) proof hash ≡ ok v
    → v.chain_checked ≡ true
    → (length hash ≡ 32)
      × ((file : ProofFile) × (parse proof ≡ some file)
          × (file.digest ≡ hash)
          × IsAnchored chain hash file v)
unfolding verify verify_against_chain
verify-IsAnchored parse chain proof hash v e checked = go (verify_proof parse proof hash) refl e
  where
    go :
        (o : Outcome Verification)
        → verify_proof parse proof hash ≡ o
        → with_chain parse (some chain) proof hash o ≡ ok v
        → (length hash ≡ 32)
          × ((file : ProofFile) × (parse proof ≡ some file)
              × (file.digest ≡ hash)
              × IsAnchored chain hash file v)
    go (err x) first e = absurd (ground arith)
    go (ok res) first e =
        let (size, (file, parsed, (same, below, seen))) =
          verify_proof-Commits parse proof hash res first in
        let found =
          combine-cases res v _ (verify_proof-fresh parse proof hash res first) e checked in
        (
          size,
          (
            file,
            parsed,
            same,
            check_file-IsAnchored chain hash file v
                (ap (check_file chain hash) (sym parsed) ∙ found),
          ),
        )
