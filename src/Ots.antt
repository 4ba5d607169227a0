-- ===== src/Ots.antt =====
-- Package ots (backend/internal/ots/verify.go): proofs that an artifact's hash is in Bitcoin.
--
-- The library opentimestamps parses a proof and replays its operations: `ProofFile` and `Sequence` are
-- what it gives, and the parser is a parameter. So is the chain source, which gives one answer for a
-- height during a verification.
pub mod Offline
pub mod Chained
use ganji.Base.{
  ℕ, suc, ◌+◌, ◌-◌, ◌^◌, Bool, true, false, not, ◌&&◌, ◌||◌, Option, none, some, List, [], ◌∷◌,
  Text, text_eq, ltb, ◌==◌, length, is_some, if◌then◌else◌,
}
use ganji.Base.Int.{ℤ, pos, negsuc, ltb_ℤ, is_zero_ℤ}

pub data OtsError : Type 0 where
  wrong_digest_size invalid_proof digest_mismatch not_bitcoin_attested wrong_root
        chain_unavailable :
      OtsError

pub data Outcome (A : Type 0) : Type 0 where
  ok : A → Outcome A
  err : OtsError → Outcome A

-- A sequence that ends in a Bitcoin attestation: its height, and what `Compute` makes of a digest, the root
-- and whether it embeds a transaction.
pub record Sequence : Type 0 where
  pub height : ℕ
  pub compute : Text → Text × Bool

pub record ProofFile : Type 0 where
  pub digest : Text
  pub attested : List Sequence

pub record Verification : Type 0 where
  pub block_height : ℤ
  pub timestamp : Option ℕ
  pub chain_checked : Bool
  pub chain_error : Bool

pub record BlockHeader : Type 0 where
  pub merkle_root : Text
  pub timestamp : ℕ

pub record Chain : Type 0 where
  pub get_block_hash : ℤ → Option Text
  pub get_block_header : Text → Option BlockHeader

-- `int` and `int64` of a uint64.
abbrev pub to_int : ℕ → ℤ
to_int n = if ltb n (2 ^ 63) then pos n else negsuc (2 ^ 64 - 1 - n)

-- `minHeight == 0 || h < minHeight`
abbrev pub is_better : ℤ → ℤ → Bool
is_better min h = is_zero_ℤ min || ltb_ℤ h min

abbrev pub lower : ℤ → ℤ → ℤ
lower min h = if is_better min h then h else min

abbrev pub embeds_tx : Text → Sequence → Bool
embeds_tx hash s = let (root, has_tx) = s.compute hash in has_tx && length root == 32

abbrev pub next_height : ℤ → Sequence → ℤ
next_height min s = if s.height == 0 then min else lower min (to_int s.height)

-- The loop of `VerifyProof`.
unfoldable pub lowest_height : Text → List Sequence → ℤ → Outcome ℤ
lowest_height hash [] min = ok min
lowest_height hash (s ∷ rest) min =
    if s.height == 0 || embeds_tx hash s
    then lowest_height hash rest (next_height min s)
    else err invalid_proof

abbrev pub attested_at : Outcome ℤ → Outcome Verification
attested_at (err e) = err e
attested_at (ok h) =
    if is_zero_ℤ h
    then err not_bitcoin_attested
    else ok
        (record { block_height = h; timestamp = none; chain_checked = false; chain_error = false })

abbrev pub verify_file : Text → Option ProofFile → Outcome Verification
verify_file hash none = err invalid_proof
verify_file hash (some file) =
    if not (text_eq file.digest hash)
    then err digest_mismatch
    else if length file.attested == 0
    then err not_bitcoin_attested
    else attested_at (lowest_height hash file.attested (pos 0))

-- What the loop over the chain keeps: `fetchErr != nil`, `minHeight` and `bestTS`.
pub record Confirmed : Type 0 where
  pub fetch_failed : Bool
  pub min_height : ℤ
  pub best_timestamp : Option ℕ

abbrev pub fetch : Chain → ℕ → Option BlockHeader
fetch chain height = from (chain.get_block_hash (to_int height))
  where
    from : Option Text → Option BlockHeader
    from none = none
    from (some block_hash) = chain.get_block_header block_hash

abbrev pub confirm : ℕ → BlockHeader → Confirmed → Confirmed
confirm height header c =
    if is_better c.min_height (to_int height)
    then record c { min_height = to_int height; best_timestamp = some header.timestamp }
    else c

-- One sequence in the loop of `verifyAgainstChain`; `none` is the mismatch of the roots.
abbrev pub check_header : Text → Sequence → Option BlockHeader → Confirmed → Option Confirmed
check_header hash s none c = some (record c { fetch_failed = true })
check_header hash s (some header) c =
    if text_eq (s.compute hash).0 header.merkle_root then some (confirm s.height header c) else none

abbrev pub check_sequence : Chain → Text → Sequence → Confirmed → Option Confirmed
check_sequence chain hash s c =
    if s.height == 0 then some c else check_header hash s (fetch chain s.height) c

abbrev pub and_then : Option Confirmed → (Confirmed → Option Confirmed) → Option Confirmed
and_then none f = none
and_then (some c) f = f c

-- The loop of `verifyAgainstChain`.
unfoldable pub check_sequences : Chain → Text → List Sequence → Confirmed → Option Confirmed
check_sequences chain hash [] c = some c
check_sequences chain hash (s ∷ rest) c =
    and_then (check_sequence chain hash s c) (λ after. check_sequences chain hash rest after)

abbrev pub confirmed_at : Option Confirmed → Outcome (ℤ × Option ℕ)
confirmed_at none = err wrong_root
confirmed_at (some c) =
    if is_zero_ℤ c.min_height
    then (if c.fetch_failed then err chain_unavailable else err not_bitcoin_attested)
    else ok (c.min_height, c.best_timestamp)

abbrev pub start : Confirmed
start = record { fetch_failed = false; min_height = pos 0; best_timestamp = none }

abbrev pub check_file : Chain → Text → Option ProofFile → Outcome (ℤ × Option ℕ)
check_file chain hash none = err invalid_proof
check_file chain hash (some file) = confirmed_at (check_sequences chain hash file.attested start)

abbrev pub combine : Verification → Outcome (ℤ × Option ℕ) → Outcome Verification
combine res (err chain_unavailable) = ok (record res { chain_error = true })
combine res (err e) = err e
combine res (ok (height, ts)) =
    ok (record res { block_height = height; timestamp = ts; chain_checked = true })

module _ (parse : Text → Option ProofFile) where
  unfoldable pub verify_proof : Text → Text → Outcome Verification
  verify_proof proof hash =
      if not (length hash == 32) then err wrong_digest_size else verify_file hash (parse proof)

  unfoldable pub verify_against_chain : Chain → Text → Text → Outcome (ℤ × Option ℕ)
  verify_against_chain chain proof hash = check_file chain hash (parse proof)

  abbrev pub with_chain : Option Chain → Text → Text → Outcome Verification → Outcome Verification
  with_chain chain proof hash (err e) = err e
  with_chain none proof hash (ok res) = ok res
  with_chain (some chain) proof hash (ok res) = combine res (verify_against_chain chain proof hash)

  unfoldable pub verify : Option Chain → Text → Text → Outcome Verification
  verify chain proof hash = with_chain chain proof hash (verify_proof proof hash)
