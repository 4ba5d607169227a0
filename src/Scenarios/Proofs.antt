-- ===== src/Scenarios/Proofs.antt =====
-- A proof of package ots with one pending sequence and two that are attested.
use ganji.Base.{
  ℕ, ◌≡◌, refl, Bool, true, false, Option, none, some, List, [], ◌∷◌, Text, codes, length,
  if◌then◌else◌,
}
use ganji.Base.Int.{ℤ, pos, leb_ℤ}
use ganji.Ots.{ok, Sequence, ProofFile, BlockHeader, Chain, Verification, verify_proof, verify}
use ganji.Ots.Offline.{Commits, verify_proof-Commits}
use ganji.Ots.Chained.{IsAnchored, verify-IsAnchored}

abbrev digest_32 : Text
digest_32 = codes "0123456789abcdef0123456789abcdef"

abbrev root_32 : Text
root_32 = codes "fedcba9876543210fedcba9876543210"

abbrev proof_file : ProofFile
proof_file = record {
  digest = digest_32;
  attested =
      (record { height = 0; compute = λ d. (d, false) })
      ∷ (record { height = 840000; compute = λ d. (root_32, true) })
      ∷ (record { height = 839990; compute = λ d. (root_32, true) })
      ∷ [];
}

abbrev parse_file : Text → Option ProofFile
parse_file proof = some proof_file

-- The lower of the two blocks cannot be fetched.
abbrev block_hash : ℤ → Option Text
block_hash h = if leb_ℤ (pos 840000) h then some (codes "h") else none

abbrev esplora : Chain
esplora = record {
  get_block_hash = block_hash;
  get_block_header = λ h. some (record { merkle_root = root_32; timestamp = 1713571767 });
}

abbrev offline : Verification
offline = record {
  block_height = pos 839990;
  timestamp = none;
  chain_checked = false;
  chain_error = false;
}

abbrev on_chain : Verification
on_chain = record {
  block_height = pos 840000;
  timestamp = some 1713571767;
  chain_checked = true;
  chain_error = false;
}

verify_proof-Commits_example :
    (length digest_32 ≡ 32)
    × ((file : ProofFile) × (parse_file (codes "p") ≡ some file) × Commits digest_32 offline file)
unfolding verify_proof ganji.Base.Text-discrete ganji.Ots.lowest_height
verify_proof-Commits_example = verify_proof-Commits parse_file (codes "p") digest_32 offline refl

verify-IsAnchored_example :
    (length digest_32 ≡ 32)
    × ((file : ProofFile) × (parse_file (codes "p") ≡ some file)
        × (file.digest ≡ digest_32)
        × IsAnchored esplora digest_32 file on_chain)
unfolding verify verify_proof ganji.Base.Text-discrete ganji.Ots.lowest_height
    ganji.Ots.verify_against_chain ganji.Ots.check_sequences
verify-IsAnchored_example =
    verify-IsAnchored parse_file esplora (codes "p") digest_32 on_chain refl refl
