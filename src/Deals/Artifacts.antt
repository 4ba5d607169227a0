-- ===== src/Deals/Artifacts.antt =====
-- Artifacts: upload, deletion, download and listing (service.go).
pub mod Names
pub mod Upload
use Prim.Native.Nat.{min}
use mathlib.Core.List.{tail}
use ganji.Base.{
  ℕ, suc, ◌+◌, Bool, true, false, not, ◌&&◌, ◌||◌, Option, none, some, List, [], ◌∷◌, ◌++◌, Text,
  codes, text_eq, equal_fold, is_empty, all, ltb, ◌==◌, to_lower, byte_length, file_ext,
  is_lower_alphanumeric, if◌then◌else◌,
}
use ganji.Base.Int.{ℤ, pos, negsuc, leb_ℤ}
use ganji.Deals.Status.{Status, work_submitted, reviewing, released, disputed, refunded}
use ganji.Deals.Types.{Deal, Artifact, ArtifactKind}
use ganji.Deals.World.{
  Error, Result, ok, err, invalid_input, forbidden, artifact_not_found, random_failed,
  storage_failed, blob_not_found, Call, Env, Config, M, pure, raise, lift, ◌>>=◌, ◌>>◌, raise_if,
  try, call, step,
}
use ganji.Deals.Repository
use ganji.Deals.Repository.{pool}
use ganji.Deals.Lifecycle.{is_party}

-- `MaxUploadBytes`
unfoldable pub max_upload_bytes : Config → ℤ
max_upload_bytes cfg = if leb_ℤ cfg.max_upload_bytes (pos 0) then pos 0 else cfg.max_upload_bytes

-- The statuses in which `UploadArtifact` refuses.
unfoldable is_upload_closed : Status → Bool
is_upload_closed work_submitted = true
is_upload_closed reviewing = true
is_upload_closed released = true
is_upload_closed disputed = true
is_upload_closed refunded = true
is_upload_closed _ = false

unfoldable is_valid_kind : ArtifactKind → Bool
is_valid_kind ArtifactKind.source_code = true
is_valid_kind ArtifactKind.source_file = true
is_valid_kind ArtifactKind.invalid = false

-- `s.maxUploadBytes+1` in int64, as the number of bytes that `io.LimitReader` lets through.
abbrev read_limit : ℤ → ℕ
read_limit (pos n) = if n == 9223372036854775807 then 0 else suc n
read_limit (negsuc n) = 0

-- `counted.n` after a save that read all it was given.
unfoldable pub bytes_counted : ℤ → ℕ → ℕ
bytes_counted limit size = min size (read_limit limit)

-- The first `if` and the loop of `sanitizeExt`; both discard.
abbrev pub has_safe_length : Text → Bool
has_safe_length ext = not (ltb (byte_length ext) 2 || ltb 10 (byte_length ext))

unfoldable pub sanitize_ext : (ℕ → ℕ) → Text → Text
unfolding file_ext
sanitize_ext lower_rune filename =
    let ext = to_lower lower_rune (file_ext filename) in
    if has_safe_length ext && all is_lower_alphanumeric (tail ext) then ext else []

module _ (env : Env) where
  -- `artifactStorageKey`
  unfoldable artifact_storage_key : Text → Text → M Text
  unfolding sanitize_ext
  artifact_storage_key deal_id filename = do
    t ← step
    elim (env.random_hex t) [
      | none ↦ raise random_failed
      | some bytes ↦ pure (
          codes "deals/"
          ++ (deal_id ++ (codes "/" ++ (bytes ++ sanitize_ext env.lower_rune filename))))
    ]

  -- `storage.Save`, `Delete` (its error is dropped), `Open` and `Size`
  abbrev save_blob : Text → M (Unit {0})
  save_blob key = do t ← call (Call.save_blob key); raise_if (env.save_fails t) storage_failed

  abbrev delete_blob : Text → M (Unit {0})
  delete_blob key = do call (Call.delete_blob key); pure tt

  abbrev blob_error : Error → Error
  blob_error blob_not_found = artifact_not_found
  blob_error _ = storage_failed

  abbrev blob : {A : Type 0} → Result A → M A
  blob (ok a) = pure a
  blob (err e) = raise (blob_error e)

module _ (env : Env) (cfg : Config) where
  -- From the storage key on: the blob, the size cap, the row.
  unfoldable pub store_artifact : Text → ArtifactKind → Text → ℕ → M Artifact
  unfolding bytes_counted
  store_artifact deal_id kind key size = do
    save_blob env key
    if not (leb_ℤ (pos (bytes_counted cfg.max_upload_bytes size)) cfg.max_upload_bytes)
        then (do delete_blob env key; raise invalid_input)
        else (do
          created ← try (
              Repository.create_artifact env pool (record {
                id = [];
                deal_id = deal_id;
                kind = kind;
                storage_key = key;
                uploaded_at = 0;
              }))
          elim created [ ok artifact ↦ pure artifact | err e ↦ do delete_blob env key; raise e ])

  -- `UploadArtifact`; the content is its number of bytes, `none` for a nil reader.
  unfoldable pub upload_artifact : Text → Text → ArtifactKind → Text → Option ℕ → M Artifact
  unfolding is_valid_kind is_upload_closed artifact_storage_key store_artifact
  upload_artifact user_id deal_id kind filename content = do
    raise_if (not cfg.has_storage) invalid_input
    raise_if (leb_ℤ cfg.max_upload_bytes (pos 0)) invalid_input
    raise_if (is_empty deal_id) invalid_input
    raise_if (not (is_valid_kind kind)) invalid_input
    elim content [
      | none ↦ raise invalid_input
      | some size ↦ do
        deal ← Repository.get_deal_by_id env pool deal_id
        raise_if (not (text_eq deal.freelancer_id user_id)) forbidden
        raise_if (is_upload_closed deal.status) invalid_input
        key ← artifact_storage_key env deal_id filename
        store_artifact deal_id kind key size
    ]

  unfoldable pub delete_artifact : Text → Text → Text → M (Unit {0})
  delete_artifact user_id deal_id artifact_id = do
    raise_if (is_empty deal_id) invalid_input
    raise_if (is_empty artifact_id) invalid_input
    deal ← Repository.get_deal_by_id env pool deal_id
    raise_if (not (text_eq deal.freelancer_id user_id)) forbidden
    artifact ← Repository.get_artifact_by_id env pool artifact_id
    raise_if (not (text_eq artifact.deal_id deal_id)) artifact_not_found
    Repository.delete_artifact env pool artifact_id
    if cfg.has_storage then delete_blob env artifact.storage_key else pure tt

  -- The lookup and the access check that reading an artifact begins with.
  unfoldable pub get_artifact_by_id : Text → Text → Text → Text → M Artifact
  get_artifact_by_id user_id email deal_id artifact_id = do
    raise_if (is_empty deal_id) invalid_input
    raise_if (is_empty artifact_id) invalid_input
    artifact ← Repository.get_artifact_by_id env pool artifact_id
    raise_if (not (text_eq artifact.deal_id deal_id)) artifact_not_found
    deal ← Repository.get_deal_by_id env pool artifact.deal_id
    raise_if (not (is_party env cfg deal user_id email)) forbidden
    pure artifact

  -- `DownloadArtifact`: the artifact and the size of its blob. It makes the checks of
  -- `GetArtifactByID` in the same order once it has seen that a storage is wired.
  unfoldable pub download_artifact : Text → Text → Text → Text → M (Artifact × ℕ)
  unfolding get_artifact_by_id
  download_artifact user_id email deal_id artifact_id = do
    raise_if (not cfg.has_storage) invalid_input
    artifact ← get_artifact_by_id user_id email deal_id artifact_id
    opened ← call (Call.open_blob artifact.storage_key)
    blob env (env.open_result opened)
    sized ← call (Call.size_blob artifact.storage_key)
    size ← blob env (env.size_result sized)
    pure (artifact, size)

  unfoldable pub list_artifacts_by_deal : Text → Text → Text → M (List Artifact)
  list_artifacts_by_deal user_id email deal_id = do
    raise_if (is_empty deal_id) invalid_input
    deal ← Repository.get_deal_by_id env pool deal_id
    raise_if (not (is_party env cfg deal user_id email)) forbidden
    Repository.list_artifacts_by_deal env pool deal_id
