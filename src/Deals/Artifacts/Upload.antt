-- ===== src/Deals/Artifacts/Upload.antt =====
-- The second half of `UploadArtifact` of deals/service.go: the blob, the row and the size cap.
use ganji.Base.{ℕ, ◌≤◌, ◌<◌, ◌≡◌, ◌⊎◌, List, ◌∷◌, Text, arith}
use ganji.Base.Int.{pos}
use ganji.Deals.Types.{Artifact, ArtifactKind}
use ganji.Deals.World.{Result, ok, err, storage_failed, Call, World, Env, Config, ◌>>=◌}
use ganji.Deals.Repository.{statement, create_artifact}
use ganji.Deals.Artifacts.{store_artifact, bytes_counted}

-- What the calls to the blob store end in: a stored artifact was saved and not deleted; after a failure
-- nothing was saved, or what was saved was deleted.
abbrev pub BlobKept : Text → List Call → Result Artifact × World → Type 0
BlobKept key calls (ok a, w) = w.calls ≡ Call.save_blob key ∷ calls
BlobKept key calls (err e, w) =
    ((w.calls ≡ Call.save_blob key ∷ calls) × (e ≡ storage_failed))
    ⊎ (w.calls ≡ Call.delete_blob key ∷ Call.save_blob key ∷ calls)

module _ (env : Env) (cfg : Config) (deal_id : Text) (kind : ArtifactKind) (key : Text) (size : ℕ)
    (w : World) where
  -- Storing an artifact saves its blob, and deletes the blob again if the upload fails after that.
  pub store_artifact_no_orphan :
      BlobKept key w.calls (store_artifact env cfg deal_id kind key size w)
  unfolding store_artifact ◌>>=◌ create_artifact statement
  store_artifact_no_orphan = ground arith

  -- With a size cap below the largest int64, an artifact is stored only if its content is within the cap.
  pub store_artifact_within_cap :
      (cap : ℕ) (a : Artifact)
      → cfg.max_upload_bytes ≡ pos cap
      → cap < 9223372036854775807
      → (store_artifact env cfg deal_id kind key size w).0 ≡ ok a
      → size ≤ cap
  unfolding store_artifact ◌>>=◌ create_artifact statement bytes_counted
  store_artifact_within_cap cap a c bound e = ground arith
