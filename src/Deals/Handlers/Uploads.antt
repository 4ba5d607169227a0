-- ===== src/Deals/Handlers/Uploads.antt =====
-- backend/internal/deals/artifact_handler.go, `CreateArtifact`: the parts of a multipart upload in order.
use ganji.Base.{
  ℕ, Option, none, some, List, [], ◌∷◌, Text, codes, text_eq, is_empty, trim_space, if◌then◌else◌,
}
use ganji.Deals.Types.{ArtifactKind}
use ganji.Deals.World.{Env, Config, M, pure}
use ganji.Deals.Artifacts
use ganji.Deals.Handlers.{answer, refuse_reading}
use ganji.Http.{Caller, Body, Response, respond, fail}

-- What `NextPart` gives: the field "kind", of which at most 64 bytes are read (`none` where reading fails), the
-- file with its name and its number of bytes, another field, or an error, which may be that of the size limit.
pub data Part : Type 0 where
  kind_part : Option Text → Part
  file_part : Text → ℕ → Part
  another : Part
  too_large malformed : Part

-- `ArtifactKind(...)`
abbrev kind_of : Text → ArtifactKind
kind_of s =
    if text_eq s (codes "source_code")
    then ArtifactKind.source_code
    else if text_eq s (codes "source_file")
    then ArtifactKind.source_file
    else ArtifactKind.invalid

-- The kind that a field gives, if it is not blank.
abbrev pub kind_field : Option Text → Option ArtifactKind
kind_field none = none
kind_field (some b) = if is_empty (trim_space b) then none else some (kind_of (trim_space b))

module _ (env : Env) (cfg : Config) (caller : Caller) (deal_id : Text) where
  unfoldable pub upload_part : Option ArtifactKind → Text → ℕ → M Response
  upload_part none filename size =
      if is_empty filename
      then pure (fail 400 "artifact file is required (multipart field \"artifact\")")
      else pure (fail 400 "the \"kind\" form field must appear before the \"artifact\" file")
  upload_part (some kind) filename size =
      if is_empty filename
      then pure (fail 400 "artifact file is required (multipart field \"artifact\")")
      else answer refuse_reading (λ a. respond 201 (Body.artifact a))
          (Artifacts.upload_artifact env cfg caller.user_id deal_id kind filename (some size))

  -- The loop over the parts, with the kind read so far.
  unfoldable pub read_parts : Option ArtifactKind → List Part → M Response
  read_parts known [] = pure (fail 400 "artifact file is required (multipart field \"artifact\")")
  read_parts known (Part.too_large ∷ rest) = pure (fail 413 "upload exceeds the configured limit")
  read_parts known (Part.malformed ∷ rest) = pure (fail 400 "malformed multipart request")
  read_parts known (Part.kind_part field ∷ rest) = elim (kind_field field) [
    | none ↦ pure (fail 400 "invalid artifact kind")
    | some kind ↦ read_parts (some kind) rest
  ]
  read_parts known (Part.file_part filename size ∷ rest) = upload_part known filename size
  read_parts known (Part.another ∷ rest) = read_parts known rest

  -- `none` where the request is not multipart.
  unfoldable pub create_artifact : Option (List Part) → M Response
  create_artifact none = pure (fail 400 "invalid multipart request")
  create_artifact (some parts) = read_parts none parts
