-- ===== src/Storage.antt =====
-- modules/storage/digital-assets.service.ts: the files that are sold, in an object store.
pub mod Filename
pub mod Headers
pub use Filename.*
use kori_backend.Database.{http, err, ok, Env, Result}
use kori_backend.Prelude.{
  length, ltb, take, str_eq, false, any, ◌&&◌, ◌==◌, not, true, if◌then◌else◌, [], ◌∷◌, ◌<>◌, ◌*◌,
  ℕ, String, List, Bool,
}

-- A file of a request: its bytes and the kind that the browser says it is.
pub record UploadedFile : Type 0 where
  pub buffer : List ℕ
  pub mimetype : String

pub record StoredAsset : Type 0 where
  pub bytes : ℕ
  pub path : String

abbrev pub allowed_mime_types : List String
allowed_mime_types =
    "application/zip" ∷ "application/x-zip-compressed" ∷ "application/octet-stream" ∷ []

abbrev pub max_bytes : ℕ
max_bytes = 500 * 1024 * 1024

abbrev pub zip_magic : List ℕ
zip_magic = 0x50 ∷ 0x4b ∷ 0x03 ∷ 0x04 ∷ []

abbrev pub same_bytes : List ℕ → List ℕ → Bool
same_bytes [] [] = true
same_bytes (x ∷ xs) (y ∷ ys) = x == y && same_bytes xs ys
same_bytes _ _ = false

abbrev pub asset_key : String → String → String
asset_key variant_id uuid = "variants/" <> variant_id <> "/" <> uuid <> ".zip"

-- `has_client` says whether the store is configured, and `put` how the sending of the object under
-- a path ends, behind its circuit breaker.
module _ (has_client : Bool) (put : String → Result (Unit {0})) where
  abbrev pub stored_at : ℕ → String → Result (Unit {0}) → Result StoredAsset
  stored_at bytes path (ok u) = ok (record { bytes = bytes; path = path })
  stored_at bytes path (err e) = err e

  unfoldable pub upload : Env → String → UploadedFile → Result StoredAsset
  upload env variant_id file =
      if not has_client
      then err (http 503)
      else if not (any (str_eq file.mimetype) allowed_mime_types)
      then err (http 400)
      else if not (same_bytes (take 4 file.buffer) zip_magic)
      then err (http 400)
      else if ltb max_bytes (length file.buffer)
      then err (http 400)
      else stored_at (length file.buffer) (asset_key variant_id (env.uuid 0))
          (put (asset_key variant_id (env.uuid 0)))
