-- ===== src/Notes/Drawings.antt =====
-- The bucket of modules/storage/storage.service.ts, as the notes use it: `uploadDrawing` and
-- `deleteFile`, whose drivers stand outside.
use kori_backend.Database.{err, Failure, ok, Result}
use kori_backend.Storage.{UploadedFile}
use kori_backend.Prelude.{str_eq, true, false, ◌≡◌, Bool, String}

pub record StoredFile : Type 0 where
  pub image_url : String
  pub storage_path : String

-- `B` is what the bucket keeps. A call that fails keeps nothing and removes nothing.
pub record Bucket (B : Type 0) : Type 0 where
  pub holds : String → B → Bool
  pub upload_drawing : UploadedFile → B → B × Result StoredFile
  pub upload_ok :
      (file : UploadedFile) (b b' : B) (stored : StoredFile)
      → upload_drawing file b ≡ (b', ok stored)
      → (holds stored.storage_path b ≡ false)
        × (holds stored.storage_path b' ≡ true)
        × ((path : String) → str_eq path stored.storage_path ≡ false → holds path b' ≡ holds path b)
  pub upload_err :
      (file : UploadedFile) (b b' : B) (e : Failure)
      → upload_drawing file b ≡ (b', err e)
      → (path : String) → holds path b' ≡ holds path b
  pub delete_file : String → B → B × Result (Unit {0})
  pub delete_ok :
      (path : String) (b b' : B) (u : Unit {0})
      → delete_file path b ≡ (b', ok u)
      → (holds path b' ≡ false)
        × ((other : String) → str_eq other path ≡ false → holds other b' ≡ holds other b)
  pub delete_err :
      (path : String) (b b' : B) (e : Failure)
      → delete_file path b ≡ (b', err e)
      → (other : String) → holds other b' ≡ holds other b
