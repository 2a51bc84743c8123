-- ===== src/Metadata.antt =====
-- The metadata of files and folders: include/cloudstorageapi/common_metadata.h, file_metadata.h,
-- folder_metadata.h and their sources under src/.
use cloudstorageapi.Prelude.{
  ℤ, Bool, Option, none, some, String, [], ◌∷◌, concat, show_int, if◌then◌else◌,
}

-- `CommonMetadata`; a time is the count of ticks since the epoch.
pub record CommonMetadata : Type 0 where
  pub cloud_id : String
  pub name : String
  pub parent_id : String
  pub size : ℤ
  pub ctime : ℤ
  pub mtime : ℤ
  pub atime : ℤ

-- `FileMetadata`.
pub record FileMetadata : Type 0 where
  pub common : CommonMetadata
  pub mimetype : Option String
  pub downloadable : Bool

-- `operator<<` on the common part.
unfoldable pub show_common : CommonMetadata → String
show_common m = concat (
    "cloudId="
    ∷ m.cloud_id
    ∷ ", name="
    ∷ m.name
    ∷ ", parentId="
    ∷ m.parent_id
    ∷ ", size="
    ∷ show_int m.size
    ∷ ", change time="
    ∷ show_int m.ctime
    ∷ ", modify time="
    ∷ show_int m.mtime
    ∷ ", access time="
    ∷ show_int m.atime
    ∷ [])

mimetype_or : Option String → String
mimetype_or none = "N/A"
mimetype_or (some t) = t

-- `operator<<` on a file's metadata.
unfoldable pub show_file : FileMetadata → String
unfolding mimetype_or
show_file m = concat (
    "FileMetadata={"
    ∷ show_common m.common
    ∷ ", mimeType="
    ∷ mimetype_or m.mimetype
    ∷ ", isDownloadable="
    ∷ (if m.downloadable then "true" else "false")
    ∷ " }"
    ∷ [])
