-- ===== src/Cleanup/Disk.antt =====
-- Files, as helper/quarantine.py sees them, and its `_copy_verified`.
use metafusion.Prelude.{
  if◌then◌else◌, ◌&&◌, String, Option, Bool, str_eq, some, is_some, false, true, none,
}

-- A file's bytes stand for themselves as a text. A link is no regular file.
pub record File : Type 0 where
  pub content : String
  pub regular : Bool

abbrev pub Disk : Type 0
Disk = String → Option File

unfoldable pub write : String → Option File → Disk → Disk
write p f d q = if str_eq p q then f else d q

abbrev pub exists : String → Disk → Bool
exists p d = is_some (d p)

abbrev pub regular_file : Option File → Bool
regular_file none = false
regular_file (some f) = f.regular

abbrev pub content_of : Option File → String
content_of none = ""
content_of (some f) = f.content

-- What one copy meets: `copied` is what `shutil.copy2` wrote (`none`: it raised), `replaced` whether
-- `os.replace` succeeded.
pub record CopyRun : Type 0 where
  pub copied : Option String
  pub replaced : Bool

module _ (sha256 : String → String) where
  -- `sha256_file(path) == checksum`
  abbrev pub has_checksum : Option File → String → Bool
  has_checksum f checksum = str_eq (sha256 (content_of f)) checksum

  unfoldable pub copy_result : Option String → Bool → String → String → Disk → Disk × Bool
  copy_result none replaced destination checksum d = (d, false)
  copy_result (some c) replaced destination checksum d =
      if str_eq (sha256 c) checksum && replaced
      then (write destination (some (record { content = c; regular = true })) d, true)
      else (d, false)

  -- `_copy_verified`: the disk that it leaves, and whether it returned. (The temporary file is
  -- gone at the end.)
  unfoldable pub copy_verified : CopyRun → String → String → Disk → Disk × Bool
  unfolding copy_result
  copy_verified run destination checksum d =
      copy_result run.copied run.replaced destination checksum d
