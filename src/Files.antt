-- ===== src/Files.antt =====
-- The file system as the program sees it, and internal/fsx/fsx.go.
pub mod Atomic
use imgpull.Base.{
  ℕ, ◌≡◌, Bool, true, false, Option, none, some, List, [], ◌∷◌, Bytes, take, is_some, if◌then◌else◌,
}
use mathlib.Core.Logic.{ite}
use native.Mathlib.Decide.{ℕ_discrete}

-- Files below one image directory, by their place: `imageDir/name`, `blobs/algorithm/hex`,
-- `tmp/name`, `path + ".aria2"`, and the temporary file that `WriteFileAtomic` makes beside a path.
pub data FilePath : Type 0 where
  image_file : Bytes → FilePath
  blobs_file : Bytes → Bytes → FilePath
  tmp_file : Bytes → FilePath
  control : FilePath → FilePath
  temp : FilePath → FilePath

unfoldable pub FilePath-discrete : Discrete FilePath
FilePath-discrete = hlevel ℕ_discrete

-- The system calls that may fail, each on a path.
pub data Syscall : Type 0 where
  mkdir_all create write sync close chmod open_file read_file lock_file : FilePath → Syscall
  rename : FilePath → FilePath → Syscall
  remove : FilePath → Syscall

-- `files` is what is on disk, `fault` says which calls fail, `transferred` is how many bytes a
-- failing write leaves behind, and `locked` is the advisory lock on the image directory.
pub record Disk : Type 0 where
  pub files : FilePath → Option Bytes
  pub fault : Syscall → Bool
  pub transferred : ℕ
  pub locked : Bool

abbrev pub put : (FilePath → Option Bytes) → FilePath → Option Bytes → FilePath → Option Bytes
put files p content q = ite (FilePath-discrete q p) content (files q)

-- `os.Remove`, whose error the program ignores everywhere.
unfoldable pub remove_file : FilePath → Disk → Disk
remove_file p d = if d.fault (remove p) then d else record d { files = put d.files p none }

-- `os.Rename`: fails on a missing source.
unfoldable pub rename_file : FilePath → FilePath → Disk → Disk × Bool
rename_file from to d = elim (d.files from) [
  | none ↦ (d, false)
  | some content ↦
      if d.fault (rename from to)
      then (d, false)
      else (record d { files = put (put d.files from none) to (some content) }, true)
]

-- The steps of `WriteFileAtomic`, in order.
pub data WriteStep : Type 0 where
  make_dir create_temp write_temp sync_temp close_temp chmod_temp rename_temp : WriteStep

-- One step on the target `p`: the disk after it, and whether it succeeded.
unfoldable pub write_step : FilePath → Bytes → WriteStep → Disk → Disk × Bool
unfolding rename_file
write_step p text make_dir d = (d, if d.fault (mkdir_all p) then false else true)
write_step p text create_temp d =
    if d.fault (create (temp p))
    then (d, false)
    else (record d { files = put d.files (temp p) (some []) }, true)
write_step p text write_temp d =
    if d.fault (write (temp p))
    then (record d { files = put d.files (temp p) (some (take d.transferred text)) }, false)
    else (record d { files = put d.files (temp p) (some text) }, true)
write_step p text sync_temp d = (d, if d.fault (sync (temp p)) then false else true)
write_step p text close_temp d = (d, if d.fault (close (temp p)) then false else true)
write_step p text chmod_temp d = (d, if d.fault (chmod (temp p)) then false else true)
write_step p text rename_temp d = rename_file (temp p) p d

-- The first failing step ends the function.
unfoldable pub run_steps : FilePath → Bytes → List WriteStep → Disk → Disk × Bool
run_steps p text [] d = (d, true)
run_steps p text (s ∷ ss) d =
    let after = write_step p text s d in
    let rest = run_steps p text ss after.0 in if after.1 then rest else after

abbrev pub opening : List WriteStep
opening = make_dir ∷ create_temp ∷ []

abbrev pub filling : List WriteStep
filling = write_temp ∷ sync_temp ∷ close_temp ∷ chmod_temp ∷ rename_temp ∷ []

-- `WriteFileAtomic`. Once the temporary file is made, it is removed at every return.
unfoldable pub write_file_atomic : FilePath → Bytes → Disk → Disk × Bool
unfolding run_steps write_step remove_file
write_file_atomic p text d =
    let opened = run_steps p text opening d in
    let filled = run_steps p text filling opened.0 in
    if opened.1 then (remove_file (temp p) filled.0, filled.1) else opened
