-- ===== src/Fs.antt =====
-- The files of a worker: src/fs/fs.c. The log lines are left out.
-- `fopen`, `getc` and `fprintf` are modelled on a disk that gives the content of a path, where there is a
-- file. What the system permits, and the shell behind `system`, are parameters.
pub mod Writes
pub mod Reads
pub mod Examples
use pekar_drive.Common.{
  ℕ, zero, suc, ◌+◌, ◌-◌, ◌%◌, Bool, true, false, Option, none, some, List, [], ◌∷◌, ◌++◌, length,
  take, drop, ◌==◌, ◌&&◌, not, if◌then◌else◌,
}
use pekar_drive.Common.Int.{ℤ, pos, negsuc}
use pekar_drive.Result.{Result, ok, err, null_pointer, ◌>>=◌}
use pekar_drive.Memory.{Bytes, Memory, store, realloc}
use pekar_drive.Memory.Strings.{codes, same}

-- The content of the file at a path.
abbrev pub Disk : Type 0
Disk = Bytes → Option Bytes

-- The disk with a new content of a file.
abbrev pub put : Bytes → Bytes → Disk → Disk
put path content disk q = if same path q then some content else disk q

-- The disk without a file.
abbrev pub without : Bytes → Disk → Disk
without path disk q = if same path q then none else disk q

-- What the system permits, and what a shell command does to the disk.
pub record System : Type 0 where
  pub readable : Bytes → Bool
  pub writable : Bytes → Bool
  pub system : Bytes → Disk → Disk

abbrev pub read_size : ℕ
read_size = 100

-- work_dir, after set_dir.
unfoldable pub set_dir : Bytes → Option Bytes
set_dir dir = some dir

-- A `NULL` is `none`.
unfoldable pub set_path : Option Bytes → Option Bytes → Option Bytes
set_path work_dir none = none
set_path none (some file_name) = some file_name
set_path (some dir) (some file_name) = some (dir ++ b'/' ∷ file_name)

-- `fopen(path, "r")`, with what can be read.
unfoldable pub open_read : System → Bytes → Disk → Option Bytes
open_read sys path disk = if sys.readable path then disk path else none

-- `fopen(path, "w")`: the file is there then, and empty.
unfoldable pub open_write : System → Bytes → Disk → Option Disk
open_write sys path disk = if sys.writable path then some (put path [] disk) else none

unfoldable pub file_exists : System → Bytes → Disk → Bool
file_exists sys path disk = elim (open_read sys path disk) [ none ↦ false | some content ↦ true ]

module _ (sys : System) (work_dir : Option Bytes) where
  unfoldable pub fs_create_file : Option Bytes → Disk → Result (Bool × Disk)
  fs_create_file file disk = elim (set_path work_dir file) [
    | none ↦ err null_pointer
    | some path ↦ elim (open_write sys path disk) [
      | none ↦ ok (false, disk)
      | some disk' ↦ ok (true, disk')
    ]
  ]

  unfoldable pub fs_delete_file : Option Bytes → Disk → Disk
  fs_delete_file file disk = elim (set_path work_dir file) [
    | none ↦ disk
    | some path ↦
        if not (file_exists sys path disk) then disk else sys.system (codes "rm " ++ path) disk
  ]

  -- What `fprintf` writes behind `fopen(path, "a")` and `fopen(path, "w")`, and the count that it returns.
  unfoldable pub print_file : Bytes → Bytes → Bool → Disk → ℤ × Disk
  print_file path buffer isappend disk =
      if not (sys.writable path)
      then (negsuc 0, disk)
      else if isappend
      then (
        pos (length buffer),
        put path (elim (disk path) [ none ↦ buffer | some old ↦ old ++ buffer ]) disk,
      )
      else (pos (length buffer), put path buffer disk)

  -- `buffer` is the string that the pointer shows. The size is not used.
  unfoldable pub fs_write_file : Option Bytes → Bytes → ℕ → Bool → Disk → Result (ℤ × Disk)
  fs_write_file file buffer size isappend disk = elim (set_path work_dir file) [
    | none ↦ ok (negsuc 0, disk)
    | some path ↦
        if isappend && not (file_exists sys path disk)
        then ok (negsuc 0, disk)
        else if not (file_exists sys path disk)
        then (do
          (created, disk) ← fs_create_file file disk
          ok (print_file path buffer isappend disk))
        else ok (print_file path buffer isappend disk)
  ]

-- The loop over `getc`, for the bytes up to the end of the file.
unfoldable pub read_loop : Memory → Bytes → ℕ → Bytes → Result Bytes
read_loop mem buffer counter [] = ok buffer
read_loop mem buffer counter (c ∷ rest) = do
  let buffer = (if c % read_size == 0 then realloc mem buffer (read_size + counter) else buffer)
  buffer ← store buffer counter (c ∷ [])
  read_loop mem buffer (counter + 1) rest

-- The block, or `NULL`.
unfoldable pub fs_read_file :
    System → Option Bytes → Memory → Option Bytes → Disk → Result (Option Bytes)
fs_read_file sys work_dir mem file disk = elim (set_path work_dir file) [
  | none ↦ err null_pointer
  | some path ↦ elim (open_read sys path disk) [
    | none ↦ ok none
    | some content ↦ do b ← read_loop mem (mem.malloc read_size) 0 content; ok (some b)
  ]
]
