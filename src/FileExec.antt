-- ===== src/FileExec.antt =====
-- The file operations of a worker: src/server/file_exec.c. The log lines are left out. The mutex, which
-- each operation holds from its start to its end, is in the module Mutex; here one operation runs alone.
pub mod Laws
pub mod Mutex
pub mod Examples
use pekar_drive.Common.{
  ℕ, zero, suc, ◌+◌, ◌-◌, ◌%◌, Bool, true, false, Option, none, some, List, [], ◌∷◌, ◌++◌, length,
  drop, ltb, leb, ◌==◌, ◌&&◌, not, if◌then◌else◌,
}
use pekar_drive.Common.Int.{ℤ, pos, negsuc}
use pekar_drive.Result.{Result, ok, err, out_of_bounds, null_pointer, uninitialised, ◌>>=◌}
use pekar_drive.Memory.{Bytes, Memory, load, store}
use pekar_drive.Memory.Strings.{codes, text, strlen, strncpy}
use pekar_drive.Memory.Decimal.{print_long}
use pekar_drive.Fs.{Disk, System, fs_read_file, fs_write_file, fs_delete_file}

-- `struct file_output`. `out` is the block that the field points to.
pub record FileOutput : Type 0 where
  pub error : Bool
  pub out : Bytes
  pub len : ℕ

-- The operations, which are the bits of a `short`.
pub data FileOp : Type 0 where
  file_read file_write file_append file_delete : FileOp

-- The loop of file_name and buffer: the count of the bytes up to the separator, with the separator.
unfoldable pub after_sep : Bytes → Result ℕ
after_sep [] = err out_of_bounds
after_sep (c ∷ m) = if c == b';' then ok 1 else do n ← after_sep m; ok (n + 1)

-- The copy has no NUL of its own behind it.
unfoldable pub file_name : Memory → Bytes → Result Bytes
file_name mem ptr = do
  counter ← after_sep ptr
  name ← strncpy (counter - 1) ptr
  store (mem.malloc (counter + 1)) 0 name

unfoldable pub buffer : Bytes → Result Bytes
buffer ptr = do counter ← after_sep ptr; ok (drop counter ptr)

-- The file names that `readdir` gives. Each is copied with its NUL to a block of its own length.
unfoldable pub copy_names : Memory → List Bytes → Result (List Bytes)
copy_names mem [] = ok []
copy_names mem (d_name ∷ names) = do
  name ← store (mem.malloc (length d_name)) 0 (d_name ++ 0 ∷ [])
  copied ← copy_names mem names
  ok (name ∷ copied)

-- `none` where the directory cannot be opened.
unfoldable pub file_list : Memory → Option (List Bytes) → Result (List Bytes)
file_list mem none = ok []
file_list mem (some names) = copy_names mem names

module _ (mem : Memory) (sys : System) (work_dir : Option Bytes) where
  -- `strlen(NULL)` is an access through `NULL`.
  unfoldable pub read_file : Bytes → Disk → Result FileOutput
  read_file name disk = do
    file ← text name
    block ← fs_read_file sys work_dir mem (some file) disk
    elim block [
      | none ↦ err null_pointer
      | some bytes ↦ do
        read_len ← strlen (bytes ++ mem.behind)
        copied ← load read_len (bytes ++ mem.behind)
        out ← store (mem.malloc (read_len + 1)) 0 copied
        ok (record { error = false; out = out; len = read_len })
    ]

  -- The count is printed to a block of ten bytes.
  unfoldable pub write_file : Bytes → Bytes → Bool → Disk → Result (FileOutput × Disk)
  write_file name content isappend disk = do
    bytes ← text content
    file ← text name
    (written, disk) ← fs_write_file sys work_dir (some file) bytes (length bytes) isappend disk
    let out = print_long written
    (if leb (length out + 1) 10
        then ok (record { error = false; out = out ++ 0 ∷ []; len = length out }, disk)
        else err out_of_bounds)

  unfoldable pub delete_file : Bytes → Disk → Result (FileOutput × Disk)
  delete_file name disk = do
    file ← text name
    ok (
      record { error = false; out = 0 ∷ []; len = 0 },
      fs_delete_file sys work_dir (some file) disk,
    )

  -- `arg` is what the pointer shows.
  unfoldable pub f_exec : FileOp → Bytes → Disk → Result (FileOutput × Disk)
  f_exec file_read arg disk = do output ← read_file arg disk; ok (output, disk)
  f_exec file_write arg disk = do
    name ← file_name mem arg
    content ← buffer arg
    write_file (name ++ mem.behind) content false disk
  f_exec file_append arg disk = do
    name ← file_name mem arg
    content ← buffer arg
    write_file (name ++ mem.behind) content true disk
  f_exec file_delete arg disk = delete_file arg disk
