-- ===== src/Fs/Writes.antt =====
-- Writing, appending and deleting: src/fs/fs.c.
use pekar_drive.Common.{
  ℕ, ◌≡◌, refl, sym, ap, ◌∙◌, Bool-cases, Option-cases, inl, inr, true, false, Option, none, some,
  [], ◌++◌, length, arith,
}
use pekar_drive.Common.Int.{pos}
use pekar_drive.Result.{ok}
use pekar_drive.Memory.{Bytes}
use pekar_drive.Memory.Strings.{codes, same, same-eq}
use pekar_drive.Fs.{
  Disk, put, without, System, set_path, open_read, open_write, file_exists, fs_create_file,
  fs_delete_file, print_file, fs_write_file,
}

-- The system lets all files be read and written.
pub record IsOpen (sys : System) : Type 0 where
  pub readable : (path : Bytes) → sys.readable path ≡ true
  pub writable : (path : Bytes) → sys.writable path ≡ true

-- The disk is the old one with a new content of one file.
abbrev pub IsPut : Bytes → Bytes → Disk → Disk → Type 0
IsPut path content disk disk' = (q : Bytes) → disk' q ≡ put path content disk q

put-put :
    (path first content : Bytes) (disk : Disk)
    → IsPut path content disk (put path content (put path first disk))
put-put path first content disk q = elim (Bool-cases (same path q)) [ inl e ↦ rw e | inr e ↦ rw e ]

module _ (sys : System) (w : Option Bytes) (file path : Bytes)
    (located : set_path w (some file) ≡ some path) (permitted : IsOpen sys) where
  file_exists-some :
      (disk : Disk) (old : Bytes) → disk path ≡ some old → file_exists sys path disk ≡ true
  unfolding file_exists open_read
  file_exists-some disk old h = rw (file_exists, open_read, permitted.readable path, h)

  file_exists-none : (disk : Disk) → disk path ≡ none → file_exists sys path disk ≡ false
  unfolding file_exists open_read
  file_exists-none disk h = rw (file_exists, open_read, permitted.readable path, h)

  created : (disk : Disk) → fs_create_file sys w (some file) disk ≡ ok (true, put path [] disk)
  unfolding fs_create_file open_write
  created disk = rw (fs_create_file, open_write, located, permitted.writable path)

  -- fs_write_file without isappend, on a disk that may be read and written, returns the number of
  -- bytes; the file has them as its content then, whether it existed or not, and all other files
  -- are as they were.
  pub fs_write_file-IsPut :
      (buffer : Bytes) (size : ℕ) (disk : Disk)
      → (disk' : Disk) × (fs_write_file sys w (some file) buffer size false disk
          ≡ ok (pos (length buffer), disk'))
        × IsPut path buffer disk disk'
  unfolding fs_write_file fs_create_file open_write print_file
  fs_write_file-IsPut buffer size disk = elim (Bool-cases (file_exists sys path disk)) [
    | inl old ↦ (
      put path buffer disk,
      rw (fs_write_file, print_file, located, old, permitted.writable path),
      λ q. refl,
    )
    | inr new ↦ (
      put path buffer (put path [] disk),
      rw (fs_write_file, print_file, located, new, created disk, permitted.writable path),
      put-put path [] buffer disk,
    )
  ]

  -- fs_write_file with isappend, on a disk that may be read and written, to a file that exists
  -- returns the number of bytes and puts them behind its content; all other files are as they were.
  pub fs_write_file-append :
      (buffer old : Bytes) (size : ℕ) (disk : Disk)
      → disk path ≡ some old
      → (disk' : Disk) × (fs_write_file sys w (some file) buffer size true disk
          ≡ ok (pos (length buffer), disk'))
        × IsPut path (old ++ buffer) disk disk'
  unfolding fs_write_file print_file
  fs_write_file-append buffer old size disk h = (
    put path (old ++ buffer) disk,
    rw (
      fs_write_file,
      print_file,
      located,
      file_exists-some disk old h,
      permitted.writable path,
      h,
    ),
    λ q. refl,
  )

  -- If the shell command "rm path" removes just the file of this path, then so does fs_delete_file,
  -- on a disk that may be read, also where the file does not exist.
  pub fs_delete_file-without :
      (disk : Disk)
      → sys.system (codes "rm " ++ path) disk ≡ without path disk
      → (q : Bytes) → fs_delete_file sys w (some file) disk q ≡ without path disk q
  unfolding fs_delete_file
  fs_delete_file-without disk shell q = elim (Bool-cases (file_exists sys path disk)) [
    | inl old ↦ rw (fs_delete_file, located, old, shell)
    | inr new ↦
        rw (fs_delete_file, located, new)
          (elim (Bool-cases (same path q)) [
            | inl e ↦ rw e (ap disk (sym (same-eq path q e)) ∙ missing new)
            | inr e ↦ rw e
          ])
  ]
    where
      missing : file_exists sys path disk ≡ false → disk path ≡ none
      missing h = elim (Option-cases (disk path)) [
        | inl e ↦ e
        | inr e ↦ let (old, e) = e in absurd (ground (arith, file_exists-some disk old e, h))
      ]
