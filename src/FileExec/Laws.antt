-- ===== src/FileExec/Laws.antt =====
-- file_name, buffer and f_exec of src/server/file_exec.c on the arguments "file;data".
use pekar_drive.Common.{
  ◌+◌, ◌-◌, ◌^◌, ◌<◌, ◌≡◌, refl, ap, ◌∙◌, true, false, Option, some, List, [], ◌∷◌, ◌++◌,
  append_assoc, length, drop, ◌==◌, leb, le→leb, length-append, drop-add, drop-append_length, arith,
}
use pekar_drive.Result.{ok, err, out_of_bounds}
use pekar_drive.Memory.{Bytes, Memory, store, store-append}
use pekar_drive.Memory.Strings.{IsText, Lacks, text, text-append, strncpy-append}
use pekar_drive.Memory.Decimal.{print, print_long, length-print}
use pekar_drive.Fs.{System, Disk, set_path}
use pekar_drive.Fs.Writes.{IsOpen, IsPut, fs_write_file-IsPut, fs_write_file-append}
use pekar_drive.FileExec.{
  FileOutput, file_write, file_append, after_sep, file_name, buffer, f_exec, write_file, copy_names,
  file_list,
}

after_sep-found : (s m : Bytes) → Lacks b';' s → after_sep (s ++ b';' ∷ m) ≡ ok (length s + 1)
unfolding after_sep
after_sep-found [] m h = refl
after_sep-found (c ∷ s) m h =
    let e : (c == b';') ≡ false = ground arith in
    rw (e, after_sep-found s m h.1) (ap ok (omega arith))

-- file_name copies the bytes in front of the first semicolon to the start of a new block, and
-- buffer points behind the semicolon.
pub file_name-buffer :
    (mem : Memory) (f m : Bytes)
    → IsText f
    → Lacks b';' f
    → (file_name mem (f ++ b';' ∷ m) ≡ ok (f ++ drop (length f) (mem.malloc (length f + 2))))
      × (buffer (f ++ b';' ∷ m) ≡ ok m)
unfolding file_name buffer
file_name-buffer mem f m is_name first =
    let count : length f + 1 - 1 ≡ length f = omega arith in
    let size : length f + 1 + 1 ≡ length f + 2 = omega arith in
    (
      rw (after_sep-found f m first, count, strncpy-append f (b';' ∷ m) is_name, size)
          (store-append [] (mem.malloc (length f + 2)) f 0 refl
            (omega (arith, mem.length-malloc (length f + 2)))),
      rw (after_sep-found f m first, drop-add (length f) 1 (f ++ b';' ∷ m), drop-append_length),
    )

-- file_list writes out of bounds for every directory that holds a name.
pub file_list-overflows :
    (mem : Memory) (name : Bytes) (names : List Bytes)
    → file_list mem (some (name ∷ names)) ≡ err out_of_bounds
unfolding file_list copy_names store
file_list-overflows mem name names =
    let full : leb (0 + length (name ++ 0 ∷ [])) (length (mem.malloc (length name))) ≡ false =
      ground (arith, length-append name (0 ∷ []), mem.length-malloc (length name)) in
    rw full

-- The count of the bytes that were written, in decimal.
abbrev pub written : Bytes → FileOutput
written d = record {
  error = false;
  out = print (length d) ++ 0 ∷ [];
  len = length (print (length d));
}

module _ (mem : Memory) (sys : System) (w : Option Bytes) (f d m zeros path : Bytes)
    (is_name : IsText f) (is_content : IsText d) (first : Lacks b';' f)
    (fresh : drop (length f) (mem.malloc (length f + 2)) ≡ 0 ∷ zeros)
    (located : set_path w (some f) ≡ some path) (permitted : IsOpen sys)
    (small : length d < 10 ^ 9) where
  name_text : text ((f ++ (0 ∷ zeros)) ++ mem.behind) ≡ ok f
  name_text = rw append_assoc (text-append f (zeros ++ mem.behind) is_name)

  short : leb (length (print (length d)) + 1) 10 ≡ true
  short = le→leb _ _ (omega (arith, length-print (length d) 8 small))

  names : file_name mem (f ++ (b';' ∷ (d ++ 0 ∷ m))) ≡ ok (f ++ 0 ∷ zeros)
  names = (file_name-buffer mem f (d ++ 0 ∷ m) is_name first).0 ∙ ap (λ z. ok (f ++ z)) fresh

  -- A write of "file;data" on a disk that may be read and written puts the data, of fewer than 10^9
  -- bytes, in the file, leaves all other files as they were, and answers the count of the bytes in
  -- decimal. A NUL must stand behind the file name where it is copied to.
  pub f_exec-write :
      (disk : Disk)
      → (disk' : Disk) × (f_exec mem sys w file_write (f ++ (b';' ∷ (d ++ 0 ∷ m))) disk
          ≡ ok (written d, disk'))
        × IsPut path d disk disk'
  unfolding f_exec write_file print_long print
  f_exec-write disk =
      let (disk', e, p) = fs_write_file-IsPut sys w f path located permitted d (length d) disk in
      (
        disk',
        rw (
          names,
          (file_name-buffer mem f (d ++ 0 ∷ m) is_name first).1,
          text-append d m is_content,
          name_text,
          e,
          short,
        ),
        p,
      )

  -- An append of "file;data" to a file that exists, on a disk that may be read and written, puts
  -- the data, of fewer than 10^9 bytes, behind its content, leaves all other files as they were,
  -- and answers the count of the bytes in decimal. A NUL must stand behind the file name where it
  -- is copied to.
  pub f_exec-append :
      (disk : Disk) (old : Bytes)
      → disk path ≡ some old
      → (disk' : Disk) × (f_exec mem sys w file_append (f ++ (b';' ∷ (d ++ 0 ∷ m))) disk
          ≡ ok (written d, disk'))
        × IsPut path (old ++ d) disk disk'
  unfolding f_exec write_file print_long print
  f_exec-append disk old h =
      let (disk', e, p) =
        fs_write_file-append sys w f path located permitted d old (length d) disk h in
      (
        disk',
        rw (
          names,
          (file_name-buffer mem f (d ++ 0 ∷ m) is_name first).1,
          text-append d m is_content,
          name_text,
          e,
          short,
        ),
        p,
      )
