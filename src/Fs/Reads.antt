-- ===== src/Fs/Reads.antt =====
-- fs_read_file of src/fs/fs.c.
use pekar_drive.Common.{
  ℕ, ◌+◌, ◌%◌, ◌<◌, ◌≤◌, ◌≡◌, refl, ap, ◌∙◌, Bool-cases, inl, inr, false, Option, some, [], ◌∷◌,
  ◌++◌, append_assoc, append-nil, length, drop, All, ◌==◌, leb, lt→leb_false, length-append,
  length-drop, if◌then◌else◌, arith,
}
use pekar_drive.Result.{ok, err, out_of_bounds}
use pekar_drive.Memory.{Bytes, Memory, store, store-append, realloc, realloc-prefix}
use pekar_drive.Fs.{System, Disk, set_path, open_read, read_loop, fs_read_file, read_size}

-- The block starts with the bytes.
abbrev pub IsPrefix : Bytes → Bytes → Type 0
IsPrefix s block = (rest : Bytes) × (block ≡ s ++ rest)

-- No byte is a multiple of 100.
abbrev pub NoMultiple : Bytes → Type 0
NoMultiple = All (λ c. (c % read_size == 0) ≡ false)

module _ (mem : Memory) where
  -- The block before a byte is stored still has room for the bytes to come.
  grown :
      (c : ℕ) (done rest : Bytes) (more i : ℕ)
      → i ≡ length done
      → i + more ≤ length (done ++ rest)
      → more ≤ read_size
      → (rest' : Bytes) × ((if c % read_size == 0
            then realloc mem (done ++ rest) (read_size + i)
            else done ++ rest)
          ≡ done ++ rest')
        × (i + more ≤ length (done ++ rest'))
  grown c done rest more i e h k = elim (Bool-cases (c % read_size == 0)) [
    | inl multiple ↦
        let (rest', same_block, size) =
          realloc-prefix mem done rest (read_size + i) (omega arith) in
        (rest', rw (multiple, same_block), omega (arith, size))
    | inr other ↦ (rest, rw other, h)
  ]

  read_loop-short :
      (content done rest : Bytes) (i : ℕ)
      → i ≡ length done
      → i + length content ≤ length (done ++ rest)
      → length content ≤ read_size
      → (b : Bytes) × (read_loop mem (done ++ rest) i content ≡ ok b) × IsPrefix (done ++ content) b
  unfolding read_loop
  read_loop-short [] done rest i e h k = (_, refl, (rest, rw append-nil))
  read_loop-short (c ∷ content) done rest i e h k =
      let (rest', same_block, room) = grown c done rest (length (c ∷ content)) i e h k in
      let stored = store-append done rest' (c ∷ []) i e (omega (arith, length-append done rest')) in
      let (b, read, (tail, p)) =
        read_loop-short content (done ++ c ∷ []) (drop 1 rest') (i + 1)
          (omega (arith, length-append done (c ∷ [])))
          (omega (
            arith,
            length-append (done ++ c ∷ []) (drop 1 rest'),
            length-append done (c ∷ []),
            length-drop 1 rest',
            length-append done rest',
            room,
          ))
          (omega arith) in
      (
        b,
        rw (same_block, stored) read,
        (tail, p ∙ ap (λ s. s ++ tail) (append_assoc done (c ∷ []) content)),
      )

  read_loop-long :
      (content done rest : Bytes) (i : ℕ)
      → i ≡ length done
      → NoMultiple content
      → length (done ++ rest) < i + length content
      → length done ≤ length (done ++ rest)
      → read_loop mem (done ++ rest) i content ≡ err out_of_bounds
  unfolding read_loop
  read_loop-long [] done rest i e h k l = absurd (omega (arith, length-append done rest))
  read_loop-long (c ∷ content) done [] i e h k l =
      let full : leb (i + 1) (length (done ++ [])) ≡ false =
        lt→leb_false _ _ (omega (arith, length-append done [])) in
      unfold store in rw (h.0, full)
  read_loop-long (c ∷ content) done (r ∷ rest) i e h k l =
      let stored = store-append done (r ∷ rest) (c ∷ []) i e (omega arith) in
      rw (h.0, stored)
        (read_loop-long content (done ++ c ∷ []) rest (i + 1)
          (omega (arith, length-append done (c ∷ []))) h.1
          (omega (
            arith,
            length-append (done ++ c ∷ []) rest,
            length-append done (c ∷ []),
            length-append done (r ∷ rest),
            k,
          ))
          (omega (arith, length-append (done ++ c ∷ []) rest)))

module _ (mem : Memory) (sys : System) (w : Option Bytes) (file path content : Bytes) (disk : Disk)
    (located : set_path w (some file) ≡ some path)
    (found : open_read sys path disk ≡ some content) where
  -- Reading a file of at most 100 bytes that can be opened gives a block that starts with its
  -- content.
  pub fs_read_file-short :
      length content ≤ read_size
      → (b : Bytes) × (fs_read_file sys w mem (some file) disk ≡ ok (some b)) × IsPrefix content b
  unfolding fs_read_file
  fs_read_file-short h =
      let (b, read, p) =
        read_loop-short mem content [] (mem.malloc read_size) 0 refl
          (omega (arith, mem.length-malloc read_size, h)) h in
      (b, rw (fs_read_file, located, found, read), p)

  -- Reading a file of more than 100 bytes, of which none is a multiple of 100, writes out of
  -- bounds.
  pub fs_read_file-long :
      NoMultiple content
      → read_size < length content
      → fs_read_file sys w mem (some file) disk ≡ err out_of_bounds
  unfolding fs_read_file
  fs_read_file-long h k = rw (
    fs_read_file,
    located,
    found,
    read_loop-long mem content [] (mem.malloc read_size) 0 refl h
        (omega (arith, mem.length-malloc read_size, k)) (omega arith),
  )
