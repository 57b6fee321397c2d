-- ===== src/Transmission/Receive/Blocks.antt =====
-- The loop of receive of lib/PP/transmission.c over blocks of a chunk.
use pekar_drive.Common.{
  ℕ, suc, ◌+◌, ◌*◌, ◌%◌, ◌^◌, ◌<◌, ◌≡◌, ◌≢◌, refl, sym, ap, subst₂, ◌∙◌, true, false, List, [], ◌∷◌,
  ◌++◌, append_assoc, append-nil, concat, length, take, drop, drop-length, All, take_all,
  length-append, ◌==◌, arith,
}
use pekar_drive.Result.{ok}
use pekar_drive.Memory.{Bytes, Memory, store, store-append, realloc, realloc-prefix}
use pekar_drive.Transmission.{pad}
use pekar_drive.Transmission.Receive.{read_chunks, contains_padding}
use pekar_drive.Transmission.Receive.Trim.{contains_padding-last}

-- A block of a chunk that does not end in padding.
abbrev pub IsFull : ℕ → Bytes → Type 0
IsFull size block =
    (s : Bytes) × (x : ℕ) × (block ≡ s ++ x ∷ []) × (x ≢ pad) × (length block ≡ size)

module _ (mem : Memory) (size : ℕ) where
  -- One block is stored behind those before it.
  stored :
      (done rest block : Bytes) (i : ℕ)
      → length done ≡ i * size
      → length rest ≡ size
      → length block ≡ size
      → i * size < 2 ^ 32
      → store (done ++ rest) (i * size % 2 ^ 32) (take size block) ≡ ok (done ++ block)
  stored done rest block i e f h bound =
      let word : i * size % 2 ^ 32 ≡ i * size = omega arith in
      let whole : take size block ≡ block = take_all size block (omega arith) in
      let none_left : drop (length block) rest ≡ [] =
        ap (λ n. drop n rest) (h ∙ sym f) ∙ drop-length rest in
      rw (
        word,
        whole,
        store-append done rest block (i * size) (sym e) (omega arith),
        none_left,
        append-nil,
      )

  grown :
      (done : Bytes) (i : ℕ)
      → length done ≡ (i + 1) * size
      → (i + 2) * size < 2 ^ 32
      → (rest : Bytes) × (realloc mem done ((i + 2) * size % 2 ^ 32) ≡ done ++ rest)
        × (length rest ≡ size)
  grown done i e bound =
      let word : (i + 2) * size % 2 ^ 32 ≡ (i + 2) * size = omega arith in
      let more : (i + 2) * size ≡ (i + 1) * size + size = grind arith in
      let (rest, same_block, n) = realloc-prefix mem done [] ((i + 2) * size) (omega arith) in
      (
        rest,
        ap (realloc mem done) word ∙ (rw append-nil at same_block),
        omega (arith, length-append done rest),
      )

  ends :
      (done block : Bytes) (n : ℕ)
      → IsFull size block
      → length (done ++ block) ≡ n
      → n < 2 ^ 32
      → contains_padding (done ++ block) n ≡ ok false
  ends done block n (s, x, shape, end, whole) e bound =
      let other : (x == pad) ≡ false = ground arith in
      let regroup : done ++ block ≡ (done ++ s) ++ x ∷ [] =
        ap (λ z. done ++ z) shape ∙ sym (append_assoc done s (x ∷ [])) in
      ap (λ z. contains_padding z n) regroup
      ∙ contains_padding-last (done ++ s) [] x n
          (omega (arith, ap length regroup, length-append (done ++ s) (x ∷ []))) bound
      ∙ ap ok other

  -- Full blocks are read behind one another, up to the last.
  pub read_chunks-full :
      (blocks : List Bytes) (done rest : Bytes) (i : ℕ) (reads : List Bytes)
      → All (IsFull size) blocks
      → 0 < size
      → length done ≡ i * size
      → length rest ≡ size
      → (i + length blocks + 1) * size < 2 ^ 32
      → (rest' : Bytes) × (read_chunks mem size (done ++ rest) i (blocks ++ reads)
          ≡ read_chunks mem size ((done ++ concat blocks) ++ rest') (i + length blocks) reads)
        × (length (done ++ concat blocks) ≡ (i + length blocks) * size)
        × (length rest' ≡ size)
  unfolding read_chunks
  read_chunks-full [] done rest i reads full pos e f bound =
      let same_buffer : done ≡ done ++ [] = sym (append-nil done) in
      let same_index : i ≡ i + 0 = omega arith in
      (
        rest,
        subst₂
            (λ z n.
              read_chunks mem size (done ++ rest) i reads
              ≡ read_chunks mem size (z ++ rest) n reads)
            same_buffer same_index refl,
        ap length (append-nil done) ∙ e ∙ ap (λ n. n * size) same_index,
        f,
      )
  read_chunks-full (b ∷ blocks) done rest i reads (full, others) pos e f bound =
      let here : (i + 2) * size < 2 ^ 32 = grind arith in
      let filled_here : (i + 1) * size < 2 ^ 32 = grind arith in
      let before : i * size < 2 ^ 32 = grind arith in
      let after : (i + 1 + length blocks + 1) * size < 2 ^ 32 = grind arith in
      let (s, x, shape, end, whole) = full in
      let filled : length (done ++ b) ≡ (i + 1) * size = length-append done b ∙ grind arith in
      let (more, grows, room) = grown (done ++ b) i filled here in
      let (rest', read, size', room') =
        read_chunks-full blocks (done ++ b) more (i + 1) reads others pos filled room after in
      let some_bytes : (length b == 0) ≡ false = ground arith in
      let word : (i + 1) * size % 2 ^ 32 ≡ (i + 1) * size = omega arith in
      let last : contains_padding (done ++ b) ((i + 1) * size % 2 ^ 32) ≡ ok false =
        ap (contains_padding (done ++ b)) word
        ∙ ends done b ((i + 1) * size) full filled filled_here in
      let regroup : (done ++ b) ++ concat blocks ≡ done ++ (b ++ concat blocks) =
        append_assoc done b (concat blocks) in
      let count : i + 1 + length blocks ≡ i + suc (length blocks) = omega arith in
      (
        rest',
        rw (some_bytes, stored done rest b i e f whole before, last, grows)
            (read
              ∙ ap (λ z. read_chunks mem size (z ++ rest') (i + 1 + length blocks) reads) regroup
              ∙ ap (λ n. read_chunks mem size ((done ++ (b ++ concat blocks)) ++ rest') n reads)
                  count),
        subst₂ (λ z n. length z ≡ n * size) regroup count size',
        room',
      )

  pub read_chunks-nil :
      (buffer : Bytes) (i : ℕ) → read_chunks mem size buffer i [] ≡ ok (buffer, i + 1, false)
  unfolding read_chunks
  read_chunks-nil buffer i = refl

  -- A block that ends in padding is the last one read.
  pub read_chunks-last :
      (done rest block : Bytes) (i : ℕ) (reads : List Bytes)
      → length done ≡ i * size
      → length rest ≡ size
      → length block ≡ size
      → 0 < size
      → i * size < 2 ^ 32
      → contains_padding (done ++ block) ((i + 1) * size % 2 ^ 32) ≡ ok true
      → read_chunks mem size (done ++ rest) i (block ∷ reads) ≡ ok (done ++ block, i + 1, true)
  unfolding read_chunks
  read_chunks-last done rest block i reads e f h pos bound last =
      let some_bytes : (length block == 0) ≡ false = ground arith in
      rw (some_bytes, stored done rest block i e f h bound, last)

  pub concat-ends :
      (b : Bytes) (blocks : List Bytes)
      → All (IsFull size) (b ∷ blocks)
      → (s : Bytes) × (x : ℕ) × (concat (b ∷ blocks) ≡ s ++ x ∷ []) × (x ≢ pad)
  concat-ends b [] ((s, x, shape, end, whole), others) = (s, x, append-nil b ∙ shape, end)
  concat-ends b (c ∷ blocks) (full, others) =
      let (s, x, shape, end) = concat-ends c blocks others in
      (b ++ s, x, ap (λ z. b ++ z) shape ∙ sym (append_assoc b s (x ∷ [])), end)
