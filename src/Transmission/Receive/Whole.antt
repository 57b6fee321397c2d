-- ===== src/Transmission/Receive/Whole.antt =====
-- What receive of lib/PP/transmission.c makes of the blocks that arrive.
use pekar_drive.Common.{
  ℕ, suc, ◌+◌, ◌-◌, ◌*◌, ◌%◌, ◌^◌, ◌<◌, ◌≡◌, ◌≢◌, refl, sym, ap, subst, subst₂, ◌∙◌, Bool, true,
  false, not, some, List, [], ◌∷◌, ◌++◌, append_assoc, append-nil, concat, length, replicate, All,
  length-append, length-replicate, ◌==◌, ◌&&◌, if◌then◌else◌, arith,
}
use native.Mathlib.Nat.{mul_comm}
use pekar_drive.Result.{ok}
use pekar_drive.Memory.{Bytes, Memory, load, load-append}
use pekar_drive.Transmission.{Transmission, pad}
use pekar_drive.Transmission.Receive.{
  read_chunks, receive, receive_all, trim_padding, contains_padding,
}
use pekar_drive.Transmission.Receive.Trim.{
  replicate_end, trim_padding-ends, trim_padding-replicate, contains_padding-last,
}
use pekar_drive.Transmission.Receive.Blocks.{
  IsFull, read_chunks-full, read_chunks-nil, read_chunks-last, concat-ends,
}

module _ (mem : Memory) (t : Transmission) (unused : t.read_used ≡ false) (sound : t.error ≡ false)
    (opened : t.is_open ≡ true) (pos : 0 < t.chunk_size) where
  -- Behind the tests, from what was read and the size that is left of it.
  finish :
      (reads : List Bytes) (buffer d behind : Bytes) (i : ℕ) (some_bytes : Bool)
      → read_chunks mem t.chunk_size (mem.malloc t.chunk_size) 0 reads ≡ ok (buffer, i, some_bytes)
      → (i % 2 ^ 32 == 1 && not some_bytes) ≡ false
      → trim_padding buffer (t.chunk_size * (if some_bytes then i else i - 1) % 2 ^ 32)
        ≡ ok (length d)
      → buffer ≡ d ++ behind
      → receive mem t reads
        ≡ ok (true, record t { content = some d; bytes = length d; read_used = true })
  unfolding receive receive_all
  finish reads buffer d behind i some_bytes read several trimmed split =
      let loaded : load (length d) buffer ≡ ok d =
        ap (load (length d)) split ∙ load-append d behind in
      simp (unused, sound, opened, read, several, trimmed, loaded)

  -- receive of blocks of a chunk that do not end in padding gives the bytes of all of them. The
  -- instance must be open, without an error and not used for reading, its chunk size not 0, and all
  -- blocks and one more below 2^32 bytes.
  pub receive-full :
      (b : Bytes) (blocks : List Bytes)
      → All (IsFull t.chunk_size) (b ∷ blocks)
      → (length (b ∷ blocks) + 1) * t.chunk_size < 2 ^ 32
      → receive mem t (b ∷ blocks)
        ≡ ok (
          true,
          record t {
            content = some (concat (b ∷ blocks));
            bytes = length (concat (b ∷ blocks));
            read_used = true;
          },
        )
  receive-full b blocks full bound =
      let size = t.chunk_size in
      let (rest, read, whole, room) =
        read_chunks-full mem size (b ∷ blocks) [] (mem.malloc size) 0 [] full pos (grind arith)
          (mem.length-malloc size) (grind arith) in
      let d = concat (b ∷ blocks) in
      let (s, x, shape, end) = concat-ends mem size b blocks full in
      let n = 0 + length (b ∷ blocks) in
      let count : size * (n + 1 - 1) ≡ length d =
        ap (λ k. size * k) (omega arith) ∙ mul_comm size n ∙ sym whole in
      let small : n * size < 2 ^ 32 = grind arith in
      let few : length (b ∷ blocks) + 1 < 2 ^ 32 = grind arith in
      let word : size * (n + 1 - 1) % 2 ^ 32 ≡ size * (n + 1 - 1) =
        omega (arith, count, whole, small) in
      let several : (n + 1) % 2 ^ 32 ≢ 1 = omega (arith, few) in
      let last : length d ≡ length s + 1 = ap length shape ∙ length-append s (x ∷ []) in
      let split : d ++ rest ≡ s ++ x ∷ rest =
        ap (λ z. z ++ rest) shape ∙ append_assoc s (x ∷ []) rest in
      let trimmed : trim_padding (d ++ rest) (size * (n + 1 - 1) % 2 ^ 32) ≡ ok (length d) =
        ap (trim_padding (d ++ rest)) word
        ∙ subst₂ (λ z k. trim_padding z k ≡ ok (length d)) (sym split) (sym (count ∙ last))
            (subst (λ k. trim_padding (s ++ x ∷ rest) (length s + 1) ≡ ok k) (sym last)
              (trim_padding-ends s rest x end)) in
      let all_read : read_chunks mem size (mem.malloc size) 0 (b ∷ blocks)
          ≡ ok (d ++ rest, n + 1, false) =
        ap (read_chunks mem size (mem.malloc size) 0) (sym (append-nil (b ∷ blocks)))
        ∙ read
        ∙ read_chunks-nil mem size (d ++ rest) n in
      finish (b ∷ blocks) (d ++ rest) d rest (n + 1) false all_read (ground arith) trimmed refl

  -- receive of blocks of a chunk that do not end in padding, and then a block of a chunk that does,
  -- gives the bytes of all blocks without the padding at the end, and reads no further. The last
  -- block must hold a byte that is no padding, and the instance must be open, without an error and
  -- not used for reading, with a chunk size above 0, and all these blocks below 2^32 bytes
  -- together.
  pub receive-padded :
      (blocks reads : List Bytes) (s : Bytes) (x k : ℕ)
      → All (IsFull t.chunk_size) blocks
      → x ≢ pad
      → length s + 1 + suc k ≡ t.chunk_size
      → (length blocks + 1) * t.chunk_size < 2 ^ 32
      → receive mem t (blocks ++ (s ++ x ∷ replicate (suc k) pad) ∷ reads)
        ≡ ok (
          true,
          record t {
            content = some (concat blocks ++ s ++ x ∷ []);
            bytes = length (concat blocks ++ s ++ x ∷ []);
            read_used = true;
          },
        )
  receive-padded blocks reads s x k full end e bound =
      let size = t.chunk_size in
      let block = s ++ x ∷ replicate (suc k) pad in
      let (rest, read, whole, room) =
        read_chunks-full mem size blocks [] (mem.malloc size) 0 (block ∷ reads) full pos
          (grind arith) (mem.length-malloc size) (grind arith) in
      let done = concat blocks in
      let n = 0 + length blocks in
      let d = done ++ s ++ x ∷ [] in
      let front = done ++ s in
      let size_block : length block ≡ size =
        length-append s (x ∷ replicate (suc k) pad) ∙ omega (arith, length-replicate (suc k) pad) in
      let length_front : length front ≡ length done + length s = length-append done s in
      let length_d : length d ≡ length front + 1 = length-append front (x ∷ []) in
      let split : done ++ block ≡ front ++ (x ∷ (replicate (suc k) pad ++ [])) =
        sym (append_assoc done s (x ∷ replicate (suc k) pad))
        ∙ ap (λ z. front ++ x ∷ z) (sym (append-nil (replicate (suc k) pad))) in
      let total : size * (n + 1) ≡ length front + 1 + suc k =
        grind (arith, whole, e, length_front) in
      let word : size * (n + 1) % 2 ^ 32 ≡ size * (n + 1) = grind arith in
      let word' : (n + 1) * size % 2 ^ 32 ≡ (n + 1) * size = grind arith in
      let trimmed : trim_padding (done ++ block) (size * (n + 1) % 2 ^ 32) ≡ ok (length d) =
        ap (trim_padding (done ++ block)) word
        ∙ subst₂ (λ z m. trim_padding z m ≡ ok (length d)) (sym split) (sym total)
            (subst
              (λ m.
                trim_padding (front ++ (x ∷ (replicate (suc k) pad ++ [])))
                  (length front + 1 + suc k)
                ≡ ok m)
              (sym length_d) (trim_padding-replicate (suc k) front [] x end)) in
      let padded : done ++ block ≡ (front ++ x ∷ replicate k pad) ++ pad ∷ [] =
        sym (append_assoc done s (x ∷ replicate (suc k) pad))
        ∙ ap (λ z. front ++ x ∷ z) (replicate_end k)
        ∙ sym (append_assoc front (x ∷ replicate k pad) (pad ∷ [])) in
      let last : contains_padding (done ++ block) ((n + 1) * size % 2 ^ 32) ≡ ok true =
        ap (contains_padding (done ++ block)) word'
        ∙ ap (λ z. contains_padding z ((n + 1) * size)) padded
        ∙ contains_padding-last (front ++ x ∷ replicate k pad) [] pad ((n + 1) * size)
            (omega (
              arith,
              length-append front (x ∷ replicate k pad),
              length-replicate k pad,
              total,
              mul_comm size (n + 1),
            ))
            (grind arith) in
      let ends_with : done ++ block ≡ d ++ replicate (suc k) pad =
        sym (append_assoc done s (x ∷ replicate (suc k) pad))
        ∙ sym (append_assoc front (x ∷ []) (replicate (suc k) pad)) in
      let all_read : read_chunks mem size (mem.malloc size) 0 (blocks ++ block ∷ reads)
          ≡ ok (done ++ block, n + 1, true) =
        read
        ∙ read_chunks-last mem size done rest block n reads whole room size_block pos (grind arith)
            last in
      finish (blocks ++ block ∷ reads) (done ++ block) d (replicate (suc k) pad) (n + 1) true
        all_read (ground arith) trimmed ends_with
