-- ===== src/Transmission/Exchange.antt =====
-- A sender and a receiver of lib/PP/transmission.c with the same chunk size.
use pekar_drive.Common.{
  ℕ, zero, suc, ◌+◌, ◌-◌, ◌*◌, ◌/◌, ◌%◌, ◌^◌, ◌<◌, ◌≤◌, ◌≡◌, ◌≢◌, refl, sym, ap, subst, ◌∙◌, true,
  false, some, List, [], ◌∷◌, ◌++◌, append_assoc, concat, map, length, take, drop, replicate, All,
  length-append, length-take, length-drop, length-replicate, arith,
}
use native.Mathlib.Nat.{div-add-mod', mul-le-mul_left, mod-lt}
use pekar_drive.Result.{ok}
use pekar_drive.Memory.{Bytes, Memory}
use pekar_drive.Transmission.{Transmission, pad, serialized_size}
use pekar_drive.Transmission.Transmit.{transmit}
use pekar_drive.Transmission.Transmit.Chunks.{frames, IsSendable, transmit-frames}
use pekar_drive.Transmission.Receive.{receive}
use pekar_drive.Transmission.Receive.Blocks.{IsFull}
use pekar_drive.Transmission.Receive.Whole.{receive-full}

length-frames : (size count : ℕ) (d : Bytes) → length (frames size count d) ≡ count + 1
length-frames size zero d = refl
length-frames size (suc count) d = ap suc (length-frames size count (drop size d)) ∙ omega arith

length-concat :
    (size : ℕ) (blocks : List Bytes)
    → All (IsFull size) blocks
    → length (concat blocks) ≡ length blocks * size
length-concat size [] full = grind arith
length-concat size (b ∷ blocks) ((s, x, shape, end, whole), others) =
    length-append b (concat blocks) ∙ grind (arith, length-concat size blocks others, whole)

module _ (size : ℕ) (trailer s : Bytes) (x : ℕ) (shape : trailer ≡ s ++ x ∷ [])
    (end : x ≢ pad) where
  frame-IsFull :
      (frame : Bytes) → length frame ≡ size → IsFull (size + length trailer) (frame ++ trailer)
  frame-IsFull frame h = (
    frame ++ s,
    x,
    ap (λ z. frame ++ z) shape ∙ sym (append_assoc frame s (x ∷ [])),
    end,
    length-append frame trailer ∙ ap (λ n. n + length trailer) h,
  )

  -- Every frame has its size, and the trailer does not end in padding.
  frames-IsFull :
      (count : ℕ) (d : Bytes)
      → count * size ≤ length d
      → length d ≤ count * size + size
      → All (IsFull (size + length trailer)) (map (λ frame. frame ++ trailer) (frames size count d))
  frames-IsFull zero d low high =
      let none_left : zero * size ≡ 0 = grind arith in
      (
        frame-IsFull (d ++ replicate (size - length d) pad) (
            length-append d (replicate (size - length d) pad)
            ∙ omega (arith, length-replicate (size - length d) pad)),
        tt,
      )
  frames-IsFull (suc count) d low high =
      let one_more : suc count * size ≡ size + count * size = grind arith in
      let rest = length-drop size d in
      (
        frame-IsFull (take size d) (length-take size d (omega arith)),
        frames-IsFull count (drop size d) (omega arith) (omega arith),
      )

received :
    (mem : Memory) (r : Transmission) (size count : ℕ) (d trailer : Bytes)
    → r.read_used ≡ false
    → r.error ≡ false
    → r.is_open ≡ true
    → 0 < r.chunk_size
    → All (IsFull r.chunk_size) (map (λ frame. frame ++ trailer) (frames size count d))
    → (length (map (λ frame. frame ++ trailer) (frames size count d)) + 1) * r.chunk_size < 2 ^ 32
    → receive mem r (map (λ frame. frame ++ trailer) (frames size count d))
      ≡ ok (
        true,
        record r {
          content = some (concat (map (λ frame. frame ++ trailer) (frames size count d)));
          bytes = length (concat (map (λ frame. frame ++ trailer) (frames size count d)));
          read_used = true;
        },
      )
received mem r size zero d trailer unused sound opened pos full bound =
    receive-full mem r unused sound opened pos _ _ full bound
received mem r size (suc count) d trailer unused sound opened pos full bound =
    receive-full mem r unused sound opened pos _ _ full bound

length-map : {A B : Type 0} (f : A → B) (xs : List A) → length (map f xs) ≡ length xs
length-map f [] = refl
length-map f (x ∷ xs) = ap suc (length-map f xs)

-- What transmit sends, receive of an instance with the same chunk size takes whole, with the bytes
-- behind the blocks of the sender: more than the data, if the last of these bytes is not padding.
-- What is sent must stay a chunk below 2^32 bytes.
pub receive-transmit :
    (mem mem' : Memory) (chunk : ℕ) (t r : Transmission) (d s : Bytes) (x : ℕ)
    → IsSendable t
    → chunk < 2 ^ 16
    → serialized_size ≤ length mem.behind
    → take serialized_size mem.behind ≡ s ++ x ∷ []
    → x ≢ pad
    → t.content ≡ some d
    → length d ≡ t.bytes
    → t.bytes < 2 ^ 32
    → t.write_used ≡ false
    → t.error ≡ false
    → t.is_open ≡ true
    → r.read_used ≡ false
    → r.error ≡ false
    → r.is_open ≡ true
    → r.chunk_size ≡ t.chunk_size
    → (t.bytes / (t.chunk_size - serialized_size) + 2) * t.chunk_size < 2 ^ 32
    → (messages : List Bytes) × (transmit mem chunk t
        ≡ ok (true, messages, record t { write_used = true }))
      × (receive mem' r messages
          ≡ ok (
            true,
            record r {
              content = some (concat messages);
              bytes = length (concat messages);
              read_used = true;
            },
          ))
      × (length (concat messages) ≡ (t.bytes / (t.chunk_size - serialized_size) + 1) * t.chunk_size)
      × (t.bytes < length (concat messages))
receive-transmit mem mem' chunk t r d s x sendable c room shape end content whole b w e o unused
      sound opened same_size fits =
    let trailer = take serialized_size mem.behind in
    let size = t.chunk_size - serialized_size in
    let count = t.bytes / size in
    let messages = map (λ frame. frame ++ trailer) (frames size count d) in
    let divided : count * size + t.bytes % size ≡ length d =
      div-add-mod' t.bytes size ∙ sym whole in
    let below : t.bytes % size < size = mod-lt t.bytes (omega (arith, sendable.chunk_size)) in
    let full : All (IsFull (size + length trailer)) messages =
      frames-IsFull size trailer s x shape end count d (omega arith) (omega arith) in
    let chunk_size : size + length trailer ≡ t.chunk_size =
      omega (arith, sendable.chunk_size, length-take serialized_size mem.behind room) in
    let all_full : All (IsFull t.chunk_size) messages =
      subst (λ n. All (IsFull n) messages) chunk_size full in
    let length_messages : length messages ≡ count + 1 =
      length-map (λ frame. frame ++ trailer) (frames size count d) ∙ length-frames size count d in
    let total : length (concat messages) ≡ (count + 1) * t.chunk_size =
      length-concat t.chunk_size messages all_full ∙ ap (λ n. n * t.chunk_size) length_messages in
    let bound : (length messages + 1) * r.chunk_size < 2 ^ 32 =
      rw (length_messages, same_size) (grind arith) in
    let more : (count + 1) * size ≤ (count + 1) * t.chunk_size =
      mul-le-mul_left (count + 1) (omega (arith, sendable.chunk_size)) in
    let next : (count + 1) * size ≡ count * size + size = grind arith in
    let larger : t.bytes < length (concat messages) = omega (arith, total) in
    (
      messages,
      transmit-frames mem chunk t d sendable c room content whole b w e o,
      received mem' r size count d trailer unused sound opened (omega (arith, sendable.chunk_size))
          (subst (λ n. All (IsFull n) messages) (sym same_size) all_full) bound,
      total,
      larger,
    )
