-- ===== src/Transmission/Transmit/Chunks.antt =====
-- What transmit of lib/PP/transmission.c sends.
use pekar_drive.Common.{
  ℕ, zero, suc, ◌+◌, ◌-◌, ◌*◌, ◌/◌, ◌%◌, ◌^◌, ◌<◌, ◌≤◌, ◌≡◌, refl, sym, ap, subst, ◌∙◌, true, false,
  some, List, [], ◌∷◌, ◌++◌, map, append-nil, length, take, drop, replicate, length-append,
  length-take, length-drop, length-replicate, take_all, take-append_le, take-append_ge,
  drop-append_le, drop-add, ◌==◌, arith,
}
use native.Mathlib.Nat.{div-le_self, div-add-mod', mod-lt}
use pekar_drive.Result.{ok}
use pekar_drive.Memory.{Bytes, Memory, load-take, load, load_all}
use pekar_drive.Comm.{conn_write}
use pekar_drive.Transmission.{Transmission, pad, serialized_size, fresh, init_transmission}
use pekar_drive.Transmission.Serializer.RoundTrip.{IsValid, serialize_lem}
use pekar_drive.Transmission.Transmit.{
  fill_buffer, send_chunk, send_chunks, send_all, transmit, transmit_data,
}
use pekar_drive.Transmission.Transmit.Fill.{fill_buffer_lem}

-- The data in frames of one size, the last one filled with padding.
abbrev pub frames : ℕ → ℕ → Bytes → List Bytes
frames size zero d = (d ++ replicate (size - length d) pad) ∷ []
frames size (suc count) d = take size d ∷ frames size count (drop size d)

-- The numbers of an instance are in the range of their C types, and its chunk is larger than what is
-- serialized with it.
pub record IsSendable (t : Transmission) : Type 0 where
  pub chunk_size : serialized_size < t.chunk_size
  pub chunk_bound : t.chunk_size < 2 ^ 16
  pub fd : t.connection.fd < 2 ^ 32
  pub max_bytes : t.connection.max_bytes < 2 ^ 64

module _ (mem : Memory) (chunk : ℕ) (t : Transmission) (d : Bytes) (s : IsSendable t)
    (c : chunk < 2 ^ 16) (room : serialized_size ≤ length mem.behind) where
  -- The bytes behind a block that are sent with each frame.
  abbrev trailer : Bytes
  trailer = take serialized_size mem.behind

  abbrev data_size : ℕ
  data_size = t.chunk_size - serialized_size

  sent :
      (frame : Bytes)
      → length frame ≡ data_size
      → conn_write mem frame t.chunk_size ≡ ok (frame ++ trailer)
  unfolding conn_write
  sent frame h =
      let rest : t.chunk_size - length frame ≡ 72 = omega (arith, s.chunk_size) in
      load-take t.chunk_size (frame ++ mem.behind)
        (omega (arith, length-append frame mem.behind, s.chunk_size))
      ∙ ap ok (
          take-append_ge t.chunk_size frame mem.behind (omega arith)
          ∙ ap (λ n. frame ++ take n mem.behind) rest)

  fresh-IsValid :
      (frame : Bytes)
      → length frame ≡ data_size
      → IsValid (fresh chunk t.connection (some frame) data_size) frame
  fresh-IsValid frame h = record {
    content = refl;
    length = h;
    bytes = omega (arith, s.chunk_bound);
    chunk_size = omega arith;
    error_len = omega arith;
    fd = s.fd;
    max_bytes = s.max_bytes;
  }

  -- One frame: the buffer, the instance that is made for it and its serialization, and what is sent.
  send_chunk_lem :
      (i len : ℕ)
      → len ≤ data_size
      → i * data_size + len ≤ length d
      → length d < 2 ^ 32
      → send_chunk mem chunk t d data_size i len
        ≡ ok ((take len (drop (i * data_size) d) ++ replicate (data_size - len) pad) ++ trailer)
  unfolding send_chunk init_transmission
  send_chunk_lem i len h k b =
      let block = mem.malloc data_size in
      let size : length block ≡ data_size = mem.length-malloc data_size in
      let offset : i * data_size % 2 ^ 32 ≡ i * data_size = omega arith in
      let source = drop (i * data_size) (d ++ mem.behind) in
      let behind : source ≡ drop (i * data_size) d ++ mem.behind =
        drop-append_le (i * data_size) d mem.behind (omega arith) in
      let rest : length (drop (i * data_size) d) ≡ length d - i * data_size =
        length-drop (i * data_size) d in
      let start : take len source ≡ take len (drop (i * data_size) d) =
        ap (take len) behind
        ∙ take-append_le len (drop (i * data_size) d) mem.behind (omega arith) in
      let frame = take len (drop (i * data_size) d) ++ replicate (data_size - len) pad in
      let filled : fill_buffer block source data_size len ≡ ok frame =
        subst
          (λ n. fill_buffer block source n len ≡ ok (take len source ++ replicate (n - len) pad))
          size
          (fill_buffer_lem block source len (omega arith)
            (omega (arith, ap length behind, length-append (drop (i * data_size) d) mem.behind)))
        ∙ ap (λ x. ok (x ++ replicate (data_size - len) pad)) start in
      let whole : length frame ≡ data_size =
        length-append (take len (drop (i * data_size) d)) (replicate (data_size - len) pad)
        ∙ omega (
          arith,
          length-take len (drop (i * data_size) d) (omega arith),
          length-replicate (data_size - len) pad,
        ) in
      let copied : load data_size frame ≡ ok frame =
        subst (λ n. load n frame ≡ ok frame) whole (load_all frame) in
      rw (offset, filled, copied, serialize_lem mem _ frame (fresh-IsValid frame whole))
        (sent frame whole)

  next_offset : (i : ℕ) → (i + 1) * data_size ≡ i * data_size + data_size
  next_offset i = grind arith

  send_chunks-frames :
      (count i remaining : ℕ)
      → length d ≡ i * data_size + (count * data_size + remaining)
      → remaining < data_size
      → length d < 2 ^ 32
      → send_chunks mem chunk t d data_size count remaining i
        ≡ ok (map (λ frame. frame ++ trailer) (frames data_size count (drop (i * data_size) d)))
  unfolding send_chunks
  send_chunks-frames zero i remaining e h b =
      let none_left : zero * data_size ≡ 0 = grind arith in
      let rest : length (drop (i * data_size) d) ≡ remaining =
        length-drop (i * data_size) d ∙ omega arith in
      let whole : take remaining (drop (i * data_size) d) ≡ drop (i * data_size) d =
        take_all remaining (drop (i * data_size) d) (omega arith) in
      rw (send_chunk_lem i remaining (omega arith) (omega arith) b, whole, rest)
  send_chunks-frames (suc count) i remaining e h b =
      let one_more : suc count * data_size ≡ data_size + count * data_size = grind arith in
      let next : drop (i * data_size + data_size) d ≡ drop data_size (drop (i * data_size) d) =
        drop-add (i * data_size) data_size d in
      let full : data_size - data_size ≡ 0 = omega arith in
      let ih : send_chunks mem chunk t d data_size count remaining (i + 1)
          ≡ ok (
              map (λ frame. frame ++ trailer)
                (frames data_size count (drop data_size (drop (i * data_size) d)))) =
        send_chunks-frames count (i + 1) remaining (omega (arith, next_offset i)) h b
        ∙ ap (λ x. ok (map (λ frame. frame ++ trailer) (frames data_size count x)))
            (ap (λ n. drop n d) (next_offset i) ∙ next) in
      rw (
        send_chunk_lem i data_size (omega arith) (omega arith) b,
        full,
        append-nil (take data_size (drop (i * data_size) d)),
        ih,
      )

  -- transmit of an instance that is open, without an error and not yet used, whose data has the
  -- size in its header, below 2^32 bytes, sends the data in frames of chunk_size - 72 bytes, the
  -- last one filled with padding, each with the 72 bytes that lie behind its block, and marks the
  -- instance as used. The chunk size must be above 72, it and the global one below 2^16, 72 bytes
  -- readable behind a block, and descriptor and max_bytes in the range of their types.
  pub transmit-frames :
      t.content ≡ some d
      → length d ≡ t.bytes
      → t.bytes < 2 ^ 32
      → t.write_used ≡ false
      → t.error ≡ false
      → t.is_open ≡ true
      → transmit mem chunk t
        ≡ ok (
          true,
          map (λ frame. frame ++ trailer) (frames data_size (t.bytes / data_size) d),
          record t { write_used = true },
        )
  unfolding transmit transmit_data send_all
  transmit-frames content size b w e o =
      let n : (t.chunk_size + 2 ^ 32 - 72) % 2 ^ 32 ≡ data_size =
        omega (arith, s.chunk_size, s.chunk_bound) in
      let positive : (data_size == 0) ≡ false = ground (arith, s.chunk_size) in
      let word : t.bytes / data_size % 2 ^ 32 ≡ t.bytes / data_size =
        omega (arith, div-le_self t.bytes data_size) in
      let divided : length d
          ≡ 0 * data_size + (t.bytes / data_size * data_size + t.bytes % data_size) =
        size ∙ sym (div-add-mod' t.bytes data_size) ∙ grind arith in
      let frames_sent =
        send_chunks-frames (t.bytes / data_size) 0 (t.bytes % data_size) divided
          (mod-lt t.bytes (omega (arith, s.chunk_size))) (omega arith) in
      let start : 0 * data_size ≡ 0 = grind arith in
      simp (w, e, o, content, n, positive, word, frames_sent, start)
