-- ===== src/Transmission/Serializer/RoundTrip.antt =====
-- What transmission_serialize writes, transmission_deserialize reads.
use pekar_drive.Common.{
  ℕ, ◌+◌, ◌^◌, ◌<◌, ◌≡◌, refl, sym, ap, subst, ◌∙◌, Bool, true, false, some, [], ◌++◌, append_assoc,
  length, drop, length-append, drop-add, drop-append_length, not, ◌==◌, arith,
}
use pekar_drive.Result.{ok}
use pekar_drive.Memory.{Bytes, Memory, load, load-append, store_next}
use pekar_drive.Memory.Words.{le_bytes, le_value, length-le_bytes, le_value-le_bytes}
use pekar_drive.Transmission.{Transmission, serialized_size}
use pekar_drive.Transmission.Serializer.{
  transmission_serialize, transmission_deserialize, flag, content_bytes,
}

-- The numbers are in the range of their C types, and the data has the size that the header says.
pub record IsValid (t : Transmission) (d : Bytes) : Type 0 where
  pub content : t.content ≡ some d
  pub length : length d ≡ t.bytes
  pub bytes : t.bytes < 2 ^ 64
  pub chunk_size : t.chunk_size < 2 ^ 32
  pub error_len : t.error_len < 2 ^ 64
  pub fd : t.connection.fd < 2 ^ 32
  pub max_bytes : t.connection.max_bytes < 2 ^ 64

-- The serialization in front of the data, and behind it.
abbrev head : Transmission → Bytes
head t =
    le_bytes 8 t.bytes
    ++ (le_bytes 4 t.chunk_size
        ++ (le_bytes 1 (flag t.is_open) ++ (le_bytes 1 (flag t.error) ++ le_bytes 8 t.error_len)))

abbrev tail : Transmission → Bytes
tail t =
    le_bytes 2 (flag t.connection.error)
    ++ (le_bytes 4 t.connection.fd ++ le_bytes 8 t.connection.max_bytes)

length-head : (t : Transmission) → length (head t) ≡ 22
unfolding le_bytes
length-head t = omega arith

content_bytes_lem :
    (mem : Memory) (t : Transmission) (d : Bytes)
    → IsValid t d
    → content_bytes mem t.content t.bytes ≡ ok d
content_bytes_lem mem t d v =
    ap (λ c. content_bytes mem c t.bytes) v.content
    ∙ subst (λ n. load n (d ++ mem.behind) ≡ ok d) v.length (load-append d mem.behind)

pub serialize_lem :
    (mem : Memory) (t : Transmission) (d : Bytes)
    → IsValid t d
    → transmission_serialize mem t
      ≡ ok (
          (head t ++ (d ++ tail t)) ++ drop (36 + t.bytes) (mem.malloc (serialized_size + t.bytes)))
unfolding transmission_serialize
serialize_lem mem t d v =
    let n = t.bytes in
    let buf = mem.malloc (serialized_size + n) in
    let room : length buf ≡ 72 + n = mem.length-malloc (serialized_size + n) in
    let b1 = le_bytes 8 n in
    let b2 = le_bytes 4 t.chunk_size in
    let b3 = le_bytes 1 (flag t.is_open) in
    let b4 = le_bytes 1 (flag t.error) in
    let b5 = le_bytes 8 t.error_len in
    let b6 = le_bytes 2 (flag t.connection.error) in
    let b7 = le_bytes 4 t.connection.fd in
    let b8 = le_bytes 8 t.connection.max_bytes in
    let size = v.length in
    let l1 : length b1 ≡ 8 = length-le_bytes 8 n in
    let l2 : length (b1 ++ b2) ≡ 12 =
      length-append b1 b2 ∙ omega (arith, length-le_bytes 4 t.chunk_size) in
    let l3 : length ((b1 ++ b2) ++ b3) ≡ 13 =
      length-append (b1 ++ b2) b3 ∙ omega (arith, length-le_bytes 1 (flag t.is_open)) in
    let l4 : length (((b1 ++ b2) ++ b3) ++ b4) ≡ 14 =
      length-append ((b1 ++ b2) ++ b3) b4 ∙ omega (arith, length-le_bytes 1 (flag t.error)) in
    let h = (((b1 ++ b2) ++ b3) ++ b4) ++ b5 in
    let l5 : length h ≡ 22 =
      length-append (((b1 ++ b2) ++ b3) ++ b4) b5 ∙ omega (arith, length-le_bytes 8 t.error_len) in
    let l6 : length (h ++ d) ≡ 22 + n = length-append h d ∙ omega arith in
    let l7 : length ((h ++ d) ++ b6) ≡ 24 + n =
      length-append (h ++ d) b6 ∙ omega (arith, length-le_bytes 2 (flag t.connection.error)) in
    let l8 : length (((h ++ d) ++ b6) ++ b7) ≡ 28 + n =
      length-append ((h ++ d) ++ b6) b7 ∙ omega (arith, length-le_bytes 4 t.connection.fd) in
    let e6 : 22 + n + 2 ≡ 24 + n = omega arith in
    let e7 : 24 + n + 4 ≡ 28 + n = omega arith in
    let e8 : 28 + n + 8 ≡ 36 + n = omega arith in
    rw
      (
        store_next buf [] b1 8 0 refl (sym l1) (omega arith),
        store_next buf b1 b2 4 8 (sym l1) (sym (length-le_bytes 4 t.chunk_size)) (omega arith),
        store_next buf (b1 ++ b2) b3 1 12 (sym l2) (sym (length-le_bytes 1 (flag t.is_open)))
            (omega arith),
        store_next buf ((b1 ++ b2) ++ b3) b4 1 13 (sym l3) (sym (length-le_bytes 1 (flag t.error)))
            (omega arith),
        store_next buf (((b1 ++ b2) ++ b3) ++ b4) b5 8 14 (sym l4)
            (sym (length-le_bytes 8 t.error_len)) (omega arith),
        content_bytes_lem mem t d v,
        store_next buf h d n 22 (sym l5) (sym size) (omega arith),
        store_next buf (h ++ d) b6 2 (22 + n) (sym l6)
            (sym (length-le_bytes 2 (flag t.connection.error))) (omega arith),
        e6,
        store_next buf ((h ++ d) ++ b6) b7 4 (24 + n) (sym l7)
            (sym (length-le_bytes 4 t.connection.fd)) (omega arith),
        e7,
        store_next buf (((h ++ d) ++ b6) ++ b7) b8 8 (28 + n) (sym l8)
            (sym (length-le_bytes 8 t.connection.max_bytes)) (omega arith),
        e8,
      )
      (simp append_assoc)

flag_bound : (b : Bool) → flag b < 256
flag_bound true = omega arith
flag_bound false = omega arith

flag_test : (b : Bool) → not (flag b == 0) ≡ b
flag_test true = refl
flag_test false = refl

flag_back : (k : ℕ) (b : Bool) → flag b < 256 ^ k → not (le_value (le_bytes k (flag b)) == 0) ≡ b
flag_back k b h = ap (λ n. not (n == 0)) (le_value-le_bytes k (flag b) h) ∙ flag_test b

module _ (t : Transmission) (d more : Bytes) (v : IsValid t d) where
  abbrev image : Bytes
  image = (head t ++ (d ++ tail t)) ++ more

  load_bytes : load 8 image ≡ ok (le_bytes 8 t.bytes)
  unfolding load le_bytes
  load_bytes = refl

  load_chunk_size : load 4 (drop 8 image) ≡ ok (le_bytes 4 t.chunk_size)
  unfolding load le_bytes
  load_chunk_size = refl

  load_is_open : load 1 (drop 12 image) ≡ ok (le_bytes 1 (flag t.is_open))
  unfolding load le_bytes
  load_is_open = refl

  load_error : load 1 (drop 13 image) ≡ ok (le_bytes 1 (flag t.error))
  unfolding load le_bytes
  load_error = refl

  load_error_len : load 8 (drop 14 image) ≡ ok (le_bytes 8 t.error_len)
  unfolding load le_bytes
  load_error_len = refl

  drop_head : drop 22 image ≡ d ++ (tail t ++ more)
  unfolding le_bytes
  drop_head = append_assoc d (tail t) more

  load_content : load t.bytes (drop 22 image) ≡ ok d
  load_content =
      rw drop_head (
        subst (λ n. load n (d ++ (tail t ++ more)) ≡ ok d) v.length
          (load-append d (tail t ++ more)))

  drop_content : (i k : ℕ) → i ≡ 22 + (t.bytes + k) → drop i image ≡ drop k (tail t ++ more)
  drop_content i k e =
      ap (λ j. drop j image) e
      ∙ drop-add 22 (t.bytes + k) image
      ∙ ap (drop (t.bytes + k)) drop_head
      ∙ drop-add t.bytes k (d ++ (tail t ++ more))
      ∙ ap (drop k) (
          subst (λ n. drop n (d ++ (tail t ++ more)) ≡ tail t ++ more) v.length
            (drop-append_length d (tail t ++ more)))

  load_conn_error : load 2 (drop (22 + t.bytes) image) ≡ ok (le_bytes 2 (flag t.connection.error))
  unfolding load le_bytes
  load_conn_error = ap (load 2) (drop_content (22 + t.bytes) 0 (omega arith))

  load_fd : load 4 (drop (24 + t.bytes) image) ≡ ok (le_bytes 4 t.connection.fd)
  unfolding load le_bytes
  load_fd = ap (load 4) (drop_content (24 + t.bytes) 2 (omega arith))

  load_max_bytes : load 8 (drop (28 + t.bytes) image) ≡ ok (le_bytes 8 t.connection.max_bytes)
  unfolding load le_bytes
  load_max_bytes = ap (load 8) (drop_content (28 + t.bytes) 6 (omega arith))

  pub deserialize_lem :
      (old : Transmission)
      → transmission_deserialize old image
        ≡ ok (record t {
          content = some d;
          err_msg = old.err_msg;
          connection = record t.connection { error_msg = old.connection.error_msg };
          read_used = old.read_used;
          write_used = old.write_used;
        })
  unfolding transmission_deserialize
  deserialize_lem old =
      let e1 : le_value (le_bytes 8 t.bytes) ≡ t.bytes = le_value-le_bytes 8 t.bytes v.bytes in
      let e2 : le_value (le_bytes 4 t.chunk_size) ≡ t.chunk_size =
        le_value-le_bytes 4 t.chunk_size v.chunk_size in
      let e3 : le_value (le_bytes 8 t.error_len) ≡ t.error_len =
        le_value-le_bytes 8 t.error_len v.error_len in
      let e4 : le_value (le_bytes 4 t.connection.fd) ≡ t.connection.fd =
        le_value-le_bytes 4 t.connection.fd v.fd in
      let e5 : le_value (le_bytes 8 t.connection.max_bytes) ≡ t.connection.max_bytes =
        le_value-le_bytes 8 t.connection.max_bytes v.max_bytes in
      let e6 = flag_back 1 t.is_open (omega (arith, flag_bound t.is_open)) in
      let e7 = flag_back 1 t.error (omega (arith, flag_bound t.error)) in
      let e8 = flag_back 2 t.connection.error (omega (arith, flag_bound t.connection.error)) in
      rw (
        load_bytes, load_chunk_size, load_is_open, load_error, load_error_len, e1, load_content,
        load_conn_error, load_fd, load_max_bytes, e2, e3, e4, e5, e6, e7, e8,
      )

-- An instance with data of the size in its header, whose numbers are in the range of their types,
-- is serialized, and deserialized from that with any bytes behind it to an instance with the same
-- data and fields; only the messages and the two marks of use are those that the new instance had.
pub deserialize-serialize :
    (mem : Memory) (t old : Transmission) (d : Bytes)
    → IsValid t d
    → (serialization : Bytes) × (transmission_serialize mem t ≡ ok serialization)
      × ((more : Bytes)
          → transmission_deserialize old (serialization ++ more)
            ≡ ok (record t {
              content = some d;
              err_msg = old.err_msg;
              connection = record t.connection { error_msg = old.connection.error_msg };
              read_used = old.read_used;
              write_used = old.write_used;
            }))
deserialize-serialize mem t old d v =
    let behind = drop (36 + t.bytes) (mem.malloc (serialized_size + t.bytes)) in
    (
      _,
      serialize_lem mem t d v,
      λ more.
          ap (transmission_deserialize old) (append_assoc (head t ++ (d ++ tail t)) behind more)
          ∙ deserialize_lem t d (behind ++ more) v old,
    )
