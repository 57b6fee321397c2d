-- ===== src/Packet/Wire.antt =====
-- What goes over the wire comes back: p_encode and p_decode of lib/PP/packet.c.
use pekar_drive.Common.{
  ℕ, ◌+◌, ◌%◌, ◌^◌, ◌<◌, ◌≤◌, ◌≡◌, refl, sym, subst, ◌∙◌, [], ◌++◌, append_assoc, length, take,
  drop, length-append, length-take, arith,
}
use pekar_drive.Result.{ok}
use pekar_drive.Memory.{Bytes, Memory, load, load-append, load-take, store_next}
use pekar_drive.Memory.Words.{le_bytes, le_value, length-le_bytes, le_value-le_bytes}
use pekar_drive.Packet.{
  MsgType, ping, other, type_code, type_of_code, Packet, p_encode, p_decode, IsType, IsValid,
  header_size,
}

type_of_code-type_code : (t : MsgType) → IsType t → type_of_code (type_code t) ≡ t
unfolding type_of_code type_code
type_of_code-type_code (other n) h = ground arith
type_of_code-type_code ping h = refl
type_of_code-type_code _ h = refl

type_code-lt : (t : MsgType) → IsType t → type_code t < 2 ^ 32
unfolding type_code
type_code-lt (other n) h = h.1
type_code-lt ping h = omega arith
type_code-lt _ h = omega arith

-- The bytes of a packet in the order of the wire.
abbrev pub wire : Packet → Bytes
wire p =
    le_bytes 4 p.seq_number
    ++ (le_bytes 4 p.msg_len
        ++ (le_bytes 4 (type_code p.msg_type)
            ++ (le_bytes 2 p.error ++ (le_bytes 8 p.token ++ take p.msg_len p.arg))))

pub length-wire :
    (p : Packet) → p.msg_len ≤ length p.arg → length (wire p) ≡ header_size + p.msg_len
unfolding le_bytes
length-wire p h = omega (arith, length-take p.msg_len p.arg h)

abbrev pub block_size : Packet → ℕ
block_size p = (p.msg_len + 1) % 2 ^ 32 + header_size

-- The buffer is the wire form, and one more byte that is never set.
pub p_encode-wire :
    (mem : Memory) (p : Packet)
    → IsValid p
    → p_encode mem p ≡ ok (wire p ++ drop (header_size + p.msg_len) (mem.malloc (block_size p)))
unfolding p_encode
p_encode-wire mem p v =
    let buf : Bytes = mem.malloc (block_size p) in
    let room : length buf ≡ p.msg_len + 23 =
      mem.length-malloc (block_size p) ∙ omega (arith, v.msg_len) in
    let b1 = le_bytes 4 p.seq_number in
    let b2 = le_bytes 4 p.msg_len in
    let b3 = le_bytes 4 (type_code p.msg_type) in
    let b4 = le_bytes 2 p.error in
    let b5 = le_bytes 8 p.token in
    let arg = take p.msg_len p.arg in
    let l1 : length b1 ≡ 4 = length-le_bytes 4 p.seq_number in
    let l2 : length (b1 ++ b2) ≡ 8 =
      length-append b1 b2 ∙ omega (arith, length-le_bytes 4 p.msg_len) in
    let l3 : length ((b1 ++ b2) ++ b3) ≡ 12 =
      length-append (b1 ++ b2) b3 ∙ omega (arith, length-le_bytes 4 (type_code p.msg_type)) in
    let l4 : length (((b1 ++ b2) ++ b3) ++ b4) ≡ 14 =
      length-append ((b1 ++ b2) ++ b3) b4 ∙ omega (arith, length-le_bytes 2 p.error) in
    let l5 : length ((((b1 ++ b2) ++ b3) ++ b4) ++ b5) ≡ 22 =
      length-append (((b1 ++ b2) ++ b3) ++ b4) b5 ∙ omega (arith, length-le_bytes 8 p.token) in
    rw
      (
        store_next buf [] b1 4 0 refl (sym l1) (omega arith),
        store_next buf b1 b2 4 4 (sym l1) (sym (length-le_bytes 4 p.msg_len)) (omega arith),
        store_next buf (b1 ++ b2) b3 4 8 (sym l2) (sym (length-le_bytes 4 (type_code p.msg_type)))
            (omega arith),
        store_next buf ((b1 ++ b2) ++ b3) b4 2 12 (sym l3) (sym (length-le_bytes 2 p.error))
            (omega arith),
        store_next buf (((b1 ++ b2) ++ b3) ++ b4) b5 8 14 (sym l4) (sym (length-le_bytes 8 p.token))
            (omega arith),
        load-take p.msg_len p.arg v.arg,
        store_next buf ((((b1 ++ b2) ++ b3) ++ b4) ++ b5) arg p.msg_len 22 (sym l5)
            (sym (length-take p.msg_len p.arg v.arg)) (omega arith),
      )
      (simp append_assoc)

pub p_decode-wire :
    (p : Packet) (rest : Bytes)
    → IsValid p
    → p_decode (wire p ++ rest) ≡ ok (record p { arg = take p.msg_len p.arg })
unfolding p_decode load le_bytes
p_decode-wire p rest v =
    let seq_eq : le_value (le_bytes 4 p.seq_number) ≡ p.seq_number =
      le_value-le_bytes 4 p.seq_number v.seq_number in
    let len_eq : le_value (le_bytes 4 p.msg_len) ≡ p.msg_len =
      le_value-le_bytes 4 p.msg_len (omega (arith, v.msg_len)) in
    let err_eq : le_value (le_bytes 2 p.error) ≡ p.error = le_value-le_bytes 2 p.error v.error in
    let tok_eq : le_value (le_bytes 8 p.token) ≡ p.token = le_value-le_bytes 8 p.token v.token in
    let type_eq : le_value (le_bytes 4 (type_code p.msg_type)) ≡ type_code p.msg_type =
      le_value-le_bytes 4 (type_code p.msg_type) (type_code-lt p.msg_type v.msg_type) in
    rw (
      len_eq,
      seq_eq,
      err_eq,
      tok_eq,
      type_eq,
      type_of_code-type_code p.msg_type v.msg_type,
      load_arg,
    )
  where
    load_arg : load p.msg_len (take p.msg_len p.arg ++ rest) ≡ ok (take p.msg_len p.arg)
    load_arg =
        subst (λ n. load n (take p.msg_len p.arg ++ rest) ≡ ok (take p.msg_len p.arg))
          (length-take p.msg_len p.arg v.arg) (load-append (take p.msg_len p.arg) rest)

-- A packet whose fields are in the range of their types, and whose argument has msg_len bytes, is
-- encoded, and decoded from the encoding with any bytes behind it to the same packet, with the
-- argument cut to its msg_len bytes.
pub decode-encode :
    (mem : Memory) (p : Packet)
    → IsValid p
    → (buffer : Bytes) × (p_encode mem p ≡ ok buffer)
      × ((more : Bytes) → p_decode (buffer ++ more) ≡ ok (record p { arg = take p.msg_len p.arg }))
decode-encode mem p v = (
  wire p ++ drop (header_size + p.msg_len) (mem.malloc (block_size p)),
  p_encode-wire mem p v,
  λ more.
      rw (append_assoc (wire p) (drop (header_size + p.msg_len) (mem.malloc (block_size p))) more)
        (p_decode-wire p _ v),
)
