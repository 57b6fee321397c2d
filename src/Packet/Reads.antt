-- ===== src/Packet/Reads.antt =====
-- What p_decode of lib/PP/packet.c reads, on any bytes.
use pekar_drive.Common.{◌+◌, ◌≤◌, ◌≡◌, sym, ap, ◌∙◌, length, take, drop, length-drop, arith}
use pekar_drive.Result.{ok, >>=-eq-ok, ok-injective}
use pekar_drive.Memory.{Bytes, load, load-take, length-load, load-eq-take}
use pekar_drive.Memory.Words.{le_value}
use pekar_drive.Packet.{Packet, type_of_code, p_decode, header_size}

reads :
    (m len tok arg : Bytes) (q : Packet)
    → load 4 (drop 4 m) ≡ ok len
    → load 8 (drop 14 m) ≡ ok tok
    → load (le_value len) (drop 22 m) ≡ ok arg
    → le_value len ≡ q.msg_len
    → arg ≡ q.arg
    → (header_size + q.msg_len ≤ length m)
      × (q.arg ≡ take q.msg_len (drop header_size m))
      × (q.msg_len ≡ le_value (take 4 (drop 4 m)))
reads m len tok arg q e2 e5 e6 el ea = (
  omega (
    arith,
    length-load (le_value len) (drop 22 m) e6,
    length-load 8 (drop 14 m) e5,
    length-drop 22 m,
    length-drop 14 m,
  ),
  sym ea ∙ load-eq-take (le_value len) (drop 22 m) e6 ∙ ap (λ n. take n (drop 22 m)) el,
  sym el ∙ ap le_value (load-eq-take 4 (drop 4 m) e2),
)

-- Whatever the bytes are, if p_decode succeeds, then the header and the argument lie inside them,
-- the argument is the msg_len bytes behind the header, and msg_len is the number at offset 4.
pub decode_reads :
    (m : Bytes) (q : Packet)
    → p_decode m ≡ ok q
    → (header_size + q.msg_len ≤ length m)
      × (q.arg ≡ take q.msg_len (drop header_size m))
      × (q.msg_len ≡ le_value (take 4 (drop 4 m)))
unfolding p_decode
decode_reads m q h =
    let (seq, _, h1) = >>=-eq-ok (load 4 m) _ h in
    let (len, e2, h2) = >>=-eq-ok (load 4 (drop 4 m)) _ h1 in
    let (ty, _, h3) = >>=-eq-ok (load 4 (drop 8 m)) _ h2 in
    let (er, _, h4) = >>=-eq-ok (load 2 (drop 12 m)) _ h3 in
    let (tok, e5, h5) = >>=-eq-ok (load 8 (drop 14 m)) _ h4 in
    let (arg, e6, h6) = >>=-eq-ok (load (le_value len) (drop 22 m)) _ h5 in
    reads m len tok arg q e2 e5 e6 (ap Packet.msg_len (ok-injective h6))
      (ap Packet.arg (ok-injective h6))

-- p_decode succeeds on all bytes that hold the header and as many bytes behind it as the header
-- announces, and reads the fields at their offsets.
pub decode_total :
    (m : Bytes)
    → header_size + le_value (take 4 (drop 4 m)) ≤ length m
    → p_decode m
      ≡ ok (record {
        seq_number = le_value (take 4 m);
        arg = take (le_value (take 4 (drop 4 m))) (drop header_size m);
        msg_len = le_value (take 4 (drop 4 m));
        error = le_value (take 2 (drop 12 m));
        token = le_value (take 8 (drop 14 m));
        msg_type = type_of_code (le_value (take 4 (drop 8 m)));
      })
unfolding p_decode
decode_total m h = rw (
  load-take 4 m (omega arith),
  load-take 4 (drop 4 m) (omega (arith, length-drop 4 m)),
  load-take 4 (drop 8 m) (omega (arith, length-drop 8 m)),
  load-take 2 (drop 12 m) (omega (arith, length-drop 12 m)),
  load-take 8 (drop 14 m) (omega (arith, length-drop 14 m)),
  load-take (le_value (take 4 (drop 4 m))) (drop 22 m) (omega (arith, length-drop 22 m)),
)
