-- ===== src/Packet/Args.antt =====
-- Packets made by p_init and p_error of lib/PP/packet.c, on their way through the wire.
use pekar_drive.Common.{
  ℕ, ◌+◌, ◌%◌, ◌^◌, ◌<◌, ◌≡◌, refl, [], ◌∷◌, ◌++◌, length, length-append, take-append_length, arith,
}
use pekar_drive.Result.{ok, err, out_of_bounds, ◌>>=◌}
use pekar_drive.Memory.{Bytes, Memory}
use pekar_drive.Memory.Strings.{text, IsText, text-append, text-unterminated}
use pekar_drive.Packet.{
  MsgType, Packet, p_init, p_error, attach_token, p_encode, p_decode, IsType, IsValid,
}
use pekar_drive.Packet.Wire.{decode-encode}

-- The packet that p_init makes of the string `s`.
abbrev pub packet_of : ℕ → Bytes → MsgType → ℕ → ℕ → Packet
packet_of seq s t error token = record {
  seq_number = seq;
  arg = s ++ 0 ∷ [];
  msg_len = length s;
  error = error;
  token = token;
  msg_type = t;
}

module _ (seq : ℕ) (s m : Bytes) (t : MsgType) (is_text : IsText s)
    (short : length s + 1 < 2 ^ 32) where
  word_len : length s % 2 ^ 32 ≡ length s
  word_len = omega arith

  pub p_init_lem : p_init seq (s ++ 0 ∷ m) t ≡ ok (packet_of seq s t 0 0)
  unfolding p_init
  p_init_lem = rw (text-append s m is_text, word_len)

  pub p_error_lem : (token : ℕ) → p_error seq (s ++ 0 ∷ m) t token ≡ ok (packet_of seq s t 1 token)
  unfolding p_error
  p_error_lem token = rw (text-append s m is_text, word_len)

pub packet_of-IsValid :
    (seq : ℕ) (s : Bytes) (t : MsgType) (error token : ℕ)
    → seq < 2 ^ 32
    → length s + 1 < 2 ^ 32
    → error < 2 ^ 16
    → token < 2 ^ 64
    → IsType t
    → IsValid (packet_of seq s t error token)
packet_of-IsValid seq s t error token a b c d e = record {
  seq_number = a;
  msg_len = b;
  error = c;
  token = d;
  msg_type = e;
  arg = omega (arith, length-append s (0 ∷ []));
}

init-decode :
    (mem : Memory) (seq : ℕ) (s m : Bytes) (t : MsgType) (token : ℕ) (more : Bytes)
    → IsText s
    → seq < 2 ^ 32
    → length s + 1 < 2 ^ 32
    → token < 2 ^ 64
    → IsType t
    → (do
      p ← p_init seq (s ++ 0 ∷ m) t
      buffer ← p_encode mem (attach_token token p)
      p_decode (buffer ++ more))
      ≡ ok (record (packet_of seq s t 0 token) { arg = s })
unfolding attach_token
init-decode mem seq s m t token more is_text hs hl ht hty =
    let p = packet_of seq s t 0 token in
    let (buffer, e, d) =
      decode-encode mem p (packet_of-IsValid seq s t 0 token hs hl (omega arith) ht hty) in
    rw (p_init_lem seq s m t is_text hl, e, d more, take-append_length s (0 ∷ []))

-- A string that p_init puts into a packet, with a token, arrives whole: the packet that is decoded,
-- with any bytes behind its encoding, has the string as its argument and the same number, type and
-- token. The block of the argument holds no NUL, so that the search for the end of the string
-- leaves it.
pub sent_arg :
    (mem : Memory) (seq : ℕ) (s m : Bytes) (t : MsgType) (token : ℕ) (more : Bytes)
    → IsText s
    → seq < 2 ^ 32
    → length s + 1 < 2 ^ 32
    → token < 2 ^ 64
    → IsType t
    → (q : Packet) × ((do
      p ← p_init seq (s ++ 0 ∷ m) t
      buffer ← p_encode mem (attach_token token p)
      p_decode (buffer ++ more))
        ≡ ok q)
      × (q.arg ≡ s)
      × (q.seq_number ≡ seq)
      × (q.msg_type ≡ t)
      × (q.token ≡ token)
      × (text q.arg ≡ err out_of_bounds)
sent_arg mem seq s m t token more is_text hs hl ht hty = (
  record (packet_of seq s t 0 token) { arg = s },
  init-decode mem seq s m t token more is_text hs hl ht hty,
  refl,
  refl,
  refl,
  refl,
  text-unterminated s is_text,
)
