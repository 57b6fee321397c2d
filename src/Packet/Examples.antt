-- ===== src/Packet/Examples.antt =====
-- Runs of lib/PP/packet.c on concrete packets.
use pekar_drive.Common.{◌+◌, ◌≤◌, ◌≡◌, refl, [], ◌∷◌, ◌++◌, take, drop, length, arith}
use pekar_drive.Result.{ok, err, out_of_bounds, ◌>>=◌}
use pekar_drive.Memory.{Bytes, load}
use pekar_drive.Memory.Words.{le_value}
use pekar_drive.Memory.Strings.{text, codes}
use pekar_drive.Memory.Sample.{zeroed}
use pekar_drive.Packet.{
  write, ls, Packet, p_init, attach_token, p_encode, p_decode, header_size, type_of_code,
}
use pekar_drive.Packet.Wire.{decode-encode}
use pekar_drive.Packet.Args.{packet_of, packet_of-IsValid, sent_arg}

abbrev note : Packet
note = packet_of 7 (codes "a.txt;hi") write 0 86

abbrev note_bytes : Bytes
note_bytes =
    7 ∷ 0 ∷ 0 ∷ 0 ∷ 2 ∷ 0 ∷ 0 ∷ 0 ∷ 1 ∷ 0 ∷ 0 ∷ 0 ∷ 0 ∷ 0 ∷ 86 ∷ 0 ∷ 0 ∷ 0 ∷ 0 ∷ 0 ∷ 0 ∷ 0 ∷ 104
    ∷ 105 ∷ 0 ∷ []

abbrev note_decoded : Packet
note_decoded = record {
  seq_number = 7;
  arg = 104 ∷ 105 ∷ [];
  msg_len = 2;
  error = 0;
  token = 86;
  msg_type = ls;
}

decode-encode_example :
    (buffer : Bytes) × (p_encode zeroed note ≡ ok buffer)
    × ((more : Bytes) → p_decode (buffer ++ more) ≡ ok (record note { arg = take 8 note.arg }))
decode-encode_example = decode-encode zeroed note (
    packet_of-IsValid 7 (codes "a.txt;hi") write 0 86 (omega arith) (omega arith) (omega arith)
      (omega arith) tt)

note_run : p_decode note_bytes ≡ ok note_decoded
unfolding p_decode le_value type_of_code load
note_run = refl

note_fits : header_size + le_value (take 4 (drop 4 note_bytes)) ≤ length note_bytes
unfolding le_value
note_fits = omega arith

sent_arg_example :
    (q : Packet) × ((do
      p ← p_init 7 (codes "a.txt;hi" ++ 0 ∷ []) write
      buffer ← p_encode zeroed (attach_token 86 p)
      p_decode (buffer ++ (1 ∷ 2 ∷ [])))
      ≡ ok q)
    × (q.arg ≡ codes "a.txt;hi")
    × (q.seq_number ≡ 7)
    × (q.msg_type ≡ write)
    × (q.token ≡ 86)
    × (text q.arg ≡ err out_of_bounds)
sent_arg_example =
    sent_arg zeroed 7 (codes "a.txt;hi") [] write 86 (1 ∷ 2 ∷ []) (ground arith) (omega arith)
      (omega arith) (omega arith) tt
