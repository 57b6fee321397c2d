-- ===== src/Transmission/Transmit/Fill.antt =====
-- fill_buffer of lib/PP/transmission.c.
use pekar_drive.Common.{
  ℕ, zero, suc, ◌+◌, ◌-◌, ◌≤◌, ◌≡◌, refl, sym, ap, ◌∙◌, [], ◌∷◌, ◌++◌, append_assoc, length, take,
  drop, replicate, length-append, length-take, length-drop, ltb, false, arith,
}
use pekar_drive.Result.{ok}
use pekar_drive.Memory.{Bytes, load-take, store-append}
use pekar_drive.Transmission.{pad}
use pekar_drive.Transmission.Transmit.{pad_from, fill_buffer}

pad_from-replicate :
    (done rest : Bytes) (i rounds : ℕ)
    → i ≡ length done
    → rounds ≡ length rest
    → pad_from (done ++ rest) i rounds ≡ ok (done ++ replicate rounds pad)
unfolding pad_from
pad_from-replicate done [] i zero e f = refl
pad_from-replicate done (x ∷ rest) i zero e f = absurd (omega arith)
pad_from-replicate done [] i (suc rounds) e f = absurd (omega arith)
pad_from-replicate done (x ∷ rest) i (suc rounds) e f =
    rw
      (
        store-append done (x ∷ rest) (pad ∷ []) i e (omega arith),
        pad_from-replicate (done ++ pad ∷ []) rest (i + 1) rounds
            (omega (arith, length-append done (pad ∷ []))) (omega arith),
      )
      (ap ok (append_assoc done (pad ∷ []) (replicate rounds pad)))

-- The first bytes of the source, and padding up to the size of the buffer.
pub fill_buffer_lem :
    (buffer source : Bytes) (len : ℕ)
    → len ≤ length buffer
    → len ≤ length source
    → fill_buffer buffer source (length buffer) len
      ≡ ok (take len source ++ replicate (length buffer - len) pad)
unfolding fill_buffer
fill_buffer_lem buffer source len h k =
    let room : ltb (length buffer) len ≡ false = ground arith in
    let size : length (take len source) ≡ len = length-take len source k in
    let stored = store-append [] buffer (take len source) 0 refl (omega arith) in
    let rest : length (drop (length (take len source)) buffer) ≡ length buffer - len =
      length-drop (length (take len source)) buffer ∙ omega arith in
    rw (room, load-take len source k, stored)
      (pad_from-replicate (take len source) (drop (length (take len source)) buffer) len
        (length buffer - len) (sym size) (sym rest))
