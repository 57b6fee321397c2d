-- ===== src/Transmission/Receive/Trim.antt =====
-- trim_padding and contains_padding of lib/PP/transmission.c.
use pekar_drive.Common.{
  ℕ, zero, suc, ◌+◌, ◌-◌, ◌%◌, ◌^◌, ◌<◌, ◌≡◌, ◌≢◌, refl, sym, ap, subst, subst₂, ◌∙◌, true, false,
  [], ◌∷◌, ◌++◌, append_assoc, length, replicate, get_elem?-middle, length-append, length-replicate,
  ◌==◌, arith,
}
use pekar_drive.Result.{ok}
use pekar_drive.Memory.{Bytes}
use pekar_drive.Transmission.{pad}
use pekar_drive.Transmission.Receive.{byte_at, trim_padding, contains_padding}

byte_at-middle : (s rest : Bytes) (x i : ℕ) → i ≡ length s → byte_at (s ++ x ∷ rest) i ≡ ok x
unfolding byte_at
byte_at-middle s rest x i e = rw (e, byte_at, get_elem?-middle s x rest)

replicate_snoc :
    (k : ℕ) (rest : Bytes) → pad ∷ (replicate k pad ++ rest) ≡ replicate k pad ++ pad ∷ rest
replicate_snoc zero rest = refl
replicate_snoc (suc k) rest = ap (λ z. pad ∷ z) (replicate_snoc k rest)

pub replicate_end : (k : ℕ) → replicate (suc k) pad ≡ replicate k pad ++ pad ∷ []
replicate_end zero = refl
replicate_end (suc k) = ap (λ z. pad ∷ z) (replicate_end k)

-- The last byte in front of the padding ends the data.
pub trim_padding-ends :
    (s rest : Bytes) (x : ℕ)
    → x ≢ pad
    → trim_padding (s ++ x ∷ rest) (length s + 1) ≡ ok (length s + 1)
unfolding trim_padding
trim_padding-ends s rest x h =
    let e : (x == pad) ≡ false = ground arith in
    let n : length s + 1 ≡ suc (length s) = omega arith in
    subst (λ k. trim_padding (s ++ x ∷ rest) k ≡ ok k) (sym n)
      (rw (byte_at-middle s rest x (length s) refl, e) (ap ok n))

pub trim_padding-replicate :
    (k : ℕ) (s rest : Bytes) (x : ℕ)
    → x ≢ pad
    → trim_padding (s ++ (x ∷ (replicate k pad ++ rest))) (length s + 1 + k) ≡ ok (length s + 1)
unfolding trim_padding
trim_padding-replicate zero s rest x h =
    subst (λ n. trim_padding (s ++ x ∷ rest) n ≡ ok (length s + 1)) (omega arith)
      (trim_padding-ends s rest x h)
trim_padding-replicate (suc k) s rest x h =
    let done = s ++ (x ∷ replicate k pad) in
    let e : (pad == pad) ≡ true = refl in
    let n : length s + 1 + suc k ≡ suc (length done) =
      omega (arith, length-append s (x ∷ replicate k pad), length-replicate k pad) in
    let regroup : s ++ (x ∷ (pad ∷ (replicate k pad ++ rest))) ≡ done ++ pad ∷ rest =
      ap (λ z. s ++ (x ∷ z)) (replicate_snoc k rest)
      ∙ sym (append_assoc s (x ∷ replicate k pad) (pad ∷ rest)) in
    let ih : trim_padding (done ++ pad ∷ rest) (length done) ≡ ok (length s + 1) =
      subst (λ z. trim_padding z (length done) ≡ ok (length s + 1))
        (sym (append_assoc s (x ∷ replicate k pad) (pad ∷ rest)))
        (subst
          (λ z. trim_padding (s ++ (x ∷ (replicate k pad ++ pad ∷ rest))) z ≡ ok (length s + 1))
          (omega arith) (trim_padding-replicate k s (pad ∷ rest) x h)) in
    let step : trim_padding (done ++ pad ∷ rest) (suc (length done)) ≡ ok (length s + 1) =
      rw (byte_at-middle done rest pad (length done) refl) ih in
    subst₂ (λ z m. trim_padding z m ≡ ok (length s + 1)) (sym regroup) (sym n) step

pub contains_padding-last :
    (s rest : Bytes) (x n : ℕ)
    → n ≡ length s + 1
    → n < 2 ^ 32
    → contains_padding (s ++ x ∷ rest) n ≡ ok (x == pad)
unfolding contains_padding
contains_padding-last s rest x n e b =
    rw (byte_at-middle s rest x ((n + (2 ^ 32 - 1)) % 2 ^ 32) (omega arith))
