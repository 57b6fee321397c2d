-- ===== src/Memory/Decimal.antt =====
-- Decimal numbers in strings: the `%ld` of `sprintf`, and `strtol`, by which `atoi` and `atol` read.
use Prim.Native.Nat.{min}
use native.Mathlib.Nat.{pow-succ'}
use pekar_drive.Common.{
  ℕ, zero, suc, ◌+◌, ◌-◌, ◌*◌, ◌/◌, ◌%◌, ◌^◌, ◌<◌, ◌≤◌, ◌≡◌, refl, ap, ◌∙◌, Bool, true, false, List,
  [], ◌∷◌, ◌++◌, length, ltb, leb, ◌==◌, ◌&&◌, ◌||◌, Bool-cases, inl, inr, if◌then◌else◌, arith,
}
use pekar_drive.Common.Int.{ℤ, pos, negsuc, neg}
use pekar_drive.Result.{Result, ok, err, out_of_bounds, ◌>>=◌}
use pekar_drive.Memory.Strings.{IsText}

-- The digits of `n` in front of `out`; each round divides by ten, so `n` rounds are enough.
unfoldable pub digits : ℕ → ℕ → List ℕ → List ℕ
digits zero n out = (b'0' + n) ∷ out
digits (suc fuel) n out =
    let more = digits fuel (n / 10) ((b'0' + n % 10) ∷ out) in
    if ltb n 10 then (b'0' + n) ∷ out else more

unfoldable pub print : ℕ → List ℕ
unfolding digits
print n = digits n n []

-- `%ld`
unfoldable pub print_long : ℤ → List ℕ
unfolding print
print_long (pos n) = print n
print_long (negsuc n) = b'-' ∷ print (n + 1)

abbrev pub is_digit : ℕ → Bool
is_digit c = leb b'0' c && leb c b'9'

-- The number that the digits at a pointer spell behind `n`.
unfoldable pub scan : List ℕ → ℕ → Result ℕ
scan [] n = err out_of_bounds
scan (c ∷ m) n = let rest = scan m (n * 10 + (c - b'0')) in if is_digit c then rest else ok n

abbrev pub is_space : ℕ → Bool
is_space c = c == b' ' || leb 9 c && leb c 13

-- `strtol` stops at the ends of the range of `long`.
unfoldable pub signed : List ℕ → Result ℤ
unfolding scan
signed [] = err out_of_bounds
signed (c ∷ m) =
    if c == b'-'
    then (do n ← scan m 0; ok (neg (min n (2 ^ 63))))
    else if c == b'+'
    then (do n ← scan m 0; ok (pos (min n (2 ^ 63 - 1))))
    else do n ← scan (c ∷ m) 0; ok (pos (min n (2 ^ 63 - 1)))

unfoldable pub atol : List ℕ → Result ℤ
unfolding signed
atol [] = err out_of_bounds
atol (c ∷ m) = let rest = atol m in if is_space c then rest else signed (c ∷ m)

scan_digit : (d n : ℕ) (m : List ℕ) → d < 10 → scan ((b'0' + d) ∷ m) n ≡ scan m (n * 10 + d)
unfolding scan
scan_digit d n m h =
    let e : is_digit (b'0' + d) ≡ true = ground arith in
    let v : n * 10 + (b'0' + d - b'0') ≡ n * 10 + d = omega arith in rw (e, v)

-- Reading the digits of `n` gives `n`.
scan-digits : (fuel n : ℕ) (out : List ℕ) → n ≤ fuel → scan (digits fuel n out) 0 ≡ scan out n
unfolding digits
scan-digits zero n out h = scan_digit n 0 out (omega arith) ∙ ap (scan out) (omega arith)
scan-digits (suc fuel) n out h = elim (Bool-cases (ltb n 10)) [
  | inl e ↦ rw e (scan_digit n 0 out (ground arith) ∙ ap (scan out) (omega arith))
  | inr e ↦ rw e (
      scan-digits fuel (n / 10) ((b'0' + n % 10) ∷ out) (ground arith)
      ∙ scan_digit (n % 10) (n / 10) out (omega arith)
      ∙ ap (scan out) (omega arith))
]

pub digits-append :
    (fuel n : ℕ) (out m : List ℕ) → digits fuel n out ++ m ≡ digits fuel n (out ++ m)
unfolding digits
digits-append zero n out m = refl
digits-append (suc fuel) n out m = elim (Bool-cases (ltb n 10)) [
  | inl e ↦ rw e
  | inr e ↦ rw e (digits-append fuel (n / 10) ((b'0' + n % 10) ∷ out) m)
]

-- The text of a number starts with a digit.
pub digits_head :
    (fuel n : ℕ) (out : List ℕ)
    → n ≤ fuel
    → (c : ℕ) × (m : List ℕ) × (digits fuel n out ≡ c ∷ m) × (is_digit c ≡ true)
unfolding digits
digits_head zero n out h = (b'0' + n, out, refl, ground arith)
digits_head (suc fuel) n out h = elim (Bool-cases (ltb n 10)) [
  | inl e ↦ (b'0' + n, out, rw e, ground arith)
  | inr e ↦ rw e (digits_head fuel (n / 10) ((b'0' + n % 10) ∷ out) (ground arith))
]

atol_digit :
    (c n : ℕ) (m : List ℕ)
    → is_digit c ≡ true
    → scan (c ∷ m) 0 ≡ ok n
    → n < 2 ^ 63
    → atol (c ∷ m) ≡ ok (pos n)
atol_digit c n m h e fits =
    let space : is_space c ≡ false = ground arith in
    let minus : (c == b'-') ≡ false = ground arith in
    let plus : (c == b'+') ≡ false = ground arith in
    let small : min n (2 ^ 63 - 1) ≡ n = omega arith in
    unfold atol in rw (space, minus, plus, e, small)

-- The text of a number is read back as the number, whatever follows its NUL.
pub atol-print : (n : ℕ) (m : List ℕ) → n < 2 ^ 63 → atol (print n ++ 0 ∷ m) ≡ ok (pos n)
unfolding print
atol-print n m h =
    let (c, r, p, d) = digits_head n n (0 ∷ m) (omega arith) in
    let read : scan (digits n n (0 ∷ m)) 0 ≡ ok n =
      scan-digits n n (0 ∷ m) (omega arith) ∙ (unfold scan in refl) in
    rw (digits-append n n [] (0 ∷ m), p) (atol_digit c n r d (rw p at read) h)

IsText-digits : (fuel n : ℕ) (out : List ℕ) → IsText out → IsText (digits fuel n out)
unfolding digits
IsText-digits zero n out h = (omega arith, h)
IsText-digits (suc fuel) n out h = elim (Bool-cases (ltb n 10)) [
  | inl e ↦ rw e (omega arith, h)
  | inr e ↦ rw e (IsText-digits fuel (n / 10) _ (omega arith, h))
]

pub IsText-print : (n : ℕ) → IsText (print n)
unfolding print
IsText-print n = IsText-digits n n [] tt

-- How long the text of a number is.
length-digits :
    (fuel n k : ℕ) (out : List ℕ) → n < 10 ^ suc k → length (digits fuel n out) ≤ suc k + length out
unfolding digits
length-digits zero n k out h = omega arith
length-digits (suc fuel) n zero out h = let e : ltb n 10 ≡ true = ground arith in rw e (omega arith)
length-digits (suc fuel) n (suc k) out h = elim (Bool-cases (ltb n 10)) [
  | inl e ↦ rw e (omega arith)
  | inr e ↦
      let h' : n < 10 * 10 ^ suc k = rw pow-succ' at h in
      rw e (omega (arith, length-digits fuel (n / 10) k ((b'0' + n % 10) ∷ out) (omega arith)))
]

pub length-print : (n k : ℕ) → n < 10 ^ suc k → length (print n) ≤ suc k
unfolding print
length-print n k h = omega (arith, length-digits n n k [] h)
