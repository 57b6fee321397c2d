-- ===== src/Memory/Strings.antt =====
-- Strings as C has them: the bytes before the first NUL that a pointer shows.
use Prim.Native.Char.{code}
use Prim.Native.String.{String}
use pekar_drive.Common.{
  ℕ, zero, suc, replicate, Bool, true, false, ◌&&◌, ◌||◌, ◌≡◌, ◌≢◌, refl, ap, subst, List, [], ◌∷◌,
  ◌++◌, length, All, ◌==◌, Bool-cases, inl, inr, if◌then◌else◌, arith,
}
use pekar_drive.Result.{Result, ok, err, out_of_bounds, ◌>>=◌, >>=-eq-ok}

-- The code points of a literal, which are its bytes: the program's literals are ASCII.
abbrev pub codes : String → List ℕ
codes String.[] = []
codes (String.◌∷◌ c s) = code c ∷ codes s

-- Holds no NUL.
abbrev pub IsText : List ℕ → Type 0
IsText = All (λ c. c ≢ 0)

-- Holds no byte `c`.
abbrev pub Lacks : ℕ → List ℕ → Type 0
Lacks c = All (λ b. b ≢ c)

-- The string that starts at a pointer. The search runs on over the readable bytes.
unfoldable pub text : List ℕ → Result (List ℕ)
text [] = err out_of_bounds
text (c ∷ m) = if c == 0 then ok [] else do s ← text m; ok (c ∷ s)

unfoldable pub strlen : List ℕ → Result ℕ
strlen m = do s ← text m; ok (length s)

-- `strncpy`: `n` bytes, the string that a pointer shows and NULs behind it.
unfoldable pub strncpy : ℕ → List ℕ → Result (List ℕ)
strncpy zero m = ok []
strncpy (suc n) [] = err out_of_bounds
strncpy (suc n) (c ∷ m) =
    if c == 0 then ok (replicate (suc n) 0) else do r ← strncpy n m; ok (c ∷ r)

pub strncpy-append : (s m : List ℕ) → IsText s → strncpy (length s) (s ++ m) ≡ ok s
unfolding strncpy
strncpy-append [] m h = refl
strncpy-append (c ∷ s) m h =
    let e : (c == 0) ≡ false = ground arith in rw (e, strncpy-append s m h.1)

abbrev pub is_prefix : List ℕ → List ℕ → Bool
is_prefix [] s = true
is_prefix (c ∷ p) [] = false
is_prefix (c ∷ p) (d ∷ s) = c == d && is_prefix p s

abbrev pub occurs : List ℕ → List ℕ → Bool
occurs p [] = is_prefix p []
occurs p (d ∷ s) = is_prefix p (d ∷ s) || occurs p s

-- Whether `strstr(haystack, needle)` is not `NULL`.
unfoldable pub strstr : List ℕ → List ℕ → Result Bool
unfolding text
strstr haystack needle = do h ← text haystack; n ← text needle; ok (occurs n h)

pub text-append : (s m : List ℕ) → IsText s → text (s ++ 0 ∷ m) ≡ ok s
unfolding text
text-append [] m h = refl
text-append (c ∷ s) m h = ground (arith, text-append s m h.1)

pub strlen-append : (s m : List ℕ) → IsText s → strlen (s ++ 0 ∷ m) ≡ ok (length s)
unfolding strlen
strlen-append s m h = ap (λ r. r >>= λ t. ok (length t)) (text-append s m h)

-- A string that is read holds no NUL.
pub text-IsText : (m s : List ℕ) → text m ≡ ok s → IsText s
unfolding text
text-IsText [] s h = cc
text-IsText (c ∷ m) s h = elim (Bool-cases (c == 0)) [
  | inl end ↦ ground arith
  | inr more ↦
      let h' : (text m >>= λ t. ok (c ∷ t)) ≡ ok s = rw more at h in
      let (t, e, f) = >>=-eq-ok (text m) (λ t. ok (c ∷ t)) h' in
      let ih : IsText t = text-IsText m t e in
      let e' : (c ∷ t) ≡ s = cc in let p : c ≢ 0 = ground arith in subst IsText e' (p, ih)
]

-- Bytes with no NUL and nothing behind them are no string.
pub text-unterminated : (s : List ℕ) → IsText s → text s ≡ err out_of_bounds
unfolding text
text-unterminated [] h = refl
text-unterminated (c ∷ s) h = ground (arith, text-unterminated s h.1)

-- Whether `strcmp` is 0.
abbrev pub same : List ℕ → List ℕ → Bool
same [] [] = true
same [] (c ∷ t) = false
same (c ∷ s) [] = false
same (c ∷ s) (d ∷ t) = c == d && same s t

pub same_refl : (s : List ℕ) → same s s ≡ true
same_refl [] = refl
same_refl (c ∷ s) = let e : (c == c) ≡ true = ground arith in rw (e, same_refl s)

pub same-eq : (s t : List ℕ) → same s t ≡ true → s ≡ t
same-eq [] [] h = refl
same-eq [] (d ∷ t) h = absurd (ground arith)
same-eq (c ∷ s) [] h = absurd (ground arith)
same-eq (c ∷ s) (d ∷ t) h = elim (Bool-cases (c == d)) [
  | inl e ↦ let tails : s ≡ t = same-eq s t (rw e at h) in let heads : c ≡ d = ground arith in cc
  | inr e ↦ absurd (ground arith)
]
