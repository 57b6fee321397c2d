-- ===== src/Memory/Substring.antt =====
-- `strstr` finds a string exactly where it is a part of another.
use pekar_drive.Common.{
  ℕ, ◌≡◌, ◌↔◌, refl, ap, ◌∙◌, Bool, true, false, Bool-cases, ◌||◌, inl, inr, List, [], ◌∷◌, ◌++◌,
  ◌==◌, arith,
}
use pekar_drive.Memory.Strings.{is_prefix, occurs}

-- The second string with the first in it.
abbrev pub Contains : List ℕ → List ℕ → Type 0
Contains p s = (a : List ℕ) × (b : List ℕ) × (s ≡ a ++ (p ++ b))

is_prefix-append : (p b : List ℕ) → is_prefix p (p ++ b) ≡ true
is_prefix-append [] b = refl
is_prefix-append (c ∷ p) b = let e : (c == c) ≡ true = ground arith in rw (e, is_prefix-append p b)

is_prefix-split : (p s : List ℕ) → is_prefix p s ≡ true → (b : List ℕ) × (s ≡ p ++ b)
is_prefix-split [] s h = (s, refl)
is_prefix-split (c ∷ p) [] h = absurd (ground arith)
is_prefix-split (c ∷ p) (d ∷ s) h = elim (Bool-cases (c == d)) [
  | inr other ↦ absurd (ground arith)
  | inl same ↦
      let rest : is_prefix p s ≡ true = rw same at h in
      let (b, e) = is_prefix-split p s rest in let heads : d ≡ c = ground arith in (b, cc)
]

or-true : (b : Bool) → (b || true) ≡ true
or-true true = refl
or-true false = refl

occurs-append : (p a b : List ℕ) → occurs p (a ++ (p ++ b)) ≡ true
occurs-append [] [] [] = refl
occurs-append [] [] (d ∷ b) = refl
occurs-append (c ∷ p) [] b = rw (is_prefix-append (c ∷ p) b)
occurs-append p (d ∷ a) b = rw (occurs-append p a b, or-true (is_prefix p (d ∷ (a ++ (p ++ b)))))

occurs-Contains : (p s : List ℕ) → occurs p s ≡ true → Contains p s
occurs-Contains p [] h = let (b, e) = is_prefix-split p [] h in ([], b, e)
occurs-Contains p (d ∷ s) h = elim (Bool-cases (is_prefix p (d ∷ s))) [
  | inl here ↦ let (b, e) = is_prefix-split p (d ∷ s) here in ([], b, e)
  | inr later ↦
      let rest : occurs p s ≡ true = rw later at h in
      let (a, b, e) = occurs-Contains p s rest in (d ∷ a, b, ap (λ l. d ∷ l) e)
]

-- A string occurs in another just if the other contains it.
occurs_iff : (p s : List ℕ) → (occurs p s ≡ true) ↔ Contains p s
occurs_iff p s =
    (occurs-Contains p s, λ h. let (a, b, e) = h in ap (occurs p) e ∙ occurs-append p a b)
