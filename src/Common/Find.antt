-- ===== src/Common/Find.antt =====
-- The first entry of a list that passes a test.
use Prim.Native.Nat.{ℕ, ◌+◌}
use mathlib.Core.Path.{◌≡◌, refl, ap}
use mathlib.Core.Logic.{inl, inr}
use mathlib.Core.Bool.{Bool, true, false}
use mathlib.Core.Option.{Option, none, some}
use mathlib.Core.List.{List, [], ◌∷◌, ◌++◌}
use native.Mathlib.Omega.{arith}
use pekar_drive.Common.Tests.{if◌then◌else◌, Bool-cases}
use pekar_drive.Common.Lists.{length, All}

-- The first position, counted from `i`, at which a test holds.
abbrev pub find_index {ℓ} : {A : Type ℓ} → (A → Bool) → List A → ℕ → Option ℕ
find_index test [] i = none
find_index test (x ∷ xs) i = if test x then some i else find_index test xs (i + 1)

pub find_index-middle {ℓ} :
    {A : Type ℓ} (test : A → Bool) (pre : List A) (x : A) (xs : List A) (i : ℕ)
    → All (λ s. test s ≡ false) pre
    → test x ≡ true
    → find_index test (pre ++ x ∷ xs) i ≡ some (i + length pre)
find_index-middle test [] x xs i h e = rw e (ap some (omega arith))
find_index-middle test (y ∷ pre) x xs i h e =
    rw (h.0, find_index-middle test pre x xs (i + 1) h.1 e) (ap some (omega arith))

-- `find_index` finds the first entry that passes, and nothing only if no entry does.
pub find_index-none {ℓ} :
    {A : Type ℓ} (test : A → Bool) (xs : List A) (i : ℕ)
    → find_index test xs i ≡ none
    → All (λ s. test s ≡ false) xs
find_index-none test [] i h = tt
find_index-none test (x ∷ xs) i h = ground (arith, find_index-none test xs (i + 1))

pub find_index-some {ℓ} :
    {A : Type ℓ} (test : A → Bool) (xs : List A) (i j : ℕ)
    → find_index test xs i ≡ some j
    → (pre : List A) × (s : A) × (post : List A) × (xs ≡ pre ++ s ∷ post)
      × (j ≡ i + length pre)
      × (test s ≡ true)
      × All (λ s. test s ≡ false) pre
find_index-some test [] i j h = cc
find_index-some test (x ∷ xs) i j h = elim (Bool-cases (test x)) [
  | inl e ↦ ([], x, xs, refl, ground arith, e, tt)
  | inr e ↦
      let h' : find_index test xs (i + 1) ≡ some j = rw e at h in
      let (pre, s, post, p, q, r, a) = find_index-some test xs (i + 1) j h' in
      (x ∷ pre, s, post, ap (λ l. x ∷ l) p, omega arith, r, (e, a))
]

module _ {A : Type 0} (test : A → Bool) (xs : List A) where
  -- The answer of the search, in the two cases that there are.
  abbrev pub Found : Option ℕ → Type 0
  Found none = All (λ s. test s ≡ false) xs
  Found (some i) =
      (pre : List A) × (s : A) × (post : List A) × (xs ≡ pre ++ s ∷ post)
      × (i ≡ length pre)
      × (test s ≡ true)
      × All (λ s. test s ≡ false) pre

  pub find_index-Found : (o : Option ℕ) → find_index test xs 0 ≡ o → Found o
  find_index-Found none h = find_index-none test xs 0 h
  find_index-Found (some i) h =
      let (pre, s, post, p, q, r, a) = find_index-some test xs 0 i h in
      (pre, s, post, p, omega arith, r, a)
