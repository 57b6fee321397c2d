-- ===== src/Memory/Words.antt =====
-- Unsigned integers in memory: the little-endian bytes of the x86-64 targets.
use pekar_drive.Common.{
  ℕ, zero, suc, ◌+◌, ◌*◌, ◌/◌, ◌%◌, ◌^◌, ◌<◌, ◌≡◌, refl, ap, List, [], ◌∷◌, length, arith,
}
use native.Mathlib.Nat.{pow-succ'}

unfoldable pub le_bytes : ℕ → ℕ → List ℕ
le_bytes zero n = []
le_bytes (suc k) n = (n % 256) ∷ le_bytes k (n / 256)

unfoldable pub le_value : List ℕ → ℕ
le_value [] = 0
le_value (b ∷ bs) = b + 256 * le_value bs

pub length-le_bytes : (k n : ℕ) → length (le_bytes k n) ≡ k
unfolding le_bytes
length-le_bytes zero n = refl
length-le_bytes (suc k) n = ap suc (length-le_bytes k (n / 256))

-- A number that fits into `k` bytes is read back from them.
pub le_value-le_bytes : (k n : ℕ) → n < 256 ^ k → le_value (le_bytes k n) ≡ n
unfolding le_bytes le_value
le_value-le_bytes zero n h = omega arith
le_value-le_bytes (suc k) n h =
    let h' : n < 256 * 256 ^ k = rw pow-succ' at h in
    let ih : le_value (le_bytes k (n / 256)) ≡ n / 256 =
      le_value-le_bytes k (n / 256) (omega arith) in
    omega arith
