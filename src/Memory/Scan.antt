-- ===== src/Memory/Scan.antt =====
-- The conversions `%[...]` of `fscanf`.
use pekar_drive.Common.{
  ℕ, ◌<◌, ◌≡◌, refl, Bool, true, false, Option, none, some, [], ◌∷◌, ◌++◌, drop, length,
  length-append, All, ◌==◌, ◌||◌, if◌then◌else◌, arith,
}
use pekar_drive.Result.{Result, ok, ◌>>=◌}
use pekar_drive.Memory.{Bytes, Memory, store, store-append}
use pekar_drive.Memory.Strings.{IsText}
use pekar_drive.Memory.Decimal.{is_digit}

-- The set `[0-9.]`.
abbrev pub is_host : ℕ → Bool
is_host c = is_digit c || c == b'.'

-- What a `[…]` of `fscanf` takes, and what it leaves.
abbrev pub span : (ℕ → Bool) → Bytes → Bytes × Bytes
span allowed [] = ([], [])
span allowed (c ∷ m) =
    let (word, rest) = span allowed m in if allowed c then (c ∷ word, rest) else ([], c ∷ m)

-- A conversion `[…]`: the block with the word and its NUL, and what is left; nothing where no byte
-- matches.
unfoldable pub scan_set : (ℕ → Bool) → Bytes → Bytes → Result (Option (Bytes × Bytes))
scan_set allowed file block =
    let (word, rest) = span allowed file in
    if length word == 0
    then ok none
    else do filled ← store block 0 (word ++ 0 ∷ []); ok (some (filled, rest))

-- The block that a conversion filled, or one that keeps what `malloc` left in it.
unfoldable pub host_of : Memory → Option (Bytes × Bytes) → Bytes
host_of mem none = mem.malloc 16
host_of mem (some r) = r.0

-- An address as it can be read back.
abbrev pub IsHost : Bytes → Type 0
IsHost host = All (λ c. is_host c ≡ true) host × (0 < length host) × (length host < 16)

span-append :
    (allowed : ℕ → Bool) (word rest : Bytes) (c : ℕ)
    → All (λ c. allowed c ≡ true) word
    → allowed c ≡ false
    → span allowed (word ++ c ∷ rest) ≡ (word, c ∷ rest)
span-append allowed [] rest c h e = rw e
span-append allowed (d ∷ word) rest c h e = rw (h.0, span-append allowed word rest c h.1 e)

pub host-IsText : (host : Bytes) → All (λ c. is_host c ≡ true) host → IsText host
host-IsText [] h = tt
host-IsText (c ∷ host) h = (let e = h.0 in ground (arith, e), host-IsText host h.1)

-- The word in front of a byte that ends it.
pub scan_set-append :
    (allowed : ℕ → Bool) (word rest block : Bytes) (c : ℕ)
    → All (λ c. allowed c ≡ true) word
    → allowed c ≡ false
    → 0 < length word
    → length word < length block
    → scan_set allowed (word ++ c ∷ rest) block
      ≡ ok (some ((word ++ 0 ∷ []) ++ drop (length (word ++ 0 ∷ [])) block, c ∷ rest))
unfolding scan_set
scan_set-append allowed word rest block c h e pos room =
    let some_bytes : (length word == 0) ≡ false = ground arith in
    rw (
      span-append allowed word rest c h e,
      some_bytes,
      store-append [] block (word ++ 0 ∷ []) 0 refl (omega (arith, length-append word (0 ∷ []))),
    )
