-- ===== src/Memory.antt =====
-- The memory that the C code sees. A block is the list of its bytes. A pointer is modelled by the
-- bytes that can be read from it on: the rest of its block, and what lies behind the block.
-- An access that leaves these bytes is an error of the model, where C has undefined behaviour.
pub mod Words
pub mod Strings
pub mod Substring
pub mod Decimal
pub mod Scan
pub mod Sample
use pekar_drive.Common.{
  ℕ, zero, suc, ◌+◌, ◌-◌, ◌≤◌, ◌<◌, ◌≡◌, refl, ap, List, [], ◌∷◌, ◌++◌, Bool-cases, inl, inr,
  length, take, drop, leb, le→leb, length-append, take-append_length, take-length,
  drop-append_length, drop-add, sym, append_assoc, take-append_ge, length-take, length-drop, ◌∙◌,
  if◌then◌else◌, arith,
}
use pekar_drive.Result.{Result, ok, err, out_of_bounds, ◌>>=◌}

abbrev pub Bytes : Type 0
Bytes = List ℕ

-- The allocator and the address space, which are not part of the program. `malloc n` is a block of
-- `n` bytes with any contents; `behind` is what can be read behind the end of a block.
pub record Memory : Type 0 where
  pub malloc : ℕ → Bytes
  pub length-malloc : (n : ℕ) → length (malloc n) ≡ n
  pub behind : Bytes

-- The first `n` bytes that a pointer shows.
unfoldable pub load : ℕ → Bytes → Result Bytes
load zero m = ok []
load (suc n) [] = err out_of_bounds
load (suc n) (b ∷ m) = do r ← load n m; ok (b ∷ r)

-- `memcpy` of `xs` to the offset `i` of a block.
unfoldable pub store : Bytes → ℕ → Bytes → Result Bytes
store block i xs =
    if leb (i + length xs) (length block)
    then ok (take i block ++ (xs ++ drop (i + length xs) block))
    else err out_of_bounds

pub load-append : (xs m : Bytes) → load (length xs) (xs ++ m) ≡ ok xs
unfolding load
load-append [] m = refl
load-append (x ∷ xs) m = ap (λ r. r >>= λ t. ok (x ∷ t)) (load-append xs m)

pub load-take : (n : ℕ) (m : Bytes) → n ≤ length m → load n m ≡ ok (take n m)
unfolding load
load-take zero m h = refl
load-take (suc n) [] h = absurd (omega arith)
load-take (suc n) (b ∷ m) h = rw (load-take n m (omega arith))

pub load_all : (m : Bytes) → load (length m) m ≡ ok m
load_all m = load-take (length m) m (omega arith) ∙ ap ok (take-length m)

pub load_short : (n : ℕ) (m : Bytes) → length m < n → load n m ≡ err out_of_bounds
unfolding load
load_short zero m h = absurd (omega arith)
load_short (suc n) [] h = refl
load_short (suc n) (b ∷ m) h = rw (load_short n m (omega arith))

pub length-load : (n : ℕ) (m : Bytes) {r : Bytes} → load n m ≡ ok r → n ≤ length m
length-load n m {r} h = elim (Bool-cases (leb n (length m))) [
  | inl fits ↦ ground arith
  | inr short ↦ let e : load n m ≡ err out_of_bounds = load_short n m (ground arith) in cc
]

pub load-eq-take : (n : ℕ) (m : Bytes) {r : Bytes} → load n m ≡ ok r → r ≡ take n m
load-eq-take n m {r} h = let e : load n m ≡ ok (take n m) = load-take n m (length-load n m h) in cc

-- A write behind the part of the block that is already filled.
pub store-append :
    (done rest xs : Bytes) (i : ℕ)
    → i ≡ length done
    → length xs ≤ length rest
    → store (done ++ rest) i xs ≡ ok ((done ++ xs) ++ drop (length xs) rest)
unfolding store
store-append done rest xs i e h =
    rw
      (
        e,
        le→leb (length done + length xs) (length (done ++ rest))
            (omega (arith, length-append done rest)),
        take-append_length done rest,
        drop-add (length done) (length xs) (done ++ rest),
        drop-append_length done rest,
      )
      (ap ok (sym (append_assoc done xs (drop (length xs) rest))))

-- `realloc`: the start of the block stays, and what is new has any contents.
unfoldable pub realloc : Memory → Bytes → ℕ → Bytes
realloc mem buffer n = take n (buffer ++ drop (length buffer) (mem.malloc n))

pub realloc-prefix :
    (mem : Memory) (done rest : Bytes) (n : ℕ)
    → length done ≤ n
    → (rest' : Bytes) × (realloc mem (done ++ rest) n ≡ done ++ rest')
      × (length (done ++ rest') ≡ n)
unfolding realloc
realloc-prefix mem done rest n h =
    let d = drop (length (done ++ rest)) (mem.malloc n) in
    let same_block : take n ((done ++ rest) ++ d) ≡ done ++ take (n - length done) (rest ++ d) =
      ap (take n) (append_assoc done rest d) ∙ take-append_ge n done (rest ++ d) h in
    let size : length (take n ((done ++ rest) ++ d)) ≡ n = length-take n ((done ++ rest) ++ d) (
      omega (
        arith,
        length-append (done ++ rest) d,
        length-drop (length (done ++ rest)) (mem.malloc n),
        mem.length-malloc n,
      )) in
    (take (n - length done) (rest ++ d), same_block, ap length (sym same_block) ∙ size)

-- One more `memcpy` behind the part of the buffer that is filled.
pub store_next :
    (buf done xs : Bytes) (k i : ℕ)
    → i ≡ length done
    → k ≡ length xs
    → i + k ≤ length buf
    → store (done ++ drop i buf) i xs ≡ ok ((done ++ xs) ++ drop (i + k) buf)
store_next buf done xs k i e f h = rw (
  store-append done (drop i buf) xs i e (omega (arith, length-drop i buf)),
  ← f,
  drop-add i k buf,
)
