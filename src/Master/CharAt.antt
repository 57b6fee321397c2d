-- ===== src/Master/CharAt.antt =====
-- char_at, parse_ip, parse_port and long2str of src/master.c.
use pekar_drive.Common.{
  ℕ, ◌+◌, ◌%◌, ◌^◌, ◌<◌, ◌≡◌, ◌≢◌, refl, ap, none, some, [], ◌∷◌, ◌++◌, append_assoc, length, drop,
  All-append, length-append, drop-add, drop-append_length, ◌==◌, true, false, le→leb, arith,
}
use pekar_drive.Common.Int.{pos, negsuc}
use pekar_drive.Result.{ok, err, out_of_bounds}
use pekar_drive.Memory.{Bytes, Memory, store-append}
use pekar_drive.Memory.Strings.{IsText, Lacks, strlen-append, strncpy, strncpy-append}
use pekar_drive.Memory.Decimal.{print, atol-print, length-print, IsText-print}
use pekar_drive.Master.{char_from, char_at, parse_ip, parse_port, long2str}

char_from-found :
    (c size index : ℕ) (s m : Bytes)
    → Lacks c s
    → index + length s < size
    → char_from c size (s ++ c ∷ m) index ≡ ok (some (index + length s))
unfolding char_from
char_from-found c size index [] m h k =
    let e : (c == c) ≡ true = ground arith in rw e (ap (λ n. ok (some n)) (omega arith))
char_from-found c size index (b ∷ s) m h k =
    let e : (b == c) ≡ false = ground arith in
    let e' : (index + 1 == size) ≡ false = ground arith in
    rw (e, e', char_from-found c size (index + 1) s m h.1 (omega arith))
      (ap (λ n. ok (some n)) (omega arith))

char_from-absent :
    (c size index : ℕ) (b : ℕ) (s m : Bytes)
    → Lacks c (b ∷ s)
    → index + length (b ∷ s) ≡ size
    → char_from c size ((b ∷ s) ++ m) index ≡ ok none
unfolding char_from
char_from-absent c size index b [] m h k =
    let e : (b == c) ≡ false = ground arith in
    let e' : (index + 1 == size) ≡ true = ground arith in rw (e, e')
char_from-absent c size index b (d ∷ s) m h k =
    let e : (b == c) ≡ false = ground arith in
    let e' : (index + 1 == size) ≡ false = ground arith in
    rw (e, e', char_from-absent c size (index + 1) d s m h.1 (omega arith))

module _ (c : ℕ) (s d m : Bytes) (first : Lacks c s) where
  -- char_at returns the index of the first occurrence of a character in a string of fewer than 2^32
  -- bytes.
  pub char_at-found :
      IsText (s ++ c ∷ d)
      → length (s ++ c ∷ d) < 2 ^ 32
      → char_at ((s ++ c ∷ d) ++ 0 ∷ m) c ≡ ok (some (length s))
  unfolding char_at
  char_at-found is_text short =
      let size : length (s ++ c ∷ d) % 2 ^ 32 ≡ length (s ++ c ∷ d) = omega arith in
      rw
        (
          strlen-append (s ++ c ∷ d) m is_text,
          size,
          append_assoc s (c ∷ d) (0 ∷ m),
          char_from-found c (length (s ++ c ∷ d)) 0 s (d ++ 0 ∷ m) first
              (omega (arith, length-append s (c ∷ d))),
        )
        (ap (λ n. ok (some n)) (omega arith))

-- char_at returns -1 for a string that has a first character and lacks the one that is searched.
pub char_at-absent :
    (c b : ℕ) (s m : Bytes)
    → Lacks c (b ∷ s)
    → IsText (b ∷ s)
    → length (b ∷ s) < 2 ^ 32
    → char_at ((b ∷ s) ++ 0 ∷ m) c ≡ ok none
unfolding char_at
char_at-absent c b s m h is_text short =
    let size : length (b ∷ s) % 2 ^ 32 ≡ length (b ∷ s) = omega arith in
    rw (
      strlen-append (b ∷ s) m is_text,
      size,
      char_from-absent c (length (b ∷ s)) 0 b s (0 ∷ m) h (omega arith),
    )

char_from-past : (c index : ℕ) (m : Bytes) → Lacks c m → char_from c 0 m index ≡ err out_of_bounds
unfolding char_from
char_from-past c index [] h = refl
char_from-past c index (b ∷ m) h =
    let e : (b == c) ≡ false = ground arith in
    let e' : (index + 1 == 0) ≡ false = ground arith in
    rw (e, e', char_from-past c (index + 1) m h.1)

-- For an empty string, char_at reads out of bounds if the character is not the NUL and does not
-- occur in the readable memory behind it.
pub char_at-empty : (c : ℕ) (m : Bytes) → c ≢ 0 → Lacks c m → char_at (0 ∷ m) c ≡ err out_of_bounds
unfolding char_at
char_at-empty c m h lacks =
    rw (strlen-append [] m tt) (char_from-past c 0 (0 ∷ m) (ground arith, lacks))

-- parse_port reads the port, below 65536, that stands in decimal behind the first semicolon of a
-- string of fewer than 2^32 bytes.
pub parse_port-print :
    (s m : Bytes) (port : ℕ)
    → IsText s
    → Lacks b';' s
    → length (s ++ b';' ∷ print port) < 2 ^ 32
    → port < 2 ^ 16
    → parse_port ((s ++ b';' ∷ print port) ++ 0 ∷ m) ≡ ok port
unfolding parse_port
parse_port-print s m port is_text first short small =
    let is_arg : IsText (s ++ b';' ∷ print port) =
      All-append _ s (b';' ∷ print port) is_text (ground arith, IsText-print port) in
    let behind : drop (length s + 1) ((s ++ b';' ∷ print port) ++ 0 ∷ m) ≡ print port ++ 0 ∷ m =
      rw (
        append_assoc s (b';' ∷ print port) (0 ∷ m),
        drop-add (length s) 1 (s ++ (b';' ∷ (print port ++ 0 ∷ m))),
        drop-append_length,
      ) in
    let u16 : port % 2 ^ 16 ≡ port = omega arith in
    rw (
      char_at-found b';' s (print port) m first is_arg short,
      behind,
      atol-print port m (omega arith),
      u16,
    )

-- parse_ip copies the bytes in front of the first semicolon to the start of a block of `malloc`.
pub parse_ip-block :
    (mem : Memory) (s d m : Bytes)
    → IsText (s ++ b';' ∷ d)
    → Lacks b';' s
    → length (s ++ b';' ∷ d) < 2 ^ 32
    → parse_ip mem ((s ++ b';' ∷ d) ++ 0 ∷ m)
      ≡ ok (s ++ drop (length s) (mem.malloc (length (s ++ b';' ∷ d))))
unfolding parse_ip
parse_ip-block mem s d m is_text first short =
    let copied : strncpy (length s) ((s ++ b';' ∷ d) ++ 0 ∷ m) ≡ ok s =
      rw append_assoc (strncpy-append s (b';' ∷ (d ++ 0 ∷ m)) (text_prefix s (b';' ∷ d) is_text)) in
    rw
      (
        strlen-append (s ++ b';' ∷ d) m is_text,
        char_at-found b';' s d m first is_text short,
        copied,
      )
      (store-append [] (mem.malloc (length (s ++ b';' ∷ d))) s 0 refl
        (omega (arith, mem.length-malloc (length (s ++ b';' ∷ d)), length-append s (b';' ∷ d))))
  where
    text_prefix : (xs ys : Bytes) → IsText (xs ++ ys) → IsText xs
    text_prefix [] ys h = tt
    text_prefix (x ∷ xs) ys h = (h.0, text_prefix xs ys h.1)

-- long2str prints a count of at most nine digits in decimal, and the -1 of an error as "-1",
-- without leaving its block.
pub long2str-print :
    (n : ℕ)
    → n < 10 ^ 9
    → (long2str (pos n) ≡ ok (print n ++ 0 ∷ []))
      × (long2str (negsuc 0) ≡ ok (b'-' ∷ b'1' ∷ 0 ∷ []))
unfolding long2str print
long2str-print n h =
    (rw (le→leb (length (print n) + 1) 10 (omega (arith, length-print n 8 h))), refl)
