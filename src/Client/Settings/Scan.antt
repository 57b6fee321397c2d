-- ===== src/Client/Settings/Scan.antt =====
-- What the conversions of src/client/settings.c read of a file that set_master_address wrote.
use pekar_drive.Common.{
  ℕ, zero, suc, ◌+◌, ◌-◌, ◌*◌, ◌/◌, ◌%◌, ◌^◌, ◌<◌, ◌≤◌, ◌≡◌, refl, sym, ap, ◌∙◌, true, false,
  Bool-cases, inl, inr, some, [], ◌∷◌, ◌++◌, append_assoc, drop, length, All, ltb, ◌==◌, arith,
}
use pekar_drive.Result.{ok}
use pekar_drive.Memory.{Bytes, Memory}
use pekar_drive.Memory.Decimal.{print, digits, digits_head, digits-append, is_digit, is_space}
use pekar_drive.Memory.Scan.{IsHost, is_host, host_of, scan_set-append}
use pekar_drive.Client.Settings.{
  is_word, skip_space, number, scan_int, as_port, port_of, get_master_host, get_master_port,
}

-- The file of an address.
abbrev pub image : Bytes → ℕ → Bytes
image host port = host ++ b'\n' ∷ (print port ++ b'\n' ∷ [])

host-word : (host : Bytes) → All (λ c. is_host c ≡ true) host → All (λ c. is_word c ≡ true) host
host-word [] h = tt
host-word (c ∷ host) h = (let e = h.0 in rw e, host-word host h.1)

number_digit : (d n : ℕ) (m : Bytes) → d < 10 → number ((b'0' + d) ∷ m) n ≡ number m (n * 10 + d)
number_digit d n m h =
    let e : is_digit (b'0' + d) ≡ true = ground arith in
    let v : n * 10 + (b'0' + d - b'0') ≡ n * 10 + d = omega arith in rw (e, v)

number-digits : (fuel n : ℕ) (out : Bytes) → n ≤ fuel → number (digits fuel n out) 0 ≡ number out n
unfolding digits
number-digits zero n out h = number_digit n 0 out (omega arith) ∙ ap (number out) (omega arith)
number-digits (suc fuel) n out h = elim (Bool-cases (ltb n 10)) [
  | inl e ↦ rw e (number_digit n 0 out (ground arith) ∙ ap (number out) (omega arith))
  | inr e ↦ rw e (
      number-digits fuel (n / 10) ((b'0' + n % 10) ∷ out) (ground arith)
      ∙ number_digit (n % 10) (n / 10) out (omega arith)
      ∙ ap (number out) (omega arith))
]

scan_int_digit :
    (c : ℕ) (m : Bytes) → is_digit c ≡ true → scan_int (c ∷ m) ≡ some (number (c ∷ m) 0 % 2 ^ 32)
unfolding scan_int
scan_int_digit c m h =
    let minus : (c == b'-') ≡ false = ground arith in
    let plus : (c == b'+') ≡ false = ground arith in rw (minus, plus, h)

skip_space_digit : (c : ℕ) (m : Bytes) → is_digit c ≡ true → skip_space (c ∷ m) ≡ c ∷ m
skip_space_digit c m h = let space : is_space c ≡ false = ground arith in rw space

-- The number of a port behind the line of the address.
pub port_of-print :
    (block : Bytes) (port : ℕ)
    → port < 2 ^ 16
    → port_of (some (block, b'\n' ∷ (print port ++ b'\n' ∷ []))) ≡ ok port
unfolding port_of as_port print
port_of-print block port h =
    let (c, r, p, d) = digits_head port port (b'\n' ∷ []) (omega arith) in
    let read : number (c ∷ r) 0 ≡ port =
      ap (λ m. number m 0) (sym p) ∙ number-digits port port (b'\n' ∷ []) (omega arith) in
    let word : port % 2 ^ 32 % 2 ^ 16 ≡ port = omega arith in
    rw (
      digits-append port port [] (b'\n' ∷ []),
      p,
      skip_space_digit c r d,
      scan_int_digit c r d,
      read,
      word,
    )

-- What is read of a file.
pub get_master_host-image :
    (mem : Memory) (host : Bytes) (port : ℕ)
    → IsHost host
    → (rest : Bytes) × (get_master_host mem (some (image host port)) ≡ ok (some (host ++ 0 ∷ rest)))
unfolding get_master_host host_of
get_master_host-image mem host port (allowed, pos, room) =
    let rest = drop (length (host ++ 0 ∷ [])) (mem.malloc 16) in
    (
      rest,
      rw
          (scan_set-append is_host host (print port ++ b'\n' ∷ []) (mem.malloc 16) b'\n' allowed
            refl pos (omega (arith, mem.length-malloc 16)))
          (ap (λ b. ok (some b)) (append_assoc host (0 ∷ []) rest)),
    )

pub get_master_port-word :
    (mem : Memory) (word : Bytes) (port : ℕ)
    → All (λ c. is_word c ≡ true) word
    → 0 < length word
    → length word < 16
    → port < 2 ^ 16
    → get_master_port mem (some (image word port)) ≡ ok port
unfolding get_master_port
get_master_port-word mem word port allowed pos room h =
    rw
      (scan_set-append is_word word (print port ++ b'\n' ∷ []) (mem.malloc 16) b'\n' allowed refl
        pos (omega (arith, mem.length-malloc 16)))
      (port_of-print _ port h)

pub get_master_port-image :
    (mem : Memory) (host : Bytes) (port : ℕ)
    → IsHost host
    → port < 2 ^ 16
    → get_master_port mem (some (image host port)) ≡ ok port
get_master_port-image mem host port (allowed, pos, room) h =
    get_master_port-word mem host port (host-word host allowed) pos room h
