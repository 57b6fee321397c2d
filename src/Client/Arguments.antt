-- ===== src/Client/Arguments.antt =====
-- What parse_args of src/client/arg_parser.c accepts, and what operation_handler then gets.
use pekar_drive.Common.{
  ℕ, ◌+◌, ◌%◌, ◌^◌, ◌<◌, ◌≤◌, ◌≡◌, ◌≢◌, refl, subst, Bool, Bool-cases, ◌⊎◌, inl, inr, true, false,
  Option, none, some, List, [], ◌∷◌, length, get_elem?, ltb, leb, ◌==◌, ◌&&◌, not, if◌then◌else◌,
  arith,
}
use pekar_drive.Result.{Result, Fault, Result-cases, ok, err, ◌>>=◌}
use pekar_drive.Memory.{Bytes, Memory}
use pekar_drive.Memory.Strings.{codes, same}
use pekar_drive.Client.{
  ErrorMsg, parse_args, parse_operation, parse_named, set_err_msg, parse_ls, parse_read,
  parse_write, parse_append, parse_delete, parse_set_ip, parse_set_port, Call, nothing,
  operation_handler, main,
}
use pekar_drive.Client.Settings.{get_master_host}

-- The number of operands that an operation takes.
abbrev pub operands : Bytes → Option ℕ
operands op =
    if same op (codes "ls")
    then some 0
    else if same op (codes "read")
    then some 1
    else if same op (codes "write")
    then some 2
    else if same op (codes "append")
    then some 2
    else if same op (codes "delete")
    then some 1
    else if same op (codes "set-ip")
    then some 1
    else if same op (codes "set-port")
    then some 1
    else none

-- Whether there are at least the operands that the operation takes.
abbrev pub enough : Option ℕ → ℕ → Bool
enough none given = false
enough (some n) given = leb n given

-- Whether there are exactly the operands that the operation takes.
abbrev pub exact : Option ℕ → ℕ → Bool
exact none given = false
exact (some n) given = n == given

-- A result with an error message, and whether the message was there before.
abbrev pub Outcome : Bool → Bool → ErrorMsg → Bool × ErrorMsg → Type 0
Outcome accepted silent e r =
    (r.0 ≡ accepted) × (if silent then r.1 ≡ e else (msg : Bytes) × (r.1 ≡ some msg))

ls-Outcome : (n : ℕ) (e : ErrorMsg) → Outcome (leb 0 n) (0 == n) e (parse_ls (n + 2) e)
unfolding parse_ls
ls-Outcome n e = ground arith

read-Outcome : (n : ℕ) (e : ErrorMsg) → Outcome (leb 1 n) (1 == n) e (parse_read (n + 2) e)
unfolding parse_read
read-Outcome n e = ground arith

write-Outcome : (n : ℕ) (e : ErrorMsg) → Outcome (leb 2 n) (2 == n) e (parse_write (n + 2) e)
unfolding parse_write
write-Outcome n e = ground arith

append-Outcome : (n : ℕ) (e : ErrorMsg) → Outcome (leb 2 n) (2 == n) e (parse_append (n + 2) e)
unfolding parse_append
append-Outcome n e = ground arith

delete-Outcome : (n : ℕ) (e : ErrorMsg) → Outcome (leb 1 n) (1 == n) e (parse_delete (n + 2) e)
unfolding parse_delete
delete-Outcome n e = ground arith

set_ip-Outcome : (n : ℕ) (e : ErrorMsg) → Outcome (leb 1 n) (1 == n) e (parse_set_ip (n + 2) e)
unfolding parse_set_ip
set_ip-Outcome n e = ground arith

set_port-Outcome : (n : ℕ) (e : ErrorMsg) → Outcome (leb 1 n) (1 == n) e (parse_set_port (n + 2) e)
unfolding parse_set_port
set_port-Outcome n e = ground arith

module _ (n : ℕ) (e : ErrorMsg) where
  abbrev Fits : Option ℕ → Bool × ErrorMsg → Type 0
  Fits o r = Outcome (enough o n) (exact o n) e r

  Fits-if :
      (b : Bool) (o o' : Option ℕ) (r r' : Bool × ErrorMsg)
      → Fits o r
      → Fits o' r'
      → Fits (if b then o else o') (if b then r else r')
  Fits-if true o o' r r' h h' = h
  Fits-if false o o' r r' h h' = h'

  parse_named-Fits : (op : Bytes) → Fits (operands op) (parse_named op (n + 2) e)
  unfolding parse_named set_err_msg
  parse_named-Fits op = Fits-if (same op (codes "ls")) _ _ _ _ (ls-Outcome n e) (
      Fits-if (same op (codes "read")) _ _ _ _ (read-Outcome n e) (
        Fits-if (same op (codes "write")) _ _ _ _ (write-Outcome n e) (
          Fits-if (same op (codes "append")) _ _ _ _ (append-Outcome n e) (
            Fits-if (same op (codes "delete")) _ _ _ _ (delete-Outcome n e) (
              Fits-if (same op (codes "set-ip")) _ _ _ _ (set_ip-Outcome n e) (
                Fits-if (same op (codes "set-port")) _ _ _ _ (set_port-Outcome n e)
                  (refl, (_, refl))))))))

-- For a program name, an operation and fewer than 65534 operands, parse_args returns a result. It
-- accepts exactly if the operation is known and there are at least as many operands as it takes;
-- the error message stays as it was if there are as many as it takes, and is set otherwise.
pub parse_args_lem :
    (prog op : Bytes) (rest : List Bytes) (e : ErrorMsg)
    → length rest + 2 < 2 ^ 16
    → (r : Bool × ErrorMsg) × (parse_args (prog ∷ op ∷ rest) (length rest + 2) e ≡ ok r)
      × Outcome (enough (operands op) (length rest)) (exact (operands op) (length rest)) e r
unfolding parse_args parse_operation
parse_args_lem prog op rest e small =
    let e1 : ltb (length rest + 2) 2 ≡ false = ground arith in
    let e2 : (length rest + 2) % 2 ^ 16 ≡ length rest + 2 = omega arith in
    (parse_named op (length rest + 2) e, rw (e1, e2), parse_named-Fits (length rest) e op)

-- A call is made.
abbrev pub is_call : Call → Bool
is_call nothing = false
is_call _ = true

abbrev pub calls : Result Call → Bool
calls (ok call) = is_call call
calls (err _) = false

handles :
    (op : Bytes) (k : ℕ) (e : ErrorMsg) (arg1 arg2 : Option Bytes)
    → (parse_named op k e).0 ≡ true
    → (2 < k → arg1 ≢ none)
    → (3 < k → arg2 ≢ none)
    → calls (operation_handler op arg1 arg2) ≡ true
unfolding parse_named operation_handler parse_ls parse_read parse_write parse_append parse_delete
    parse_set_ip parse_set_port
handles op k e none arg2 accepted first second = ground arith
handles op k e (some x) none accepted first second = ground arith
handles op k e (some x) (some y) accepted first second = ground arith

-- The program ends without a call, or makes one.
abbrev pub ends : Result (Option Call) → Bool
ends (ok none) = true
ends (ok (some call)) = is_call call
ends (err _) = false

ends-call : (r : Result Call) → calls r ≡ true → ends (do call ← r; ok (some call)) ≡ true
ends-call (ok call) h = h
ends-call (err f) h = absurd (ground arith)

arg1-some :
    (prog op : Bytes) (rest : List Bytes) (k : ℕ)
    → k ≤ length rest + 2
    → 2 < k
    → (if leb 3 (length rest + 2) then get_elem? (prog ∷ op ∷ rest) 2 else none) ≢ none
arg1-some prog op [] k h h' = absurd (omega arith)
arg1-some prog op (a ∷ rest) k h h' =
    let e : leb 3 (length (a ∷ rest) + 2) ≡ true = ground arith in rw e (ground arith)

arg2-some :
    (prog op : Bytes) (rest : List Bytes) (k : ℕ)
    → k ≤ length rest + 2
    → 3 < k
    → (if leb 4 (length rest + 2) then get_elem? (prog ∷ op ∷ rest) 3 else none) ≢ none
arg2-some prog op [] k h h' = absurd (omega arith)
arg2-some prog op (a ∷ []) k h h' = absurd (omega arith)
arg2-some prog op (a ∷ b ∷ rest) k h h' =
    let e : leb 4 (length (a ∷ b ∷ rest) + 2) ≡ true = ground arith in rw e (ground arith)

-- The end of `main` for an accepted operation: it ends, unless the address cannot be read.
MainOutcome : Memory → Option Bytes → Result (Option Call) → Type 0
MainOutcome mem file r =
    (ends r ≡ true) ⊎ ((f : Fault) × (get_master_host mem file ≡ err f) × (r ≡ err f))

asks_host :
    (mem : Memory) (file : Option Bytes) (b : Bool) (called : Result (Option Call))
    → ends called ≡ true
    → MainOutcome mem file (
        if b
        then (do host ← get_master_host mem file; elim host [ none ↦ ok none | some ip ↦ called ])
        else called)
unfolding MainOutcome
asks_host mem file false called h = inl h
asks_host mem file true called h = elim (Result-cases (get_master_host mem file)) [
  | inr (f, e) ↦ inr (f, e, rw e)
  | inl (none, e) ↦ inl (rw e)
  | inl (some ip, e) ↦ inl (rw e h)
]

operation-outcome :
    (mem : Memory) (file : Option Bytes) (prog op : Bytes) (rest : List Bytes)
    → MainOutcome mem file (main mem file (prog ∷ op ∷ rest) (length rest + 2))
unfolding main parse_args parse_operation MainOutcome
operation-outcome mem file prog op rest =
    let k = (length rest + 2) % 2 ^ 16 in
    let several : ltb (length rest + 2) 2 ≡ false = ground arith in
    let wraps : k ≤ length rest + 2 = omega arith in
    elim (Bool-cases ((parse_named op k none).0)) [
      | inr refused ↦ rw (several, refused) (inl refl)
      | inl accepted ↦
          rw (several, accepted)
            (asks_host mem file (not (same op (codes "set-ip")) && not (same op (codes "set-port")))
              _
              (ends-call _ (
                handles op k none _ _ accepted (arg1-some prog op rest k wraps)
                  (arg2-some prog op rest k wraps))))
    ]

-- Whatever the arguments and the configuration, the program ends without a call or makes one of its
-- calls, and uses no operand that is missing; but where get_master_host faults on the
-- configuration, it may end with this fault.
pub main-ends :
    (mem : Memory) (file : Option Bytes) (argv : List Bytes)
    → (ends (main mem file argv (length argv)) ≡ true)
      ⊎ ((f : Fault) × (get_master_host mem file ≡ err f)
          × (main mem file argv (length argv) ≡ err f))
unfolding main parse_args MainOutcome
main-ends mem file [] = inl refl
main-ends mem file (prog ∷ []) = inl refl
main-ends mem file (prog ∷ op ∷ rest) =
    let argc : length rest + 2 ≡ length (prog ∷ op ∷ rest) = omega arith in
    subst (λ n. MainOutcome mem file (main mem file (prog ∷ op ∷ rest) n)) argc
      (operation-outcome mem file prog op rest)
