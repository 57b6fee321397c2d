-- ===== src/Client/Settings.antt =====
-- The address of the master in the client's configuration: src/client/settings.c. The file is the
-- bytes of CONFIG_FILE, and `none` where it cannot be opened for reading; `writable` is whether it can
-- be opened for writing.
pub mod Scan
pub mod Refinement
use pekar_drive.Common.{
  ℕ, zero, suc, ◌+◌, ◌-◌, ◌*◌, ◌%◌, ◌^◌, Bool, true, false, Option, none, some, List, [], ◌∷◌, ◌++◌,
  length, leb, ◌==◌, ◌&&◌, ◌||◌, if◌then◌else◌,
}
use pekar_drive.Result.{Result, ok, err, uninitialised, ◌>>=◌}
use pekar_drive.Memory.{Bytes, Memory, store}
use pekar_drive.Memory.Strings.{codes, text}
use pekar_drive.Memory.Scan.{is_host, scan_set, host_of}
use pekar_drive.Memory.Decimal.{print, is_digit, is_space}

-- The set `[0-9.A-Za-z]`.
abbrev pub is_word : ℕ → Bool
is_word c = is_host c || leb b'A' c && leb c b'Z' || leb b'a' c && leb c b'z'

abbrev pub skip_space : Bytes → Bytes
skip_space [] = []
skip_space (c ∷ m) = let rest = skip_space m in if is_space c then rest else c ∷ m

-- The number that digits spell, up to the end of the file.
abbrev pub number : Bytes → ℕ → ℕ
number [] n = n
number (c ∷ m) n = let rest = number m (n * 10 + (c - b'0')) in if is_digit c then rest else n

abbrev starts_digit : Bytes → Bool
starts_digit [] = false
starts_digit (c ∷ m) = is_digit c

-- A conversion `%d` to an `unsigned`, for a number in the range of `long`.
unfoldable pub scan_int : Bytes → Option ℕ
scan_int [] = none
scan_int (c ∷ m) =
    let value = number m 0 in
    if c == b'-'
    then (if starts_digit m then some ((2 ^ 32 - value % 2 ^ 32) % 2 ^ 32) else none)
    else if c == b'+'
    then (if starts_digit m then some (value % 2 ^ 32) else none)
    else if is_digit c
    then some (number (c ∷ m) 0 % 2 ^ 32)
    else none

-- The block of the address, or `NULL`. Where no byte matches, the block keeps what `malloc` left in it.
unfoldable pub get_master_host : Memory → Option Bytes → Result (Option Bytes)
get_master_host mem none = ok none
get_master_host mem (some file) = do
  r ← scan_set is_host file (mem.malloc 16)
  ok (some (host_of mem r))

-- The port behind the address, as an `unsigned short`; it is not set where a conversion fails.
unfoldable pub as_port : Option ℕ → Result ℕ
as_port none = err uninitialised
as_port (some n) = ok (n % 2 ^ 16)

unfoldable pub port_of : Option (Bytes × Bytes) → Result ℕ
port_of none = err uninitialised
port_of (some r) = as_port (scan_int (skip_space r.1))

unfoldable pub get_master_port : Memory → Option Bytes → Result ℕ
get_master_port mem none = ok 0
get_master_port mem (some file) = do r ← scan_set is_word file (mem.malloc 16); port_of r

-- The text that `%s` prints.
unfoldable pub host_text : Memory → Option Bytes → Result Bytes
host_text mem none = ok (codes "unknown")
host_text mem (some ip) = text (ip ++ mem.behind)

-- The file behind it.
unfoldable pub set_master_address :
    Memory → Bool → Option Bytes → Option Bytes → ℕ → Result (Option Bytes)
set_master_address mem writable file ip port =
    if writable
    then (do host ← host_text mem ip; ok (some (host ++ b'\n' ∷ (print port ++ b'\n' ∷ []))))
    else ok file

unfoldable pub set_master_host : Memory → Bool → Option Bytes → Bytes → Result (Option Bytes)
set_master_host mem writable file host = do
  port ← get_master_port mem file
  set_master_address mem writable file (some host) port

unfoldable pub set_master_port : Memory → Bool → Option Bytes → ℕ → Result (Option Bytes)
set_master_port mem writable file port = do
  host ← get_master_host mem file
  set_master_address mem writable file host port
