-- ===== src/Client/Settings/Refinement.antt =====
-- The settings of src/client/settings.c against a pair of an address and a port.
use pekar_drive.Common.{
  ℕ, ◌^◌, ◌<◌, ◌≡◌, refl, ap, ◌∙◌, true, Option, none, some, List, [], ◌∷◌, ◌++◌, append_assoc, All,
  arith,
}
use pekar_drive.Result.{Result, ok, ◌>>=◌}
use pekar_drive.Memory.{Bytes, Memory}
use pekar_drive.Memory.Strings.{codes, text, text-append}
use pekar_drive.Memory.Scan.{IsHost, host-IsText, host_of, scan_set}
use pekar_drive.Client.Settings.{
  get_master_host, get_master_port, host_text, set_master_address, set_master_host, set_master_port,
}
use pekar_drive.Client.Settings.Scan.{
  image, get_master_host-image, get_master_port-image, get_master_port-word,
}

-- What the settings are for.
pub record Address : Type 0 where
  pub host : Bytes
  pub port : ℕ

pub data Command : Type 0 where
  set_host : Bytes → Command
  set_port : ℕ → Command

-- An address that can be read back, or a port.
abbrev pub IsValid : Command → Type 0
IsValid (set_host host) = IsHost host
IsValid (set_port port) = port < 2 ^ 16

abbrev pub apply : Address → Command → Address
apply a (set_host host) = record a { host = host }
apply a (set_port port) = record a { port = port }

abbrev pub apply_all : Address → List Command → Address
apply_all a [] = a
apply_all a (c ∷ commands) = apply_all (apply a c) commands

-- The call of a command, with the text of an address as the argument vector holds it.
abbrev pub perform : Memory → Option Bytes → Command → Result (Option Bytes)
perform mem file (set_host host) = set_master_host mem true file (host ++ 0 ∷ [])
perform mem file (set_port port) = set_master_port mem true file port

abbrev pub perform_all : Memory → Option Bytes → List Command → Result (Option Bytes)
perform_all mem file [] = ok file
perform_all mem file (c ∷ commands) = do file' ← perform mem file c; perform_all mem file' commands

abbrev pub IsAddress : Address → Type 0
IsAddress a = IsHost a.host × (a.port < 2 ^ 16)

host_text-append :
    (mem : Memory) (host rest : Bytes)
    → IsHost host
    → host_text mem (some (host ++ 0 ∷ rest)) ≡ ok host
unfolding host_text
host_text-append mem host rest (allowed, pos, room) =
    ap text (append_assoc host (0 ∷ rest) mem.behind)
    ∙ text-append host (rest ++ mem.behind) (host-IsText host allowed)

set_master_address-image :
    (mem : Memory) (file : Option Bytes) (host rest : Bytes) (port : ℕ)
    → IsHost host
    → set_master_address mem true file (some (host ++ 0 ∷ rest)) port ≡ ok (some (image host port))
unfolding set_master_address
set_master_address-image mem file host rest port h = rw (host_text-append mem host rest h)

-- A command does to the file what it does to the address.
perform-image :
    (mem : Memory) (a : Address) (c : Command)
    → IsAddress a
    → IsValid c
    → perform mem (some (image a.host a.port)) c
      ≡ ok (some (image (apply a c).host (apply a c).port))
unfolding set_master_host set_master_port
perform-image mem a (set_host host) (h, p) v =
    rw (get_master_port-image mem a.host a.port h p)
      (set_master_address-image mem _ host [] a.port v)
perform-image mem a (set_port port) (h, p) v =
    let (rest, read) = get_master_host-image mem a.host a.port h in
    rw read (set_master_address-image mem _ a.host rest port h)

apply-IsAddress : (a : Address) (c : Command) → IsAddress a → IsValid c → IsAddress (apply a c)
apply-IsAddress a (set_host host) (h, p) v = (v, p)
apply-IsAddress a (set_port port) (h, p) v = (h, v)

perform_all-image :
    (mem : Memory) (a : Address) (commands : List Command)
    → IsAddress a
    → All IsValid commands
    → (perform_all mem (some (image a.host a.port)) commands
        ≡ ok (some (image (apply_all a commands).host (apply_all a commands).port)))
      × IsAddress (apply_all a commands)
perform_all-image mem a [] h v = (refl, h)
perform_all-image mem a (c ∷ commands) h v =
    let (rest, sound) =
      perform_all-image mem (apply a c) commands (apply-IsAddress a c h v.0) v.1 in
    (rw (perform-image mem a c h v.0) rest, sound)

set_master_host-missing :
    (mem : Memory) (host : Bytes)
    → IsHost host
    → set_master_host mem true none (host ++ 0 ∷ []) ≡ ok (some (image host 0))
unfolding set_master_host get_master_port
set_master_host-missing mem host h = set_master_address-image mem none host [] 0 h

-- If there is no configuration file, and it can be written, then after set_master_host and any
-- sequence of calls of set_master_host and set_master_port, the file is written, get_master_host
-- gives the last address that was set, with its NUL, and get_master_port the last port, or 0 if
-- none was set. Each address has one to fifteen digits and dots, and each port is below 2^16.
pub settings-refinement :
    (mem : Memory) (host : Bytes) (commands : List Command)
    → IsHost host
    → All IsValid commands
    → (file : Option Bytes) × (rest : Bytes) × (perform_all mem none (set_host host ∷ commands)
        ≡ ok file)
      × (get_master_host mem file
          ≡ ok (some ((apply_all (record { host = host; port = 0 }) commands).host ++ 0 ∷ rest)))
      × (get_master_port mem file ≡ ok (apply_all (record { host = host; port = 0 }) commands).port)
settings-refinement mem host commands h v =
    let a : Address = record { host = host; port = 0 } in
    let (performed, (h', p')) = perform_all-image mem a commands (h, omega arith) v in
    let (rest, read) =
      get_master_host-image mem (apply_all a commands).host (apply_all a commands).port h' in
    (
      _,
      rest,
      rw (set_master_host-missing mem host h) performed,
      read,
      get_master_port-image mem (apply_all a commands).host (apply_all a commands).port h' p',
    )

-- If there is no configuration file, then set_master_port of a port below 2^16 writes one for which
-- get_master_host returns its block as malloc left it, and get_master_port the port.
pub get_master_host-unknown :
    (mem : Memory) (port : ℕ)
    → port < 2 ^ 16
    → (file : Option Bytes) × (set_master_port mem true none port ≡ ok file)
      × (get_master_host mem file ≡ ok (some (mem.malloc 16)))
      × (get_master_port mem file ≡ ok port)
unfolding set_master_port set_master_address get_master_host host_text scan_set host_of
get_master_host-unknown mem port h = (
  _,
  refl,
  refl,
  get_master_port-word mem (codes "unknown") port
      (refl, (refl, (refl, (refl, (refl, (refl, (refl, tt))))))) (omega arith) (omega arith) h,
)
