-- ===== src/Boot.antt =====
-- How a worker starts: src/server/argument.c, src/server/boot.c and the start of `main`
-- of src/server/server.c. The shell, and what `hostname`
-- prints, are parameters. The log lines are left out.
pub mod Registration
pub mod Start
pub mod Examples
use pekar_drive.Common.{
  ℕ, zero, suc, ◌+◌, Bool, true, false, Option, none, some, List, [], ◌∷◌, ◌++◌, length, get_elem?,
  ltb, leb, ◌==◌, if◌then◌else◌,
}
use pekar_drive.Result.{Result, ok, err, out_of_bounds, out_of_fuel, ◌>>=◌}
use pekar_drive.Memory.{Bytes, Memory, store}
use pekar_drive.Memory.Strings.{codes, text}
use pekar_drive.Memory.Decimal.{print}
use pekar_drive.Comm.{Sockets, client_init, conn_write, get_ip, port}
use pekar_drive.Fs.{set_dir}
use pekar_drive.Packet.{register, p_init, attach_token, p_encode}

-- The message of argument.c.
unfoldable pub reset_error_msg : Bytes → Option Bytes → Option Bytes
reset_error_msg new_err old = some new_err

-- The argument, or `NULL`, and the message.
unfoldable pub parse_to_ip : List Bytes → ℕ → Option Bytes → Option Bytes × Option Bytes
unfolding reset_error_msg
parse_to_ip argv argc e =
    if ltb argc 2
    then (none, reset_error_msg (codes "Missing IP argument.") e)
    else if ltb 2 argc
    then (get_elem? argv 1, reset_error_msg (codes "Only IP argument is required.") e)
    else (get_elem? argv 1, e)

-- What register_worker prints to a block of 21 bytes, with its NUL.
unfoldable pub worker_address : Bytes → ℕ → Result Bytes
worker_address ip own_port =
    let msg = ip ++ b';' ∷ print own_port in
    if leb (length msg + 1) 21 then ok (msg ++ 0 ∷ []) else err out_of_bounds

-- The bytes that register_worker hands to `send`.
unfoldable pub register_message : Memory → ℕ → Bytes → ℕ → Result Bytes
register_message mem worker_tkn ip own_port = do
  msg ← worker_address ip own_port
  p ← p_init 0 msg register
  encoded ← p_encode mem (attach_token worker_tkn p)
  conn_write mem encoded 40

-- The loop that sends until the count, which is unsigned, is not 0: how often it sent. `counts` is what
-- each `send` returns.
unfoldable pub send_until : (ℕ → ℕ) → ℕ → ℕ → Result ℕ
send_until counts zero i = err out_of_fuel
send_until counts (suc fuel) i =
    let rest = send_until counts fuel (i + 1) in if counts i == 0 then rest else ok (i + 1)

-- register_worker: whether it succeeds, and the messages that it sent. `output` is what get_ip reads.
unfoldable pub boot_register :
    Memory
    → Sockets
    → (ℕ → ℕ)
    → ℕ
    → Bytes
    → ℕ
    → ℕ
    → Option Bytes
    → Result (Bool × Option (ℕ × Bytes))
boot_register mem sys counts fuel host master_port worker_tkn output = do
  worker ← client_init sys host master_port
  (if worker.error then ok (false, none) else do
    block ← get_ip mem output
    ip ← text (block ++ mem.behind)
    message ← register_message mem worker_tkn ip port
    n ← send_until counts fuel 0
    ok (true, some (n, message)))

-- The command that the shell is given to make the directory, and the directory to work in.
unfoldable pub data_init : Memory → Bytes → Result (Bytes × Option Bytes)
data_init mem worker_dir = do
  command ← store (mem.malloc (length worker_dir + 10)) 0 (codes "mkdir " ++ (worker_dir ++ 0 ∷ []))
  ok (command, set_dir worker_dir)

-- What a boot leaves: whether the worker is registered, what was sent, the command, and the directory.
pub record Booted : Type 0 where
  pub succeeded : Bool
  pub sent : Option (ℕ × Bytes)
  pub command : Bytes
  pub work_dir : Option Bytes

unfoldable pub boot :
    Memory → Sockets → (ℕ → ℕ) → ℕ → Bytes → Bytes → ℕ → ℕ → Option Bytes → Result Booted
boot mem sys counts fuel worker_dir master_ip master_port worker_tkn output = do
  (command, work_dir) ← data_init mem worker_dir
  (succeeded, sent) ← boot_register mem sys counts fuel master_ip master_port worker_tkn output
  ok (record { succeeded = succeeded; sent = sent; command = command; work_dir = work_dir })

unfoldable pub get_parse_error : Option Bytes → Option Bytes
get_parse_error e = e

-- The start of `main` of src/server/server.c: nothing where the program ends.
unfoldable pub worker_start :
    Memory
    → Sockets
    → (ℕ → ℕ)
    → ℕ
    → Bytes
    → List Bytes
    → ℕ
    → ℕ
    → ℕ
    → Option Bytes
    → Result (Option Booted)
worker_start mem sys counts fuel worker_dir argv argc master_port worker_tkn output =
    elim (parse_to_ip argv argc none).0 [
      | none ↦ ok none
      | some ip ↦ do
        b ← boot mem sys counts fuel worker_dir ip master_port worker_tkn output
        (if b.succeeded then ok (some b) else ok none)
    ]
