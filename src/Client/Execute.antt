-- ===== src/Client/Execute.antt =====
-- The operations of the client, exec_ls to exec_set_port of src/client/client.c: what is printed, and
-- the configuration file then. The system and the master are the parameters `sys` and `reply` of
-- lib/interface.c.
pub mod Commands
use pekar_drive.Common.{
  ℕ, zero, suc, ◌+◌, ◌-◌, ◌%◌, ◌^◌, Bool, true, false, Option, none, some, List, [], ◌∷◌, ◌++◌,
  if◌then◌else◌,
}
use pekar_drive.Common.Int.{ℤ, pos, negsuc}
use pekar_drive.Result.{Result, ok, err, null_pointer, ◌>>=◌}
use pekar_drive.Memory.{Bytes, Memory}
use pekar_drive.Memory.Strings.{codes, text}
use pekar_drive.Memory.Decimal.{print_long}
use pekar_drive.Comm.{Sockets}
use pekar_drive.Interface.{atoi, narrow, list_files, file_read, file_write, file_delete}
use pekar_drive.Client.{Call, nothing}
use pekar_drive.Client.Settings.{get_master_host, get_master_port, set_master_host, set_master_port}

-- The conversion to an `unsigned short`.
abbrev pub as_short : ℤ → ℕ
as_short (pos n) = n % 2 ^ 16
as_short (negsuc n) = 2 ^ 16 - 1 - n % 2 ^ 16

abbrev is_zero : ℤ → Bool
is_zero (pos zero) = true
is_zero (pos (suc n)) = false
is_zero (negsuc n) = false

module _ (mem : Memory) (sys : Sockets) (reply : Bytes → List Bytes) where
  -- The text of MASTER_ADDR, where it is used.
  abbrev master_addr : Option Bytes → Result Bytes
  master_addr none = err null_pointer
  master_addr (some ip) = text (ip ++ mem.behind)

  -- A result is printed as a string, and `NULL` is not.
  abbrev printed : Option Bytes → Result Bytes
  printed none = ok []
  printed (some res) = do s ← text (res ++ mem.behind); ok (s ++ b'\n' ∷ [])

  unfoldable pub exec_ls : Option Bytes → Result Bytes
  exec_ls config = do
    port ← get_master_port mem config
    ip ← get_master_host mem config
    host ← master_addr ip
    res ← list_files mem sys reply host port
    printed res

  unfoldable pub exec_read : Bytes → Option Bytes → Result Bytes
  exec_read file config = do
    port ← get_master_port mem config
    ip ← get_master_host mem config
    host ← master_addr ip
    res ← file_read mem sys reply (file ++ 0 ∷ []) host port
    printed res

  -- The count is printed as an `int`.
  unfoldable pub exec_write_append : Bytes → Bytes → Bool → Option Bytes → Result Bytes
  exec_write_append file content isappend config = do
    port ← get_master_port mem config
    ip ← get_master_host mem config
    host ← master_addr ip
    bytes ← file_write mem sys reply (file ++ 0 ∷ []) (content ++ 0 ∷ []) isappend host port
    ok (codes "Wrote " ++ (print_long (narrow 32 bytes) ++ codes " bytes\n"))

  unfoldable pub exec_delete : Bytes → Option Bytes → Result Bytes
  exec_delete file config = do
    port ← get_master_port mem config
    ip ← get_master_host mem config
    host ← master_addr ip
    deleted ← file_delete mem sys reply (file ++ 0 ∷ []) host port
    ok (
        codes "File was "
        ++ ((if is_zero (narrow 16 deleted) then codes "not deleted" else codes "deleted")
            ++ codes ".\n"))

  unfoldable pub exec_set_ip : Bool → Bytes → Option Bytes → Result (Option Bytes)
  exec_set_ip writable ip config = set_master_host mem writable config (ip ++ 0 ∷ [])

  unfoldable pub exec_set_port : Bool → ℕ → Option Bytes → Result (Option Bytes)
  exec_set_port writable port config = set_master_port mem writable config port

  -- What a command of the shell does: what it prints, and the configuration then.
  unfoldable pub execute : Bool → Call → Option Bytes → Result (Bytes × Option Bytes)
  execute writable nothing config = ok ([], config)
  execute writable Call.exec_ls config = do out ← exec_ls config; ok (out, config)
  execute writable (Call.exec_read file) config = do out ← exec_read file config; ok (out, config)
  execute writable (Call.exec_write_append file content isappend) config = do
    out ← exec_write_append file content isappend config
    ok (out, config)
  execute writable (Call.exec_delete file) config = do
    out ← exec_delete file config
    ok (out, config)
  execute writable (Call.exec_set_ip ip) config = do
    config' ← exec_set_ip writable ip config
    ok ([], config')
  execute writable (Call.exec_set_port arg) config = do
    port ← atoi (arg ++ 0 ∷ [])
    config' ← exec_set_port writable (as_short port) config
    ok ([], config')
