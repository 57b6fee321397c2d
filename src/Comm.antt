-- ===== src/Comm.antt =====
-- Connections: include/comm.h and lib/comm.c. The socket calls of the system are the parameter
-- `Sockets`. The log lines are left out.
pub mod Laws
pub mod Examples
use pekar_drive.Common.{
  ℕ, zero, suc, ◌+◌, ◌-◌, ◌^◌, Bool, true, false, Option, none, some, List, [], ◌∷◌, ◌++◌, length,
  take, leb, ◌&&◌, ◌||◌, not, if◌then◌else◌,
}
use pekar_drive.Result.{Result, ok, err, out_of_bounds, null_pointer, ◌>>=◌}
use pekar_drive.Memory.{Bytes, Memory, load, store}
use pekar_drive.Memory.Scan.{is_host, scan_set, host_of}
use pekar_drive.Memory.Strings.{codes}

-- `conn`; `error_msg` is the string, and `none` for `NULL`.
pub record Conn : Type 0 where
  pub error : Bool
  pub error_msg : Option Bytes
  pub fd : ℕ
  pub max_bytes : ℕ

-- The block of the address that `hostname -I` prints; `output` is `none` where it cannot be run.
unfoldable pub get_ip : Memory → Option Bytes → Result Bytes
get_ip mem none = err null_pointer
get_ip mem (some output) = do r ← scan_set is_host output (mem.malloc 16); ok (host_of mem r)

-- The answers of the system to the socket calls: a descriptor or failure, success or failure.
pub record Sockets : Type 0 where
  pub socket : Option ℕ
  pub set_receive_timeout : ℕ → Bool
  pub set_send_timeout : ℕ → Bool
  pub inet_pton : Bytes → Bool
  pub connect : ℕ → Bytes → ℕ → Bool
  pub set_reuse : ℕ → Bool
  pub bind : ℕ → ℕ → Bool
  pub listen : ℕ → Bool
  pub accept : ℕ → Option ℕ

abbrev pub err_msg_len : ℕ
err_msg_len = 50

abbrev pub port : ℕ
port = 55443

abbrev pub debug_port : ℕ
debug_port = 55442

-- The bytes of `conn c = {.error = 1, .error_msg = malloc(len)}`, its string printed with its NUL.
-- The fields that the initialiser does not name are 0.
unfoldable pub err_conn : Bytes → ℕ → Result Conn
err_conn msg len =
    if leb (length msg + 1) len
    then ok (record { error = true; error_msg = some msg; fd = 0; max_bytes = 0 })
    else err out_of_bounds

-- The steps of client_init behind a socket that was opened.
unfoldable pub client_connect : Sockets → Bytes → ℕ → ℕ → Result Conn
unfolding err_conn
client_connect sys host port fd =
    if not (sys.set_receive_timeout fd) || not (sys.set_send_timeout fd)
    then err_conn (codes "Failed setting socket option.") err_msg_len
    else if not (sys.inet_pton host)
    then err_conn (codes "Invalid address or address not supported.") err_msg_len
    else if not (sys.connect fd host port)
    then err_conn (codes "Connection failed.") err_msg_len
    else ok (record { error = false; error_msg = some []; fd = fd; max_bytes = 0 })

unfoldable pub client_init : Sockets → Bytes → ℕ → Result Conn
unfolding client_connect err_conn
client_init sys host port = elim sys.socket [
  | none ↦ err_conn (codes "Failed initialising socket.") err_msg_len
  | some fd ↦ client_connect sys host port fd
]

unfoldable pub conn_listen : Sockets → ℕ → ℕ → Result Conn
unfolding err_conn
conn_listen sys server_fd port =
    if not (sys.set_reuse server_fd)
    then err_conn (codes "Failed setting socket option.") err_msg_len
    else if not (sys.bind server_fd port)
    then err_conn (codes "Failed binding.") err_msg_len
    else if not (sys.listen server_fd)
    then err_conn (codes "Failed listening.") err_msg_len
    else elim (sys.accept server_fd) [
      | none ↦ err_conn (codes "Failed accepting client.") err_msg_len
      | some fd ↦ ok (record { error = false; error_msg = none; fd = fd; max_bytes = 0 })
    ]

-- The bytes that `send` is handed: `len` bytes from the start of the buffer, also where the buffer is
-- shorter.
unfoldable pub conn_write : Memory → Bytes → ℕ → Result Bytes
conn_write mem buffer len = load len (buffer ++ mem.behind)

-- The buffer after a `read` of at most `len` of the bytes that arrived.
unfoldable pub conn_read : Bytes → ℕ → Bytes → Result Bytes
conn_read buffer len arrived = store buffer 0 (take len arrived)

-- The descriptor that is closed, and the connection behind it.
unfoldable pub conn_close : Conn → Result (ℕ × Conn)
unfolding err_conn
conn_close connection = do
  c ← err_conn (codes "Connection closed.") err_msg_len
  ok (connection.fd, c)

-- What `socket` returns: a descriptor, or -1.
abbrev pub fd_of : Option ℕ → ℕ
fd_of none = 2 ^ 32 - 1
fd_of (some fd) = fd
