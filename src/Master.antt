-- ===== src/Master.antt =====
-- The master: src/master.c. The loop of `main` hands each connection to handle_client, which is
-- modelled from what its `read` gives to what it sends. The log lines are left out.
pub mod CharAt
pub mod Register
pub mod Keeps
pub mod Invariant
pub mod Loop
pub mod Turn
pub mod Reach
pub mod Threads
pub mod Requests
pub mod Removal
pub mod Examples
use pekar_drive.Common.{
  ℕ, zero, suc, ◌+◌, ◌-◌, ◌%◌, ◌^◌, Bool, true, false, Option, none, some, List, [], ◌∷◌, ◌++◌,
  length, take, drop, ltb, leb, ◌==◌, not, ◌||◌, ◌&&◌, if◌then◌else◌,
}
use pekar_drive.Common.Int.{ℤ, pos, negsuc}
use pekar_drive.Result.{Result, ok, err, out_of_bounds, null_pointer, ◌>>=◌}
use pekar_drive.Memory.{Bytes, Memory, load, store}
use pekar_drive.Memory.Strings.{codes, text, strlen, strncpy}
use pekar_drive.Memory.Decimal.{atol, print_long}
use pekar_drive.Comm.{conn_write, conn_read}
use pekar_drive.Packet.{
  MsgType, ping, ls, write, read, append, register, delete, other, type_code, Packet, p_decode,
}
use pekar_drive.ServerTable.{FileServer, Table}
use pekar_drive.WorkerAdmin.{
  Network, add_worker, worker_count, worker_ls, worker_read, worker_write, worker_append,
  worker_delete, received,
}

-- The globals: the server table, and `worker_id` of handle_client.
pub record Master : Type 0 where
  pub table : Table
  pub worker_id : ℕ

abbrev pub read_sz : ℕ
read_sz = 10000

abbrev pub server_error : Bytes
server_error = codes "Server error." ++ 0 ∷ []

-- The loop of char_at, from the index on; `size` is the length of the string.
unfoldable pub char_from : ℕ → ℕ → Bytes → ℕ → Result (Option ℕ)
char_from c size [] index = err out_of_bounds
char_from c size (b ∷ m) index =
    let next = char_from c size m (index + 1) in
    if b == c then ok (some index) else if index + 1 == size then ok none else next

-- -1 is `none`.
unfoldable pub char_at : Bytes → ℕ → Result (Option ℕ)
char_at str c = do size ← strlen str; char_from c (size % 2 ^ 32) str 0

-- The conversion to `unsigned short`.
unfoldable pub to_u16 : ℤ → ℕ
to_u16 (pos n) = n % 2 ^ 16
to_u16 (negsuc n) = 2 ^ 16 - 1 - n % 2 ^ 16

-- The block that the address is copied to, with no NUL behind it. Without a semicolon the length of the
-- copy is -1, as a `size_t`.
unfoldable pub parse_ip : Memory → Bytes → Result Bytes
parse_ip mem str = do
  size ← strlen str
  sep ← char_at str b';'
  elim sep [
    | none ↦ err out_of_bounds
    | some n ↦ do ip ← strncpy n str; store (mem.malloc size) 0 ip
  ]

unfoldable pub parse_port : Bytes → Result ℕ
unfolding to_u16
parse_port str = do
  sep ← char_at str b';'
  n ← atol (elim sep [ none ↦ str | some i ↦ drop (i + 1) str ])
  ok (to_u16 n)

-- The block of ten bytes, printed with its NUL.
unfoldable pub long2str : ℤ → Result Bytes
unfolding print_long
long2str val =
    let s = print_long val in if leb (length s + 1) 10 then ok (s ++ 0 ∷ []) else err out_of_bounds

-- The new worker of a REGISTER packet. The address is copied to a block of 16 bytes.
unfoldable pub new_worker : Memory → Bytes → ℕ → Result FileServer
new_worker mem arg id = do
  port ← parse_port arg
  block ← parse_ip mem arg
  ip ← text (block ++ mem.behind)
  (if leb (length ip + 1) 16
      then ok (record { id = id; size = 0; ip = ip; port = port })
      else err out_of_bounds)

-- What is handed to `send` when a client is told that there are no workers.
unfoldable pub service_available : Master → Bool × Option Bytes
unfolding worker_count
service_available m =
    if worker_count m.table == 0
    then (false, some (codes "Service unavailable." ++ 0 ∷ []))
    else (true, none)

-- The answer to a request: the string that was returned, with its NUL. `strlen(NULL)` is an access
-- through `NULL`.
unfoldable pub answer : Memory → Option Bytes → Result Bytes
answer mem none = err null_pointer
answer mem (some ret_val) = do n ← strlen (ret_val ++ mem.behind); conn_write mem ret_val (n + 1)

module _ (mem : Memory) (master_tkn : ℕ) (net : Network) where
  -- The strings that the functions return are what their pointer shows, or `none` for `NULL`.
  unfoldable pub exec_str : MsgType → Bytes → Table → Result (Option Bytes × Table)
  exec_str ls arg t = do (s, t) ← worker_ls mem master_tkn net t; ok (some s, t)
  exec_str read arg t = worker_read arg t
  exec_str _ arg t = ok (some server_error, t)

  -- exec_long behind the search for the separator, for each message type. Of the two copies the file
  -- name has no NUL behind it.
  unfoldable pub exec_split : MsgType → ℕ → Bytes → Table → Result (Option Bytes × Table)
  exec_split write n arg t = do
    file ← strncpy n arg
    content ← text (drop (n + 1) arg)
    (val, t) ←
        worker_write mem master_tkn net (file ++ mem.behind) ((content ++ 0 ∷ []) ++ mem.behind) t
    s ← long2str val
    ok (some s, t)
  exec_split append n arg t = do
    file ← strncpy n arg
    content ← text (drop (n + 1) arg)
    (val, t) ← worker_append (file ++ mem.behind) ((content ++ 0 ∷ []) ++ mem.behind) t
    s ← long2str val
    ok (some s, t)
  exec_split _ n arg t = do
    file ← strncpy n arg
    content ← text (drop (n + 1) arg)
    ok (some server_error, t)

  unfoldable pub exec_long : MsgType → Bytes → Table → Result (Option Bytes × Table)
  exec_long msg_type arg t = do
    separator ← char_at arg b';'
    elim separator [ none ↦ ok (some server_error, t) | some n ↦ exec_split msg_type n arg t ]

  unfoldable pub handle_request : MsgType → Bytes → Table → Result (Option Bytes × Table)
  handle_request ls arg t = exec_str ls arg t
  handle_request read arg t = exec_str read arg t
  handle_request write arg t = exec_long write arg t
  handle_request append arg t = exec_long append arg t
  handle_request delete arg t = do
    (sent, t) ← worker_delete mem master_tkn net arg t
    ok (some (codes "1" ++ 0 ∷ []), t)
  handle_request _ arg t = ok (some server_error, t)

  -- The branch of handle_client for a REGISTER packet.
  unfoldable pub register_worker : ℕ → Packet → Master → Result (Option Bytes × Master)
  register_worker worker_tkn p m = if not (p.token == worker_tkn) then ok (none, m) else do
    worker ← new_worker mem (p.arg ++ mem.behind) m.worker_id
    t ← add_worker worker m.table
    ok (none, record { table = t; worker_id = (m.worker_id + 1) % 2 ^ 32 })

  -- The branch for the requests of clients.
  unfoldable pub serve : Packet → Master → Result (Option Bytes × Master)
  serve p m = do
    (ret_val, t) ← handle_request p.msg_type (p.arg ++ mem.behind) m.table
    sent ← answer mem ret_val
    ok (some sent, record m { table = t })

  -- What handle_client does with a decoded packet: the bytes that it sends, if it does.
  unfoldable pub handle_packet : ℕ → Packet → Master → Result (Option Bytes × Master)
  unfolding type_code
  handle_packet worker_tkn p m =
      let (available, told) = service_available m in
      if type_code p.msg_type == type_code register
      then register_worker worker_tkn p m
      else if not available
      then ok (told, m)
      else serve p m

  -- handle_client, for what `read` gave.
  unfoldable pub handle_client : ℕ → Option Bytes → Master → Result (Option Bytes × Master)
  handle_client worker_tkn arrived m = if length (received arrived) == 0 then ok (none, m) else do
    buffer ← conn_read (mem.malloc read_sz) read_sz (received arrived)
    p ← p_decode (buffer ++ mem.behind)
    handle_packet worker_tkn p m
