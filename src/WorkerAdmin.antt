-- ===== src/WorkerAdmin.antt =====
-- The master's side of the workers: src/worker_admin.c and src/balance.c.
-- A connection to a worker is asked once: the parameter `Network` says whether what is sent goes out,
-- and what a `read` on the connection then gives. The log lines are left out.
pub mod Requests
pub mod Ping
pub mod Write
pub mod Keeps
pub mod Listings
pub mod Manager
pub mod Examples
use pekar_drive.Common.{
  ℕ, zero, suc, ◌+◌, ◌-◌, ◌%◌, ◌^◌, Bool, true, false, Option, none, some, List, [], ◌∷◌, ◌++◌,
  length, take, ltb, leb, ◌==◌, not, ◌||◌, if◌then◌else◌,
}
use pekar_drive.Common.Int.{ℤ, pos, negsuc}
use pekar_drive.Result.{Result, ok, err, out_of_bounds, null_pointer, overlap, ◌>>=◌}
use pekar_drive.Memory.{Bytes, Memory, load, store, realloc}
use pekar_drive.Memory.Strings.{text, strlen, strstr}
use pekar_drive.Memory.Decimal.{atol}
use pekar_drive.Comm.{conn_write, conn_read}
use pekar_drive.Packet.{
  MsgType, ping, ls, write, delete, type_code, Packet, p_init, attach_token, p_encode, p_decode,
  sizeof_packet,
}
use pekar_drive.ServerTable.{
  FileServer, Table, entry, add_server, remove_server, getfs_index, table_count,
}

-- What one connection does: whether `send` succeeds, and what `read` gives: `none` for -1, and no
-- bytes for 0.
pub record Exchange : Type 0 where
  pub sent : Bool
  pub answer : Option Bytes

-- The exchange with the worker at an address and a port, for the bytes that it is sent.
abbrev pub Network : Type 0
Network = Bytes → ℕ → Bytes → Exchange

-- The bytes that arrived; none where `read` gave -1 or 0.
abbrev pub received : Option Bytes → Bytes
received none = []
received (some bytes) = bytes

abbrev pub worker_read_len : ℕ
worker_read_len = 5000

-- Bytes that are sent to the worker at an address and a port.
pub record Delivery : Type 0 where
  pub ip : Bytes
  pub port : ℕ
  pub message : Bytes

-- `sprintf` of a string into a block. `own` says whether the block is itself one of the strings that
-- are printed: then the copy is between objects that overlap, which C leaves undefined.
unfoldable pub sprintf : Bool → Bytes → Bytes → Result Bytes
sprintf own block s = if own then err overlap else store block 0 (s ++ 0 ∷ [])

-- A pointer to an entry that may be `NULL`.
unfoldable pub deref : Table → Option ℕ → Result FileServer
unfolding entry
deref t none = err null_pointer
deref t (some i) = entry t.servers i

-- balance.c
unfoldable pub least_load : Table → Result (Option ℕ × Table)
unfolding table_count
least_load t = if table_count t == 0 then ok (none, t) else getfs_index 0 t

unfoldable pub add_worker : FileServer → Table → Result Table
add_worker worker t = add_server worker t

unfoldable pub worker_count : Table → ℕ
unfolding table_count
worker_count t = table_count t

unfoldable pub worker_append : Bytes → Bytes → Table → Result (ℤ × Table)
worker_append file content t = ok (negsuc 0, t)

-- Always `NULL`.
unfoldable pub worker_read : Bytes → Table → Result (Option Bytes × Table)
worker_read file t = ok (none, t)

module _ (mem : Memory) where
  -- handle_ping_response, for what `read` gave. A worker that sent nothing is removed, and the buffer,
  -- which then holds what `malloc` left in it, is decoded all the same.
  unfoldable pub handle_ping_response : Option Bytes → FileServer → Table → Result Table
  unfolding type_code
  handle_ping_response response worker_server t = do
    let buffer = mem.malloc (sizeof_packet + 10)
    let bytes = received response
    t ← (if length bytes == 0 then remove_server worker_server.id t else ok t)
    buffer ← conn_read buffer (sizeof_packet + 10) bytes
    p ← p_decode (buffer ++ mem.behind)
    (if type_code p.msg_type == type_code ping then ok t else remove_server worker_server.id t)

  -- written_bytes, for what `read` gave.
  unfoldable pub written_bytes : Option Bytes → Result ℤ
  written_bytes none = ok (negsuc 0)
  written_bytes (some bytes) = do
    buffer ← conn_read (mem.malloc (sizeof_packet + 10)) (sizeof_packet + 10) bytes
    p ← p_decode (buffer ++ mem.behind)
    atol (p.arg ++ mem.behind)

module _ (mem : Memory) (master_tkn : ℕ) where
  -- The packet of a request, as it is handed to `send`. `arg` is the memory that the argument's pointer
  -- shows.
  unfoldable pub request : Bytes → MsgType → ℕ → Result Bytes
  request arg t len = do
    p ← p_init 0 arg t
    buffer ← p_encode mem (attach_token master_tkn p)
    conn_write mem buffer len

  module _ (net : Network) where
    unfoldable pub ping_server : ℕ → Table → Result Table
    ping_server server t = do
      s ← entry t.servers server
      message ← request (0 ∷ []) ping (sizeof_packet + 10)
      handle_ping_response mem (net s.ip s.port message).answer s t

    -- The argument of the answer, or `NULL`.
    unfoldable pub worker_ls_index : ℕ → Table → Result (Option Bytes × Table)
    worker_ls_index index t = do
      (worker, t) ← getfs_index index t
      s ← deref t worker
      message ← request (0 ∷ []) ls (sizeof_packet + 1)
      let x = net s.ip s.port message
      let bytes = received x.answer
      if not x.sent || length bytes == 0 then ok (none, t) else do
        buffer ←
            conn_read (mem.malloc (worker_read_len + sizeof_packet))
              (worker_read_len + sizeof_packet) bytes
        p_response ← p_decode (buffer ++ mem.behind)
        ok (some p_response.arg, t)

    -- The loop of worker_ls, over `rounds` workers from the index `i` on. The block that is
    -- printed to, `result`, is also the first string that is printed.
    unfoldable pub ls_from : Bytes → ℕ → ℕ → Table → Result (Bytes × Table)
    ls_from result zero i t = ok (result, t)
    ls_from result (suc rounds) i t = do
      (listing, t) ← worker_ls_index i t
      elim listing [
        | none ↦ ls_from result rounds (i + 1) t
        | some l ↦ do
          r ← text (result ++ mem.behind)
          s ← text (l ++ mem.behind)
          let block = realloc mem result (length r + length s + 2)
          result ← sprintf true block (r ++ b'\n' ∷ s)
          ls_from result rounds (i + 1) t
      ]

    unfoldable pub worker_ls : Table → Result (Bytes × Table)
    worker_ls t = do
      (result, t) ← ls_from (mem.malloc 1) (worker_count t) 0 t
      r ← text (result ++ mem.behind)
      result ← sprintf true (realloc mem result (length r + 1)) r
      ok (result, t)

    -- The loop of find_by_file, over `rounds` workers from the index `i` on. `strstr` of `NULL` is an
    -- access through it.
    unfoldable pub find_from : Bytes → ℕ → ℕ → Table → Result (Option ℕ × Table)
    find_from file zero i t = ok (none, t)
    find_from file (suc rounds) i t = do
      (listing, t) ← worker_ls_index i t
      found ← elim listing [ none ↦ err null_pointer | some l ↦ strstr (l ++ mem.behind) file ]
      let rest = find_from file rounds (i + 1) t
      if found then getfs_index i t else rest

    unfoldable pub find_by_file : Bytes → Table → Result (Option ℕ × Table)
    find_by_file file t = find_from file (worker_count t) 0 t

    -- `file` and `content` are what the two pointers show.
    unfoldable pub worker_write : Bytes → Bytes → Table → Result (ℤ × Table)
    worker_write file content t = do
      (fs, t) ← least_load t
      elim fs [
        | none ↦ ok (negsuc 0, t)
        | some i ↦ do
          name ← text file
          bytes ← text content
          let buffer = name ++ b';' ∷ bytes
          s ← deref t (some i)
          message ← request (buffer ++ 0 ∷ []) write (length buffer + sizeof_packet + 1)
          n ← written_bytes mem (net s.ip s.port message).answer
          ok (n, t)
      ]

    -- The message that is sent, and where to, if a worker has the file. No answer is read.
    unfoldable pub worker_delete : Bytes → Table → Result (Option Delivery × Table)
    worker_delete file t = do
      (worker, t) ← find_by_file file t
      elim worker [
        | none ↦ ok (none, t)
        | some i ↦ do
          n ← strlen file
          s ← deref t (some i)
          message ← request file delete (sizeof_packet + n)
          ok (some (record { ip = s.ip; port = s.port; message = message }), t)
      ]
