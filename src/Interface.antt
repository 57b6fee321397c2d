-- ===== src/Interface.antt =====
-- The requests of a client: lib/interface.c. The parameter `reply` gives what each `read` on the
-- connection returns for the bytes that were sent, up to the first that fails or returns nothing.
-- The messages on the terminal are left out.
pub mod Write
pub mod Storage
pub mod Removal
pub mod Listing
pub mod Examples
use pekar_drive.Common.{
  ℕ, zero, suc, ◌+◌, ◌-◌, ◌*◌, ◌%◌, ◌^◌, Bool, true, false, Option, none, some, List, [], ◌∷◌, ◌++◌,
  length, take, ltb, ◌==◌, if◌then◌else◌,
}
use pekar_drive.Common.Int.{ℤ, pos, negsuc, neg}
use pekar_drive.Result.{Result, ok, err, ◌>>=◌}
use pekar_drive.Memory.{Bytes, Memory, store, realloc}
use pekar_drive.Memory.Strings.{codes, text, strlen}
use pekar_drive.Memory.Decimal.{atol}
use pekar_drive.Comm.{Sockets, client_init, conn_write}
use pekar_drive.Packet.{
  MsgType, ls, read, write, append, delete, Packet, p_init, p_encode, sizeof_packet,
}

abbrev pub block_size : ℕ
block_size = 1000

-- The conversion to a signed number of `w` bits.
unfoldable pub narrow : ℕ → ℤ → ℤ
narrow w (pos n) =
    if ltb (n % 2 ^ w) (2 ^ (w - 1)) then pos (n % 2 ^ w) else neg (2 ^ w - n % 2 ^ w)
narrow w (negsuc n) =
    if ltb (n % 2 ^ w) (2 ^ (w - 1)) then negsuc (n % 2 ^ w) else pos (2 ^ w - 1 - n % 2 ^ w)

unfoldable pub atoi : Bytes → Result ℤ
atoi s = do n ← atol s; ok (narrow 32 n)

unfoldable pub gen_write_arg : Bytes → Bytes → Result Bytes
gen_write_arg file content = do f ← text file; d ← text content; ok ((f ++ b';' ∷ d) ++ 0 ∷ [])

-- The loop of read_all: a full block is followed by another.
unfoldable pub read_blocks : Memory → Bytes → ℕ → List Bytes → Result Bytes
read_blocks mem buffer i [] = ok buffer
read_blocks mem buffer i (bytes ∷ reads) = do
  buffer ← store buffer (i * block_size) (take block_size bytes)
  let rest = read_blocks mem (realloc mem buffer (block_size * (i + 2))) (i + 1) reads
  if length (take block_size bytes) == block_size then rest else ok buffer

unfoldable pub read_all : Memory → List Bytes → Result Bytes
read_all mem reads = read_blocks mem (mem.malloc block_size) 0 reads

module _ (mem : Memory) (sys : Sockets) (reply : Bytes → List Bytes) where
  -- What follows on a connection: the packet is sent with `len` bytes, and all that is answered is read.
  unfoldable pub ask : Packet → ℕ → Result Bytes
  ask p len = do
    encoded ← p_encode mem p
    message ← conn_write mem encoded len
    read_all mem (reply message)

  -- The block, or `NULL`; `host` and `port` are those of the master.
  unfoldable pub list_files : Bytes → ℕ → Result (Option Bytes)
  list_files host port = do
    p ← p_init 0 (0 ∷ []) ls
    client ← client_init sys host port
    (if client.error then ok none else do buffer ← ask p (sizeof_packet + 3); ok (some buffer))

  unfoldable pub file_read : Bytes → Bytes → ℕ → Result (Option Bytes)
  file_read file_name host port = do
    p ← p_init 0 file_name read
    client ← client_init sys host port
    (if client.error
        then ok none
        else do n ← strlen file_name; buffer ← ask p (sizeof_packet + n); ok (some buffer))

  -- The count is returned as a `size_t`; -1 stands for the error.
  unfoldable pub file_write : Bytes → Bytes → Bool → Bytes → ℕ → Result ℤ
  file_write file_name content isappend host port = do
    arg ← gen_write_arg file_name content
    p ← p_init 0 arg (if isappend then append else write)
    client ← client_init sys host port
    (if client.error then ok (negsuc 0) else do
      n ← strlen p.arg
      buffer_received ← ask p (sizeof_packet + n + 1)
      atoi (buffer_received ++ mem.behind))

  -- The `int` is returned as a `short`.
  unfoldable pub file_delete : Bytes → Bytes → ℕ → Result ℤ
  file_delete file_name host port = do
    p ← p_init 0 file_name delete
    client ← client_init sys host port
    (if client.error then ok (pos 0) else do
      n ← strlen p.arg
      buffer_received ← ask p (sizeof_packet + n + 1)
      atoi (buffer_received ++ mem.behind))
