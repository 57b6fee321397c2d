-- ===== src/Packet.antt =====
-- The messages of the wire: include/PP/packet.h and lib/PP/packet.c.
-- Sizes are those of the x86-64 ABI: `int` 4, `short` 2, `long` and pointers 8, little-endian.
pub mod Wire
pub mod Reads
pub mod Args
pub mod Examples
use pekar_drive.Common.{
  ℕ, ◌+◌, ◌%◌, ◌^◌, ◌<◌, ◌≤◌, List, [], ◌∷◌, ◌++◌, length, drop, ◌==◌, if◌then◌else◌,
}
use pekar_drive.Result.{Result, ok, ◌>>=◌}
use pekar_drive.Memory.{Bytes, Memory, load, store}
use pekar_drive.Memory.Words.{le_bytes, le_value}
use pekar_drive.Memory.Strings.{text}

-- `enum type`. An `int` that is read from the wire may be none of its values: `other`.
pub data MsgType : Type 0 where
  ping ls write read append register delete : MsgType
  other : ℕ → MsgType

-- The `int` that stands for a message type, and back.
unfoldable pub type_code : MsgType → ℕ
type_code ping = 0
type_code ls = 1
type_code write = 2
type_code read = 3
type_code append = 4
type_code register = 5
type_code delete = 6
type_code (other n) = n

unfoldable pub type_of_code : ℕ → MsgType
type_of_code n =
    if n == 0
    then ping
    else if n == 1
    then ls
    else if n == 2
    then write
    else if n == 3
    then read
    else if n == 4
    then append
    else if n == 5
    then register
    else if n == 6
    then delete
    else other n

-- `struct packet`. `arg` is the block that the field points to.
pub record Packet : Type 0 where
  pub seq_number : ℕ
  pub arg : Bytes
  pub msg_len : ℕ
  pub error : ℕ
  pub token : ℕ
  pub msg_type : MsgType

-- sizeof(struct packet), with its padding
abbrev pub sizeof_packet : ℕ
sizeof_packet = 40

-- The bytes in front of the argument: three `int`, a `short` and a `long`.
abbrev pub header_size : ℕ
header_size = 22

-- The block of `malloc(strlen(arg) + 1)` is filled by `strcpy`, NUL included.
unfoldable pub p_init : ℕ → Bytes → MsgType → Result Packet
p_init seq_number arg t = do
  s ← text arg
  ok (record {
    seq_number = seq_number;
    arg = s ++ 0 ∷ [];
    msg_len = length s % 2 ^ 32;
    error = 0;
    token = 0;
    msg_type = t;
  })

unfoldable pub attach_token : ℕ → Packet → Packet
attach_token token p = record p { token = token }

unfoldable pub p_error : ℕ → Bytes → MsgType → ℕ → Result Packet
p_error seq_number arg t token = do
  s ← text arg
  ok (record {
    seq_number = seq_number;
    arg = s ++ 0 ∷ [];
    msg_len = length s % 2 ^ 32;
    error = 1;
    token = token;
    msg_type = t;
  })

-- The block that the packet is written to. `p.msg_len + 1` is computed in `unsigned`.
unfoldable pub p_encode : Memory → Packet → Result Bytes
p_encode mem p = do
  let buffer = mem.malloc ((p.msg_len + 1) % 2 ^ 32 + header_size)
  buffer ← store buffer 0 (le_bytes 4 p.seq_number)
  buffer ← store buffer 4 (le_bytes 4 p.msg_len)
  buffer ← store buffer 8 (le_bytes 4 (type_code p.msg_type))
  buffer ← store buffer 12 (le_bytes 2 p.error)
  buffer ← store buffer 14 (le_bytes 8 p.token)
  arg ← load p.msg_len p.arg
  store buffer 22 arg

unfoldable pub p_decode : Bytes → Result Packet
p_decode p = do
  seq_number ← load 4 p
  msg_len ← load 4 (drop 4 p)
  msg_type ← load 4 (drop 8 p)
  error ← load 2 (drop 12 p)
  token ← load 8 (drop 14 p)
  arg ← load (le_value msg_len) (drop 22 p)
  ok (record {
    seq_number = le_value seq_number;
    arg = arg;
    msg_len = le_value msg_len;
    error = le_value error;
    token = le_value token;
    msg_type = type_of_code (le_value msg_type);
  })

-- The message types that an `int` can hold and that are read back as they are.
abbrev pub IsType : MsgType → Type 0
IsType (other n) = (6 < n) × (n < 2 ^ 32)
IsType t = Unit

-- The fields are in the range of their C types, and `arg` points to at least `msg_len` bytes.
pub record IsValid (p : Packet) : Type 0 where
  pub seq_number : p.seq_number < 2 ^ 32
  pub msg_len : p.msg_len + 1 < 2 ^ 32
  pub error : p.error < 2 ^ 16
  pub token : p.token < 2 ^ 64
  pub msg_type : IsType p.msg_type
  pub arg : p.msg_len ≤ length p.arg
