-- ===== src/Transmission.antt =====
-- Transmissions: include/PP/transmission.h and the instances of lib/PP/transmission.c.
-- The global chunk_size is the argument `chunk` of the operations that read it.
pub mod Serializer
pub mod Transmit
pub mod Receive
pub mod Exchange
pub mod Examples
use pekar_drive.Common.{
  ℕ, ◌+◌, ◌%◌, ◌^◌, Bool, true, false, Option, none, some, List, [], ◌∷◌, ◌++◌, length, leb, ◌&&◌,
  ◌||◌, not, if◌then◌else◌,
}
use pekar_drive.Result.{Result, ok, ◌>>=◌}
use pekar_drive.Memory.{Bytes, Memory, load, store}
use pekar_drive.Memory.Strings.{codes}
use pekar_drive.Comm.{Conn}

-- `transmission`, with the fields of its header. `content` is the field `data`; a string is the text
-- that its pointer shows.
pub record Transmission : Type 0 where
  pub content : Option Bytes
  pub is_open : Bool
  pub error : Bool
  pub err_msg : Option Bytes
  pub error_len : ℕ
  pub bytes : ℕ
  pub chunk_size : ℕ
  pub connection : Conn
  pub read_used : Bool
  pub write_used : Bool

-- SERIALIZED_SIZE_WITHOUT_DATA: 88 bytes, less two pointers.
abbrev pub serialized_size : ℕ
serialized_size = 72

abbrev pub default_chunk_size : ℕ
default_chunk_size = 200

abbrev pub pad : ℕ
pad = 4

-- The argument is an `unsigned short`.
unfoldable pub set_transmission_chunk_size : ℕ → ℕ
set_transmission_chunk_size size = size % 2 ^ 16

unfoldable pub get_transmission_chunk_size : ℕ → ℕ
get_transmission_chunk_size chunk = chunk

abbrev pub is_some {ℓ} : {A : Type ℓ} → Option A → Bool
is_some none = false
is_some (some a) = true

abbrev pub too_small : Bytes
too_small = codes "Chunk size too small for transmission."

-- The instance that init_transmission makes. The message of a connection is copied only with its
-- error; without one its pointer is not set.
abbrev pub fresh : ℕ → Conn → Option Bytes → ℕ → Transmission
fresh chunk connection content size =
    let failed = connection.error && is_some connection.error_msg in
    let small = leb chunk serialized_size in
    record {
      content = content;
      is_open = true;
      error = failed || small;
      err_msg = (if small then some too_small else none);
      error_len = 0;
      bytes = size;
      chunk_size = chunk;
      connection = record connection {
        error_msg = (if failed then connection.error_msg else none);
      };
      read_used = false;
      write_used = false;
    }

-- `source` is what the pointer to the data shows, or `none` for `NULL`.
unfoldable pub init_transmission : ℕ → Conn → Option Bytes → ℕ → Result Transmission
init_transmission chunk connection none size = ok (fresh chunk connection none size)
init_transmission chunk connection (some source) size = do
  d ← load size source
  ok (fresh chunk connection (some d) size)

unfoldable pub close_transmission : Transmission → Transmission
close_transmission t = record t { content = none; is_open = false; bytes = 0 }

-- TRANS_ERR: the block of the message has no room for its NUL.
unfoldable pub trans_err : Memory → Transmission → Bytes → Result Transmission
trans_err mem t msg = do
  block ← store (mem.malloc (length msg)) 0 (msg ++ 0 ∷ [])
  ok (record (close_transmission t) { error = true; error_len = length msg; err_msg = some msg })

unfoldable pub transmission_error : Transmission → Option Bytes
transmission_error t = if not t.error then none else t.err_msg

unfoldable pub transmission_size : Transmission → ℕ
transmission_size t = t.bytes

unfoldable pub transmission_data : Transmission → Option Bytes
transmission_data t = t.content
