-- ===== src/Transmission/Serializer.antt =====
-- lib/PP/transmission_serializer.c.
pub mod RoundTrip
use pekar_drive.Common.{
  ℕ, ◌+◌, Bool, true, false, Option, none, some, [], ◌++◌, drop, not, ◌==◌, if◌then◌else◌,
}
use pekar_drive.Result.{Result, ok, err, null_pointer, ◌>>=◌}
use pekar_drive.Memory.{Bytes, Memory, load, store}
use pekar_drive.Memory.Words.{le_bytes, le_value}
use pekar_drive.Transmission.{Transmission, serialized_size}

abbrev pub flag : Bool → ℕ
flag true = 1
flag false = 0

-- The bytes that `memcpy` reads at the pointer `data`.
abbrev pub content_bytes : Memory → Option Bytes → ℕ → Result Bytes
content_bytes mem none n = if n == 0 then ok [] else err null_pointer
content_bytes mem (some d) n = load n (d ++ mem.behind)

unfoldable pub transmission_serialize : Memory → Transmission → Result Bytes
transmission_serialize mem t = do
  let block = mem.malloc (serialized_size + t.bytes)
  block ← store block 0 (le_bytes 8 t.bytes)
  block ← store block 8 (le_bytes 4 t.chunk_size)
  block ← store block 12 (le_bytes 1 (flag t.is_open))
  block ← store block 13 (le_bytes 1 (flag t.error))
  block ← store block 14 (le_bytes 8 t.error_len)
  d ← content_bytes mem t.content t.bytes
  block ← store block 22 d
  block ← store block (22 + t.bytes) (le_bytes 2 (flag t.connection.error))
  block ← store block (24 + t.bytes) (le_bytes 4 t.connection.fd)
  store block (28 + t.bytes) (le_bytes 8 t.connection.max_bytes)

-- `t` is what the fields that are not written hold before: they are not initialised.
unfoldable pub transmission_deserialize : Transmission → Bytes → Result Transmission
transmission_deserialize t serialization = do
  bytes ← load 8 serialization
  chunk_size ← load 4 (drop 8 serialization)
  is_open ← load 1 (drop 12 serialization)
  error ← load 1 (drop 13 serialization)
  error_len ← load 8 (drop 14 serialization)
  d ← load (le_value bytes) (drop 22 serialization)
  conn_error ← load 2 (drop (22 + le_value bytes) serialization)
  fd ← load 4 (drop (24 + le_value bytes) serialization)
  max_bytes ← load 8 (drop (28 + le_value bytes) serialization)
  ok (record t {
    content = some d;
    is_open = not (le_value is_open == 0);
    error = not (le_value error == 0);
    error_len = le_value error_len;
    bytes = le_value bytes;
    chunk_size = le_value chunk_size;
    connection = record t.connection {
      error = not (le_value conn_error == 0);
      fd = le_value fd;
      max_bytes = le_value max_bytes;
    };
  })
