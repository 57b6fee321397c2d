-- ===== src/Transmission/Transmit.antt =====
-- Sending: transmit and fill_buffer of lib/PP/transmission.c.
pub mod Fill
pub mod Chunks
use pekar_drive.Common.{
  ℕ, zero, suc, ◌+◌, ◌-◌, ◌*◌, ◌/◌, ◌%◌, ◌^◌, Bool, true, false, Option, none, some, List, [], ◌∷◌,
  ◌++◌, drop, ltb, not, ◌==◌, if◌then◌else◌,
}
use pekar_drive.Result.{Result, ok, err, division_by_zero, ◌>>=◌}
use pekar_drive.Memory.{Bytes, Memory, load, store}
use pekar_drive.Memory.Strings.{codes}
use pekar_drive.Comm.{conn_write}
use pekar_drive.Transmission.{Transmission, serialized_size, pad, init_transmission, trans_err}
use pekar_drive.Transmission.Serializer.{transmission_serialize}

-- The loop of fill_buffer: `rounds` padding bytes from the index `i` on.
unfoldable pub pad_from : Bytes → ℕ → ℕ → Result Bytes
pad_from buffer i zero = ok buffer
pad_from buffer i (suc rounds) = do
  buffer' ← store buffer i (pad ∷ [])
  pad_from buffer' (i + 1) rounds

unfoldable pub fill_buffer : Bytes → Bytes → ℕ → ℕ → Result Bytes
fill_buffer buffer source buffer_size data_size =
    if ltb buffer_size data_size then ok buffer else do
      d ← load data_size source
      filled ← store buffer 0 d
      pad_from filled data_size (buffer_size - data_size)

module _ (mem : Memory) (chunk : ℕ) (t : Transmission) (d : Bytes) (data_size : ℕ) where
  -- The body of the loop of transmit, and what follows it: what `send` is handed. The serialization is
  -- made and not sent.
  unfoldable pub send_chunk : ℕ → ℕ → Result Bytes
  send_chunk i len = do
    buffer ←
        fill_buffer (mem.malloc data_size) (drop (i * data_size % 2 ^ 32) (d ++ mem.behind))
          data_size len
    sub ← init_transmission chunk t.connection (some buffer) data_size
    serialized ← transmission_serialize mem sub
    conn_write mem buffer t.chunk_size

  -- The loop, for `iterations` chunks from the index `i` on, with the last chunk behind it.
  unfoldable pub send_chunks : ℕ → ℕ → ℕ → Result (List Bytes)
  send_chunks zero remaining i = do message ← send_chunk i remaining; ok (message ∷ [])
  send_chunks (suc iterations) remaining i = do
    message ← send_chunk i data_size
    messages ← send_chunks iterations remaining (i + 1)
    ok (message ∷ messages)

-- transmit behind its tests. The quotient of two `double`s is exact for up to 2^53 bytes.
unfoldable pub send_all : Memory → ℕ → Transmission → Bytes → Result (List Bytes)
send_all mem chunk t d =
    let data_size = (t.chunk_size + 2 ^ 32 - serialized_size) % 2 ^ 32 in
    if data_size == 0
    then err division_by_zero
    else send_chunks mem chunk t d data_size (t.bytes / data_size % 2 ^ 32) (t.bytes % data_size) 0

-- What a refused call returns.
unfoldable pub refuse : Memory → Transmission → Bytes → Result (Bool × List Bytes × Transmission)
refuse mem t msg = do t' ← trans_err mem t msg; ok (false, [], t')

unfoldable pub transmit_data :
    Memory → ℕ → Transmission → Option Bytes → Result (Bool × List Bytes × Transmission)
transmit_data mem chunk t none = refuse mem t (codes "Data to transmit is NULL.")
transmit_data mem chunk t (some d) = do
  messages ← send_all mem chunk t d
  ok (true, messages, record t { write_used = true })

-- Whether it succeeds, what is sent, and the instance then.
unfoldable pub transmit : Memory → ℕ → Transmission → Result (Bool × List Bytes × Transmission)
transmit mem chunk t =
    if t.write_used
    then refuse mem t (codes "Transmission instance already used for writing.")
    else if t.error
    then refuse mem t (codes "Erroneous transmission instance used.")
    else if not t.is_open
    then refuse mem t (codes "Transmission instance is closed.")
    else transmit_data mem chunk t t.content
