-- ===== src/Transmission/Receive.antt =====
-- Receiving: receive, trim_padding and contains_padding of lib/PP/transmission.c.
pub mod Trim
pub mod Blocks
pub mod Whole
use pekar_drive.Common.{
  ℕ, zero, suc, ◌+◌, ◌-◌, ◌*◌, ◌%◌, ◌^◌, Bool, true, false, Option, none, some, List, [], ◌∷◌, ◌++◌,
  length, take, drop, not, ◌==◌, ◌&&◌, get_elem?, if◌then◌else◌,
}
use pekar_drive.Result.{Result, ok, err, out_of_bounds, ◌>>=◌}
use pekar_drive.Memory.{Bytes, Memory, load, store, realloc}
use pekar_drive.Memory.Strings.{codes}
use pekar_drive.Transmission.{Transmission, pad, trans_err}

-- `buffer[i]`
unfoldable pub byte_at : Bytes → ℕ → Result ℕ
byte_at buffer i = elim (get_elem? buffer i) [ some b ↦ ok b | none ↦ err out_of_bounds ]

-- Below the index 0 the unsigned size wraps, and the access is out of bounds.
unfoldable pub trim_padding : Bytes → ℕ → Result ℕ
trim_padding buffer zero = err out_of_bounds
trim_padding buffer (suc size) = do
  b ← byte_at buffer size
  let rest = trim_padding buffer size
  if not (b == pad) then ok (size + 1) else rest

unfoldable pub contains_padding : Bytes → ℕ → Result Bool
contains_padding buffer len = do b ← byte_at buffer ((len + (2 ^ 32 - 1)) % 2 ^ 32); ok (b == pad)

-- The loop of receive from the block `i` on, for what the calls of `read` give, none of them more than a
-- chunk: the buffer, the count of the calls, and whether the last one gave any bytes. Behind the list
-- `read` gives none. The count is not wrapped here: it is used in products that are, and in a test.
unfoldable pub read_chunks : Memory → ℕ → Bytes → ℕ → List Bytes → Result (Bytes × ℕ × Bool)
read_chunks mem chunk_size buffer i [] = ok (buffer, i + 1, false)
read_chunks mem chunk_size buffer i (bytes ∷ reads) =
    let more = (do
      buffer' ← store buffer (i * chunk_size % 2 ^ 32) (take chunk_size bytes)
      last ← contains_padding buffer' ((i + 1) * chunk_size % 2 ^ 32)
      let rest =
          read_chunks mem chunk_size (realloc mem buffer' ((i + 2) * chunk_size % 2 ^ 32)) (i + 1)
            reads
      if last then ok (buffer', i + 1, true) else rest) in
    if length bytes == 0 then ok (buffer, i + 1, false) else more

-- receive behind its tests.
unfoldable pub receive_all : Memory → Transmission → List Bytes → Result (Bool × Transmission)
receive_all mem t reads = do
  (buffer, i, some_bytes) ← read_chunks mem t.chunk_size (mem.malloc t.chunk_size) 0 reads
  (if i % 2 ^ 32 == 1 && not some_bytes then ok (false, record t { read_used = true }) else do
    new_size ← trim_padding buffer (t.chunk_size * (if some_bytes then i else i - 1) % 2 ^ 32)
    d ← load new_size buffer
    ok (true, record t { content = some d; bytes = new_size; read_used = true }))

unfoldable pub reject : Memory → Transmission → Bytes → Result (Bool × Transmission)
reject mem t msg = do t' ← trans_err mem t msg; ok (false, t')

-- Whether it succeeds, and the instance then.
unfoldable pub receive : Memory → Transmission → List Bytes → Result (Bool × Transmission)
receive mem t reads =
    if t.read_used
    then reject mem t (codes "Transmission instance already used for reading.")
    else if t.error
    then reject mem t (codes "Erroneous transmission instance used.")
    else if not t.is_open
    then reject mem t (codes "Transmission instance is closed.")
    else receive_all mem t reads
