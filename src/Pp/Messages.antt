-- ===== src/Pp/Messages.antt =====
-- Messages through the endpoints of lib/PP/pp.c.
use pekar_drive.Common.{
  ℕ, suc, ◌+◌, ◌-◌, ◌*◌, ◌/◌, ◌^◌, ◌<◌, ◌≤◌, ◌≡◌, ◌≢◌, refl, sym, ap, subst₂, true, false, Option,
  none, some, List, [], ◌∷◌, ◌++◌, concat, length, leb, replicate, take, All, ◌&&◌, arith,
}
use pekar_drive.Result.{ok, ◌>>=◌}
use pekar_drive.Memory.{Bytes, Memory, load, load-append, load_all}
use pekar_drive.Transmission.{
  Transmission, serialized_size, pad, is_some, fresh, init_transmission, transmission_data,
  transmission_size,
}
use pekar_drive.Transmission.Transmit.{transmit}
use pekar_drive.Transmission.Transmit.Chunks.{IsSendable}
use pekar_drive.Transmission.Receive.{receive}
use pekar_drive.Transmission.Receive.Blocks.{IsFull}
use pekar_drive.Transmission.Receive.Whole.{receive-padded}
use pekar_drive.Transmission.Exchange.{receive-transmit}
use pekar_drive.Pp.{Endpoint, fine, pp_send, send_message, pp_read, received_message}

-- A connection without an error.
abbrev pub IsSound : Endpoint → Type 0
IsSound endpoint = (endpoint.connection.error && is_some endpoint.connection.error_msg) ≡ false

fresh-error :
    (chunk : ℕ) (endpoint : Endpoint) (content : Option Bytes) (size : ℕ)
    → IsSound endpoint
    → serialized_size < chunk
    → (fresh chunk endpoint.connection content size).error ≡ false
fresh-error chunk endpoint content size sound large =
    let small : leb chunk serialized_size ≡ false = ground arith in rw (sound, small)

-- What pp_read makes of the instance that receive leaves.
pp_read-receive :
    (mem : Memory) (chunk : ℕ) (endpoint : Endpoint) (reads : List Bytes) (d : Bytes)
    (t' : Transmission)
    → receive mem (fresh chunk endpoint.connection none 0) reads ≡ ok (true, t')
    → t'.content ≡ some d
    → t'.bytes ≡ length d
    → pp_read mem chunk endpoint reads ≡ ok (record { status = fine; buffer = some d })
unfolding pp_read init_transmission received_message transmission_data transmission_size
pp_read-receive mem chunk endpoint reads d t' received content size = rw received (
    subst₂ (λ n c. received_message n c ≡ ok (record { status = fine; buffer = some d })) (sym size)
      (sym content)
      (ap (λ r. r >>= λ b. ok (record { status = fine; buffer = some b })) (load_all d)))

-- pp_read on a connection without an error, with a chunk size above 72, gives the bytes of blocks
-- of a chunk that do not end in padding and of the block behind them that does, without this
-- padding; all blocks must have fewer than 2^32 bytes together.
pub pp_read-padded :
    (mem : Memory) (chunk : ℕ) (endpoint : Endpoint) (blocks reads : List Bytes) (s : Bytes)
    (x k : ℕ)
    → IsSound endpoint
    → serialized_size < chunk
    → All (IsFull chunk) blocks
    → x ≢ pad
    → length s + 1 + suc k ≡ chunk
    → (length blocks + 1) * chunk < 2 ^ 32
    → pp_read mem chunk endpoint (blocks ++ (s ++ x ∷ replicate (suc k) pad) ∷ reads)
      ≡ ok (record { status = fine; buffer = some (concat blocks ++ s ++ x ∷ []) })
pp_read-padded mem chunk endpoint blocks reads s x k sound large full end e bound =
    pp_read-receive mem chunk endpoint _ (concat blocks ++ s ++ x ∷ []) _
      (receive-padded mem (fresh chunk endpoint.connection none 0) refl
        (fresh-error chunk endpoint none 0 sound large) refl (omega arith) blocks reads s x k full
        end e bound)
      refl refl

send_message-transmit :
    (mem : Memory) (chunk : ℕ) (t : Transmission) (messages : List Bytes) (t' : Transmission)
    → t.error ≡ false
    → transmit mem chunk t ≡ ok (true, messages, t')
    → send_message mem chunk t ≡ ok (fine, messages)
unfolding send_message
send_message-transmit mem chunk t messages t' sound sent = simp (sound, sent)

-- Between endpoints whose connections have no error, with the same chunk size of more than 72 and
-- below 2^16, pp_send of fewer than 2^32 bytes reports no error, and pp_read of what it sends gives
-- all that was sent, with the 72 bytes that lie behind each block of the sender: chunk size bytes
-- for each chunk, which is more than the message. The last of the 72 bytes must not be the padding
-- byte, and descriptor and max_bytes of the sender must be in the range of their types, and what is
-- sent must stay a chunk below 2^32 bytes.
pub pp_read-pp_send :
    (mem mem' : Memory) (chunk : ℕ) (sender receiver : Endpoint) (d more s : Bytes) (x : ℕ)
    → IsSound sender
    → IsSound receiver
    → serialized_size < chunk
    → chunk < 2 ^ 16
    → sender.connection.fd < 2 ^ 32
    → sender.connection.max_bytes < 2 ^ 64
    → serialized_size ≤ length mem.behind
    → take serialized_size mem.behind ≡ s ++ x ∷ []
    → x ≢ pad
    → length d < 2 ^ 32
    → (length d / (chunk - serialized_size) + 2) * chunk < 2 ^ 32
    → (messages : List Bytes) × (pp_send mem chunk sender (some (d ++ more)) (length d)
        ≡ ok (fine, messages))
      × (pp_read mem' chunk receiver messages
          ≡ ok (record { status = fine; buffer = some (concat messages) }))
      × (length (concat messages) ≡ (length d / (chunk - serialized_size) + 1) * chunk)
      × (length d < length (concat messages))
unfolding pp_send init_transmission
pp_read-pp_send mem mem' chunk sender receiver d more s x sound sound' large c fd max_bytes room
      shape end b fits =
    let t = fresh chunk sender.connection (some d) (length d) in
    let r = fresh chunk receiver.connection none 0 in
    let sendable : IsSendable t = record {
      chunk_size = large;
      chunk_bound = c;
      fd = fd;
      max_bytes = max_bytes;
    } in
    let (messages, sent, received, total, larger) =
      receive-transmit mem mem' chunk t r d s x sendable c room shape end refl refl b refl
        (fresh-error chunk sender (some d) (length d) sound large) refl refl
        (fresh-error chunk receiver none 0 sound' large) refl refl fits in
    let loaded : load (length d) (d ++ more) ≡ ok d = load-append d more in
    (
      messages,
      rw loaded (
          send_message-transmit mem chunk t messages _
            (fresh-error chunk sender (some d) (length d) sound large) sent),
      pp_read-receive mem' chunk receiver messages (concat messages) _ received refl refl,
      total,
      larger,
    )
