-- ===== src/Pp.antt =====
-- The endpoints of the protocol: include/PP/pp.h and lib/PP/pp.c, over the transmissions of
-- lib/PP/transmission.c.
pub mod Errors
pub mod Messages
pub mod Examples
use pekar_drive.Common.{
  ℕ, Bool, true, false, Option, none, some, List, [], ◌∷◌, ◌++◌, length, ◌||◌, not, if◌then◌else◌,
}
use pekar_drive.Result.{Result, ok, err, null_pointer, ◌>>=◌}
use pekar_drive.Memory.{Bytes, Memory, load, store}
use pekar_drive.Comm.{Conn, Sockets, client_init}
use pekar_drive.Transmission.{
  Transmission, init_transmission, transmission_error, transmission_size, transmission_data,
}
use pekar_drive.Transmission.Transmit.{transmit}
use pekar_drive.Transmission.Receive.{receive}

-- `pp_status`
pub record Status : Type 0 where
  pub error : Bool
  pub error_message : Option Bytes
  pub bytes : ℕ

-- `pp_message`
pub record Message : Type 0 where
  pub status : Status
  pub buffer : Option Bytes

-- `pp_endpoint`
pub record Endpoint : Type 0 where
  pub connection : Conn

abbrev pub fine : Status
fine = record { error = false; error_message = none; bytes = 0 }

unfoldable pub endpoint_from_address : Sockets → Bytes → ℕ → Result Endpoint
endpoint_from_address sys hostname port = do
  connection ← client_init sys hostname port
  ok (record { connection = connection })

unfoldable pub endpoint_from_connection : Conn → Endpoint
endpoint_from_connection connection = record { connection = connection }

-- The string of an error message, and its copy to a block of its length.
unfoldable pub error_status : Memory → Option Bytes → Result Status
error_status mem none = err null_pointer
error_status mem (some msg) = do
  block ← store (mem.malloc (length msg)) 0 (msg ++ 0 ∷ [])
  ok (record { error = true; error_message = some msg; bytes = length msg })

-- What pp_send does on a failure: the status of the error is made and not returned.
unfoldable pub send_failed : Memory → Transmission → List Bytes → Result (Status × List Bytes)
send_failed mem message messages = do
  status ← error_status mem (transmission_error message)
  ok (fine, messages)

-- pp_send behind the instance: transmit is called only on an instance without an error.
unfoldable pub send_message : Memory → ℕ → Transmission → Result (Status × List Bytes)
send_message mem chunk message = if message.error then send_failed mem message [] else do
  (succeeded, messages, message') ← transmit mem chunk message
  (if succeeded then ok (fine, messages) else send_failed mem message' messages)

-- The status, and what is sent.
unfoldable pub pp_send : Memory → ℕ → Endpoint → Option Bytes → ℕ → Result (Status × List Bytes)
pp_send mem chunk endpoint content len = do
  message ← init_transmission chunk endpoint.connection content len
  send_message mem chunk message

-- What a message whose transmission failed is.
unfoldable pub failed_message : Memory → Transmission → Result Message
failed_message mem t =
    if t.error
    then (do
      status ← error_status mem (transmission_error t)
      ok (record { status = status; buffer = none }))
    else ok (record {
      status = record { error = true; error_message = none; bytes = 0 };
      buffer = none;
    })

-- The copy of what was received.
unfoldable pub received_message : ℕ → Option Bytes → Result Message
received_message size none = err null_pointer
received_message size (some d) = do
  buffer ← load size d
  ok (record { status = fine; buffer = some buffer })

-- `reads` is what the calls of `read` give.
unfoldable pub pp_read : Memory → ℕ → Endpoint → List Bytes → Result Message
pp_read mem chunk endpoint reads = do
  t ← init_transmission chunk endpoint.connection none 0
  (succeeded, t') ← receive mem t reads
  if succeeded
      then received_message (transmission_size t') (transmission_data t')
      else failed_message mem t'
