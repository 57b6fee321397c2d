-- ===== src/Pp/Examples.antt =====
-- Runs of lib/PP/pp.c, with chunks of 75 bytes.
use pekar_drive.Common.{
  ◌<◌, ◌≡◌, ◌≢◌, refl, false, true, none, some, List, [], ◌∷◌, ◌++◌, concat, length, replicate,
  ◌&&◌, arith,
}
use pekar_drive.Result.{ok, err, out_of_bounds}
use pekar_drive.Memory.{Bytes}
use pekar_drive.Memory.Strings.{codes}
use pekar_drive.Transmission.{serialized_size, is_some}
use pekar_drive.Transmission.Examples.{wide, connected, hello, hello_sent}
use pekar_drive.Transmission.Transmit.{transmit}
use pekar_drive.Pp.{Endpoint, fine, pp_send, pp_read}
use pekar_drive.Pp.Errors.{pp_send_sound, transmit_once}
use pekar_drive.Pp.Messages.{pp_read-pp_send}

abbrev endpoint : Endpoint
endpoint = record { connection = connected }

pp_read-pp_send_example :
    (messages : List Bytes) × (pp_send wide 75 endpoint (some (codes "hello")) 5
      ≡ ok (fine, messages))
    × (pp_read wide 75 endpoint messages
        ≡ ok (record { status = fine; buffer = some (concat messages) }))
    × (length (concat messages) ≡ 150)
    × (5 < length (concat messages))
pp_read-pp_send_example =
    pp_read-pp_send wide wide 75 endpoint endpoint (codes "hello") [] (replicate 71 0) 0 refl refl
      (omega arith) (omega arith) (omega arith) (omega arith) (omega arith) refl (omega arith)
      (omega arith) (omega arith)

sent :
    (messages : List Bytes) × (pp_send wide 75 endpoint (some (codes "hello")) 5
      ≡ ok (fine, messages))
sent =
    let (messages, e, received, total, larger) =
      pp_read-pp_send wide wide 75 endpoint endpoint (codes "hello") [] (replicate 71 0) 0 refl refl
        (omega arith) (omega arith) (omega arith) (omega arith) (omega arith) refl (omega arith)
        (omega arith) (omega arith) in
    (messages, e)

pp_send_sound_example :
    (fine ≡ fine)
    × ((endpoint.connection.error && is_some endpoint.connection.error_msg) ≡ false)
    × (serialized_size < 75)
    × (some (codes "hello") ≢ none)
pp_send_sound_example = pp_send_sound wide 75 endpoint (some (codes "hello")) 5 fine sent.0 sent.1

transmit_once_example :
    (true ≡ true)
    × (hello.write_used ≡ false)
    × (hello.error ≡ false)
    × (hello.is_open ≡ true)
    × (hello.content ≢ none)
    × (transmit wide 75 (record hello { write_used = true }) ≡ err out_of_bounds)
transmit_once_example =
    transmit_once wide 75 hello (record hello { write_used = true }) true
      ((codes "hel" ++ replicate 72 0) ∷ ((codes "lo" ++ 4 ∷ []) ++ replicate 72 0) ∷ []) hello_sent
