-- ===== src/Transmission/Examples.antt =====
-- Runs of lib/PP/transmission.c, with chunks of 75 bytes: three bytes of data in each.
use pekar_drive.Common.{
  ◌≡◌, refl, true, false, none, some, [], ◌∷◌, ◌++◌, replicate, length-replicate, arith,
}
use pekar_drive.Result.{ok}
use pekar_drive.Memory.{Bytes, Memory}
use pekar_drive.Memory.Strings.{codes}
use pekar_drive.Comm.{Conn}
use pekar_drive.Transmission.{Transmission, pad, fresh}
use pekar_drive.Transmission.Serializer.{transmission_serialize, transmission_deserialize}
use pekar_drive.Transmission.Serializer.RoundTrip.{IsValid, deserialize-serialize}
use pekar_drive.Transmission.Transmit.{transmit}
use pekar_drive.Transmission.Transmit.Chunks.{IsSendable, transmit-frames}
use pekar_drive.Transmission.Receive.{receive}
use pekar_drive.Transmission.Receive.Whole.{receive-padded}

-- A memory with zeros in each block and behind it.
abbrev pub wide : Memory
wide = record {
  malloc = λ n. replicate n 0;
  length-malloc = λ n. length-replicate n 0;
  behind = replicate 72 0;
}

abbrev pub connected : Conn
connected = record { error = false; error_msg = none; fd = 3; max_bytes = 0 }

abbrev pub hello : Transmission
hello = fresh 75 connected (some (codes "hello")) 5

hello-IsValid : IsValid hello (codes "hello")
hello-IsValid = record {
  content = refl;
  length = refl;
  bytes = omega arith;
  chunk_size = omega arith;
  error_len = omega arith;
  fd = omega arith;
  max_bytes = omega arith;
}

hello-IsSendable : IsSendable hello
hello-IsSendable = record {
  chunk_size = omega arith;
  chunk_bound = omega arith;
  fd = omega arith;
  max_bytes = omega arith;
}

deserialize-serialize_example :
    (serialization : Bytes) × (transmission_serialize wide hello ≡ ok serialization)
    × ((more : Bytes)
        → transmission_deserialize (fresh 75 connected none 0) (serialization ++ more) ≡ ok hello)
deserialize-serialize_example =
    deserialize-serialize wide hello (fresh 75 connected none 0) (codes "hello") hello-IsValid

pub hello_sent :
    transmit wide 75 hello
    ≡ ok (
      true,
      (codes "hel" ++ replicate 72 0) ∷ ((codes "lo" ++ pad ∷ []) ++ replicate 72 0) ∷ [],
      record hello { write_used = true },
    )
hello_sent =
    transmit-frames wide 75 hello (codes "hello") hello-IsSendable (omega arith) (omega arith) refl
      refl (omega arith) refl refl refl

transmit-frames_example :
    transmit wide 75 hello
    ≡ ok (
      true,
      (codes "hel" ++ replicate 72 0) ∷ ((codes "lo" ++ pad ∷ []) ++ replicate 72 0) ∷ [],
      record hello { write_used = true },
    )
transmit-frames_example =
    transmit-frames wide 75 hello (codes "hello") hello-IsSendable (omega arith) (omega arith) refl
      refl (omega arith) refl refl refl

receive-padded_example :
    receive wide
      (record (fresh 75 connected none 0) { chunk_size = 4 })
      (codes "abcd" ∷ (b'e' ∷ pad ∷ pad ∷ pad ∷ []) ∷ codes "next" ∷ [])
    ≡ ok (
      true,
      record (fresh 75 connected none 0) {
        chunk_size = 4;
        content = some (codes "abcde");
        bytes = 5;
        read_used = true;
      },
    )
receive-padded_example =
    receive-padded wide (record (fresh 75 connected none 0) { chunk_size = 4 }) refl refl refl
      (omega arith) (codes "abcd" ∷ []) (codes "next" ∷ []) [] b'e' 2
      ((codes "abc", b'd', refl, omega arith, refl), tt) (omega arith) refl (omega arith)
