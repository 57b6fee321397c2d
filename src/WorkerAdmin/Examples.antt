-- ===== src/WorkerAdmin/Examples.antt =====
-- Runs of src/worker_admin.c against workers that are functions of what they are sent.
use pekar_drive.Common.{
  ◌+◌, Option, Found, ℕ, ◌≤◌, ◌≡◌, refl, true, none, some, [], ◌∷◌, ◌++◌, length, replicate, take,
  ◌==◌, if◌then◌else◌, arith,
}
use pekar_drive.Result.{ok, err, deadlock}
use pekar_drive.Memory.{Bytes}
use pekar_drive.Memory.Words.{le_bytes, le_value}
use pekar_drive.Memory.Strings.{occurs, codes}
use pekar_drive.Memory.Decimal.{print}
use pekar_drive.Memory.Sample.{zeroed}
use pekar_drive.Packet.{ping, ls, write, IsValid}
use pekar_drive.Packet.Wire.{wire}
use pekar_drive.Packet.Args.{packet_of, packet_of-IsValid}
use pekar_drive.ServerTable.{FileServer, table, for_each_server}
use pekar_drive.WorkerAdmin.{Network, request, ping_server, find_by_file}
use pekar_drive.WorkerAdmin.Requests.{request-sent, memory}
use pekar_drive.WorkerAdmin.Ping.{IsPong, for_each_server-silent}
use pekar_drive.WorkerAdmin.Listings.{Lists, find_by_file-Found}

abbrev pub worker : ℕ → FileServer
worker port = record { id = port; size = 0; ip = codes "10.0.0.1"; port = port }

-- The encoding of a PING, with nothing behind its first twelve bytes.
abbrev pub pong : Bytes
pong = replicate 12 0

-- The worker on port 2 is silent.
abbrev pub net : Network
net ip port message =
    if port == 2
    then record { sent = true; answer = none }
    else record { sent = true; answer = some pong }

abbrev pub message : Bytes
message = take 50 (memory zeroed 86 [] [] ping 50 tt (omega arith) (omega arith) tt)

pub sent : request zeroed 86 (0 ∷ []) ping 50 ≡ ok message
sent = request-sent zeroed 86 [] [] ping 50 tt (omega arith) (omega arith) tt (omega arith)

pub pong-IsPong : IsPong zeroed pong
unfolding le_value
pong-IsPong = record { fits = omega arith; fields = omega arith; type = refl; arg = omega arith }

twelve-IsValid : IsValid (packet_of 1 (print 12) write 0 99)
unfolding print
twelve-IsValid =
    packet_of-IsValid 1 (print 12) write 0 99 (omega arith) (omega arith) (omega arith)
      (omega arith) tt

twelve_fits : length (wire (packet_of 1 (print 12) write 0 99) ++ replicate 18 0) ≤ 50
unfolding print le_bytes
twelve_fits = omega arith

-- Each worker lists a file whose name ends in the digit of its port.
abbrev pub listing : ℕ → Bytes
listing port = codes "note" ++ (48 + port) ∷ []

abbrev pub listing_net : Network
listing_net ip port bytes = record {
  sent = true;
  answer = some (wire (packet_of 1 (listing port) ls 0 99) ++ []);
}

abbrev pub ls_message : Bytes
ls_message = take 41 (memory zeroed 86 [] [] ls 41 tt (omega arith) (omega arith) tt)

pub ls_sent : request zeroed 86 (0 ∷ []) ls 41 ≡ ok ls_message
ls_sent = request-sent zeroed 86 [] [] ls 41 tt (omega arith) (omega arith) tt (omega arith)

pub worker-Lists : (n : ℕ) → Lists listing_net ls_message (worker n) (listing n)
unfolding le_bytes
worker-Lists n = record {
  seq_number = 1;
  type = ls;
  error = 0;
  token = 99;
  junk = [];
  answered = refl;
  valid =
      packet_of-IsValid 1 (listing n) ls 0 99 (omega arith) (omega arith) (omega arith)
        (omega arith) tt;
  fits = omega arith;
  is_text = ground arith;
}

find_by_file-Found_example :
    (o : Option ℕ) × (find_by_file zeroed 86 listing_net
        (codes "note2" ++ 0 ∷ [])
        (table (worker 1 ∷ worker 2 ∷ []))
      ≡ ok (o, table (worker 1 ∷ worker 2 ∷ [])))
    × Found (occurs (codes "note2")) (listing 1 ∷ listing 2 ∷ []) o
find_by_file-Found_example =
    find_by_file-Found zeroed 86 listing_net ls_message ls_sent (replicate 63 0) refl
      (codes "note2") [] (worker 1 ∷ worker 2 ∷ []) (listing 1 ∷ listing 2 ∷ []) (ground arith)
      (worker-Lists 1, (worker-Lists 2, tt))

for_each_server-silent_example :
    for_each_server (ping_server zeroed 86 net) (table (worker 1 ∷ worker 2 ∷ worker 3 ∷ []))
    ≡ err deadlock
for_each_server-silent_example =
    for_each_server-silent zeroed 86 net message sent (worker 1 ∷ []) (worker 2) (worker 3 ∷ [])
      (omega arith) ((pong, refl, pong-IsPong), tt) refl
