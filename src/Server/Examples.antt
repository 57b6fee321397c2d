-- ===== src/Server/Examples.antt =====
-- Runs of the worker, src/server/server.c.
use pekar_drive.Common.{
  ◌≤◌, ◌≡◌, ◌≢◌, refl, true, false, Option, List, none, some, [], ◌∷◌, ◌++◌, length, arith,
}
use pekar_drive.Result.{ok}
use pekar_drive.Memory.{Bytes}
use pekar_drive.Memory.Words.{le_bytes}
use pekar_drive.Memory.Strings.{codes}
use pekar_drive.Memory.Sample.{zeroed}
use pekar_drive.Packet.{Packet, ping, write, IsValid}
use pekar_drive.Packet.Wire.{wire}
use pekar_drive.Packet.Args.{packet_of, packet_of-IsValid}
use pekar_drive.Fs.Examples.{sys, disk}
use pekar_drive.WorkerAdmin.Ping.{IsPong}
use pekar_drive.Comm.{Conn, Sockets, conn_listen, conn_close, err_conn, port}
use pekar_drive.Server.Threads.{Accepting, accepts, begins, events, idle, Gives, served_refused}
use pekar_drive.ServerTable.{FileServer, table, for_each_server}
use pekar_drive.WorkerAdmin.{ping_server}
use pekar_drive.WorkerAdmin.Examples.{worker}
use pekar_drive.Server.{reply_ping}
use pekar_drive.Server.Network.{worker_network}
use pekar_drive.Server.Pings.{for_each_server-running}
use pekar_drive.Server.Loop.{worker_turn, worker_turns}
use pekar_drive.Server.Foreign.{token_of, token_of-wire, worker_turns_foreign}
use pekar_drive.Server.Replies.{handle_client-token, reply_ping-IsPong}

abbrev note : Packet
note = packet_of 4 (codes "note;hi") write 0 86

abbrev call : Packet
call = packet_of 4 [] ping 0 86

note-IsValid : IsValid note
note-IsValid =
    packet_of-IsValid 4 (codes "note;hi") write 0 86 (omega arith) (omega arith) (omega arith)
      (omega arith) tt

note_fits : length (wire note ++ []) ≤ 10000
unfolding le_bytes
note_fits = omega arith

reply_ping-IsPong_example : (r : Bytes) × (reply_ping zeroed call ≡ ok r) × IsPong zeroed r
reply_ping-IsPong_example = reply_ping-IsPong zeroed zeroed call

abbrev foreign : Packet
foreign = packet_of 4 (codes "note;hi") write 0 5

foreign-IsValid : IsValid foreign
foreign-IsValid =
    packet_of-IsValid 4 (codes "note;hi") write 0 5 (omega arith) (omega arith) (omega arith)
      (omega arith) tt

foreign_fits : length (wire foreign ++ []) ≤ 10000
unfolding le_bytes
foreign_fits = omega arith

-- A system on which every call succeeds.
abbrev listening : Sockets
listening = record {
  socket = some 3;
  set_receive_timeout = λ fd. true;
  set_send_timeout = λ fd. true;
  inet_pton = λ host. true;
  connect = λ fd host port. true;
  set_reuse = λ fd. true;
  bind = λ fd port. true;
  listen = λ fd. true;
  accept = λ fd. some 4;
}

abbrev turns : List (Sockets × Option (List Bytes) × Bytes)
turns = (listening, none, wire foreign ++ []) ∷ []

foreign_turns : worker_turns zeroed 99 86 sys (some (codes "data")) turns 3 disk ≡ ok disk
unfolding worker_turns worker_turn conn_listen conn_close err_conn
foreign_turns = rw (
    handle_client-token zeroed 99 86 sys (some (codes "data")) none foreign [] disk foreign-IsValid
      foreign_fits)

foreign_token : token_of zeroed (wire foreign ++ []) ≢ ok 86
foreign_token h =
    let e : token_of zeroed (wire foreign ++ []) ≡ ok 5 =
      token_of-wire zeroed foreign [] foreign-IsValid foreign_fits in
    ground (arith, e)

worker_turns_foreign_example : disk ≡ disk
worker_turns_foreign_example =
    worker_turns_foreign zeroed 99 86 sys (some (codes "data")) turns 3 disk disk
      (foreign_token, tt) foreign_turns

-- The connection that each accept gives, and a system that refuses to bind a socket.
abbrev accepted : Conn
accepted = record { error = false; error_msg = none; fd = 4; max_bytes = 0 }

abbrev refusing : Sockets
refusing = record listening { bind = λ fd p. false }

listening-Gives : Gives 3 listening accepted
unfolding conn_listen
listening-Gives = record { accepted = refl; usable = refl }

refusing_fails : (e : Conn) × (conn_listen refusing 3 port ≡ ok e) × (e.error ≡ true)
unfolding conn_listen err_conn
refusing_fails = (_, refl, refl)

served_refused_example :
    (a : Accepting) × (c' : Conn) × (events
        (accepts listening ∷ accepts refusing ∷ begins ∷ [])
        (idle 3)
      ≡ ok a)
    × (conn_close refusing_fails.0 ≡ ok (refusing_fails.0.fd, c'))
    × (a.served ≡ c' ∷ [])
    × (c'.error ≡ true)
    × (c'.error ≢ false)
served_refused_example =
    served_refused 3 listening refusing accepted refusing_fails.0 listening-Gives refusing_fails.1
      refusing_fails.2

-- Two workers that run.
abbrev workers : List FileServer
workers = worker 1 ∷ worker 2 ∷ []

for_each_server-running_example :
    for_each_server
      (ping_server zeroed 86 (worker_network zeroed 99 sys (some (codes "data")) 86 none disk))
      (table workers)
    ≡ ok (table workers)
for_each_server-running_example =
    for_each_server-running zeroed zeroed 86 99 (omega arith) (omega arith) sys
      (some (codes "data")) none disk workers (omega arith)
