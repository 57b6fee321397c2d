-- ===== src/Master/Examples.antt =====
-- Runs of src/master.c with one worker that answers each request with a count.
use pekar_drive.Common.{
  ℕ, zero, suc, ◌+◌, ◌<◌, All, List, ◌≤◌, ◌^◌, ◌≡◌, ◌≢◌, refl, true, none, some, [], ◌∷◌, ◌++◌,
  length, replicate, take, arith,
}
use pekar_drive.Result.{ok, err, null_pointer, ◌>>=◌}
use pekar_drive.Memory.{Bytes}
use pekar_drive.Memory.Words.{le_bytes}
use pekar_drive.Memory.Strings.{IsText, Lacks, codes}
use pekar_drive.Memory.Decimal.{print}
use pekar_drive.Memory.Sample.{zeroed}
use pekar_drive.Packet.{MsgType, Packet, write, read, ls, register, IsValid}
use pekar_drive.Packet.Wire.{wire}
use pekar_drive.Packet.Args.{packet_of, packet_of-IsValid}
use pekar_drive.Comm.{Sockets, conn_listen, conn_close, err_conn}
use pekar_drive.ServerTable.{FileServer, table}
use pekar_drive.ServerTable.Laws.{IsUnique}
use pekar_drive.WorkerAdmin.{Network, request}
use pekar_drive.WorkerAdmin.Requests.{request-sent, memory}
use pekar_drive.WorkerAdmin.Examples.{worker}
use pekar_drive.Master.{Master, handle_packet, handle_client}
use pekar_drive.Master.Register.{handle_packet-register}
use pekar_drive.Master.Loop.{server_restart, restarted, main_turn}
use pekar_drive.Master.Reach.{Step, turn, initially, after, Reach-IsSound, Reach-append}
use pekar_drive.Boot.Registration.{register_message-handle_client}
use pekar_drive.Master.Requests.{handle_client-read, handle_client-ls}

abbrev pub counted : Packet
counted = packet_of 1 (print 2) write 0 99

abbrev pub net : Network
net ip port message = record { sent = true; answer = some (wire counted ++ []) }

abbrev pub master : Master
master = record { table = table (worker 1 ∷ []); worker_id = 2 }

pub note-IsText : IsText (codes "note;hi")
note-IsText = ground arith

abbrev pub message : Bytes
message =
    take 48
      (memory zeroed 86 (codes "note;hi") [] write 48 note-IsText (omega arith) (omega arith) tt)

pub sent : request zeroed 86 (codes "note;hi" ++ 0 ∷ []) write 48 ≡ ok message
sent =
    request-sent zeroed 86 (codes "note;hi") [] write 48 (ground arith) (omega arith) (omega arith)
      tt (omega arith)

pub counted-IsValid : IsValid counted
unfolding print
counted-IsValid =
    packet_of-IsValid 1 (print 2) write 0 99 (omega arith) (omega arith) (omega arith) (omega arith)
      tt

pub counted_fits : length (wire counted ++ []) ≤ 50
unfolding print le_bytes
counted_fits = omega arith

note_fits : (t : MsgType) → length (wire (packet_of 5 (codes "note;hi") t 0 0) ++ []) ≤ 10000
unfolding le_bytes
note_fits t = omega arith

handle_client-read_example :
    handle_client zeroed 86 net 99
      (some (wire (packet_of 5 (codes "note;hi") read 0 0) ++ []))
      master
    ≡ err null_pointer
handle_client-read_example =
    handle_client-read zeroed 86 99 net 5 0 0 [] (replicate 63 0) 2 (worker 1) [] (omega arith)
      (omega arith) (omega arith) refl (codes "note;hi") (omega arith) (note_fits read)

handle_client-ls_example :
    handle_client zeroed 86 net 99 (some (wire (packet_of 5 (codes "note;hi") ls 0 0) ++ [])) master
    ≢ ok (none, master)
handle_client-ls_example =
    handle_client-ls zeroed 86 99 net 5 0 0 [] (replicate 63 0) 2 (worker 1) [] (omega arith)
      (omega arith) (omega arith) refl (codes "note;hi") (none, master) (omega arith) (note_fits ls)

handle_packet-register_example :
    handle_packet zeroed 86 net 99
      (record {
        seq_number = 0;
        arg = codes "10.0.0.7" ++ (b';' ∷ print 1);
        msg_len = 10;
        error = 0;
        token = 99;
        msg_type = register;
      })
      master
    ≡ ok (
      none,
      record {
        table =
            table (worker 1 ∷ record { id = 2; size = 0; ip = codes "10.0.0.7"; port = 1 } ∷ []);
        worker_id = 3;
      },
    )
unfolding print
handle_packet-register_example =
    handle_packet-register zeroed (codes "10.0.0.7") (replicate 63 0) (replicate 1 0) 1
      (ground arith) (ground arith) (omega arith) (omega arith) (omega arith) refl refl 86 99 net
      (record {
        seq_number = 0;
        arg = codes "10.0.0.7" ++ (b';' ∷ print 1);
        msg_len = 10;
        error = 0;
        token = 99;
        msg_type = register;
      })
      2 (worker 1 ∷ []) refl refl refl (omega arith) (omega arith)

-- A system on which every call succeeds.
abbrev pub listening : Sockets
listening = record {
  socket = some 3;
  set_receive_timeout = λ fd. true;
  set_send_timeout = λ fd. true;
  inet_pton = λ host. true;
  connect = λ fd host port. true;
  set_reuse = λ fd. true;
  bind = λ fd port. true;
  listen = λ fd. true;
  accept = λ fd. some 4;
}

abbrev pub empty : Master
empty = record { table = table []; worker_id = 1 }

abbrev pub joined : Master
joined = record {
  table = table (record { id = 1; size = 0; ip = codes "10.0.0.7"; port = 1 } ∷ []);
  worker_id = 2;
}

address_short : length (codes "10.0.0.7" ++ b';' ∷ print 1) ≤ 18
unfolding print
address_short = omega arith

pub registered :
    (arrived : Bytes) × (handle_client zeroed 86 net 99 (some arrived) empty ≡ ok (none, joined))
unfolding print
registered =
    let (arrived, sent, handled) =
      register_message-handle_client zeroed (codes "10.0.0.7") (replicate 63 0) (replicate 1 0) 1
        (ground arith) (ground arith) (omega arith) (omega arith) address_short refl (omega arith)
        refl 86 99 net 1 [] (omega arith) (omega arith) (omega arith) in
    (arrived, handled)

pub registered_turn :
    main_turn zeroed 86 99 listening net (some registered.0) 3 empty ≡ ok (none, 3, joined)
unfolding main_turn restarted server_restart conn_listen conn_close err_conn
registered_turn = rw registered.1

joining : Step zeroed 86 99 empty joined
joining = turn listening net (some registered.0) 3 empty none 3 joined registered_turn

Reach-IsSound_example :
    (xs : List FileServer) × (joined ≡ record { table = table xs; worker_id = length xs + 1 })
    × (length xs < 2 ^ 16)
    × IsUnique xs
    × All (λ s. s.id < length xs + 1) xs
Reach-IsSound_example = Reach-IsSound zeroed 86 99 joined (after empty joined initially joining)

Reach-append_example :
    (xs : List FileServer) × (more : List FileServer) × (empty.table ≡ table xs)
    × (joined.table ≡ table (xs ++ more))
Reach-append_example = Reach-append zeroed 86 99 empty joined initially joining

zeros-Lacks : (n : ℕ) → Lacks b';' (replicate n 0)
zeros-Lacks zero = tt
zeros-Lacks (suc n) = (omega arith, zeros-Lacks n)
