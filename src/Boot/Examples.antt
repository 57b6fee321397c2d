-- ===== src/Boot/Examples.antt =====
-- Runs of src/server/boot.c.
use pekar_drive.Common.{
  ◌≡◌, refl, true, none, some, [], ◌∷◌, ◌++◌, length, drop, false, replicate, arith,
}
use pekar_drive.Result.{ok}
use pekar_drive.Memory.{Bytes}
use pekar_drive.Memory.Strings.{codes}
use pekar_drive.Memory.Decimal.{print, digits}
use pekar_drive.Memory.Sample.{zeroed}
use pekar_drive.Memory.Scan.{IsHost}
use pekar_drive.Comm.{Conn, Sockets, client_init, client_connect, port}
use pekar_drive.ServerTable.{table}
use pekar_drive.WorkerAdmin.{Network}
use pekar_drive.Master.{handle_client}
use pekar_drive.Boot.{boot}
use pekar_drive.Boot.Start.{boot-handle_client}

abbrev net : Network
net ip n message = record { sent = true; answer = none }

-- A system on which every call succeeds.
abbrev reachable : Sockets
reachable = record {
  socket = some 3;
  set_receive_timeout = λ fd. true;
  set_send_timeout = λ fd. true;
  inet_pton = λ host. true;
  connect = λ fd host port. true;
  set_reuse = λ fd. true;
  bind = λ fd port. true;
  listen = λ fd. true;
  accept = λ fd. none;
}

abbrev worker : Conn
worker = record { error = false; error_msg = some []; fd = 3; max_bytes = 0 }

connected : client_init reachable (codes "10.0.0.2") 55443 ≡ ok worker
unfolding client_init client_connect
connected = refl

address-IsHost : IsHost (codes "10.0.0.7")
address-IsHost = ground arith

fresh_block :
    drop 8 (zeroed.malloc (length (codes "10.0.0.7" ++ b';' ∷ print port))) ≡ 0 ∷ replicate 5 0
unfolding print digits
fresh_block = refl

boot-handle_client_example :
    (message : Bytes) × (command : Bytes) × (boot zeroed reachable
        (λ i. 40)
        1
        (codes "data")
        (codes "10.0.0.2")
        55443
        99
        (some (codes "10.0.0.7 \n"))
      ≡ ok (record {
        succeeded = true;
        sent = some (1, message);
        command = (codes "mkdir " ++ codes "data") ++ 0 ∷ command;
        work_dir = some (codes "data");
      }))
    × (handle_client zeroed 86 net 99 (some message) (record { table = table []; worker_id = 1 })
        ≡ ok (
          none,
          record {
            table = table (record { id = 1; size = 0; ip = codes "10.0.0.7"; port = 55443 } ∷ []);
            worker_id = 2;
          },
        ))
boot-handle_client_example =
    boot-handle_client zeroed (codes "10.0.0.7") (codes "\n") (replicate 63 0) (replicate 5 0) b' '
      address-IsHost refl (omega arith) refl (omega arith) fresh_block reachable (λ i. 40) 0
      (codes "data") (codes "10.0.0.2") 55443 worker 86 99 net 1 [] connected refl (omega arith)
      (omega arith) (omega arith) (omega arith)
