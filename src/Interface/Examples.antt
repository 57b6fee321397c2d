-- ===== src/Interface/Examples.antt =====
-- Runs of lib/interface.c.
use pekar_drive.Common.{◌≡◌, refl, true, false, none, some, [], ◌∷◌, ◌++◌, replicate, arith}
use pekar_drive.Common.Int.{pos}
use pekar_drive.Result.{ok}
use pekar_drive.Memory.Strings.{codes}
use pekar_drive.Memory.Sample.{zeroed}
use pekar_drive.Comm.{Conn, Sockets, client_init, client_connect}
use pekar_drive.Packet.{write}
use pekar_drive.WorkerAdmin.Examples.{
  worker, listing, listing_net, ls_message, ls_sent, worker-Lists,
}
use pekar_drive.Memory.{Bytes}
use pekar_drive.ServerTable.{FileServer, table, entry}
use pekar_drive.WorkerAdmin.{request, worker_delete}
use pekar_drive.Master.{handle_client}
use pekar_drive.Interface.{file_read, file_write}
use pekar_drive.Interface.Listing.{file_read-garbage}
use pekar_drive.Fs.{Disk, System, without, set_path}
use pekar_drive.Fs.Writes.{IsOpen, IsPut}
use pekar_drive.Fs.Examples.{sys, sys-IsOpen, disk, note_path, note_located}
use pekar_drive.Server
use pekar_drive.Interface.Removal.{worker_delete-without}
use pekar_drive.Interface.Storage.{file_write-IsPut}
use pekar_drive.Interface.Write.{answers, answers_only}

-- A system on which every call succeeds.
abbrev reachable : Sockets
reachable = record {
  socket = some 3;
  set_receive_timeout = λ fd. true;
  set_send_timeout = λ fd. true;
  inet_pton = λ host. true;
  connect = λ fd host port. true;
  set_reuse = λ fd. true;
  bind = λ fd port. true;
  listen = λ fd. true;
  accept = λ fd. none;
}

abbrev client : Conn
client = record { error = false; error_msg = some []; fd = 3; max_bytes = 0 }

connected : client_init reachable (codes "10.0.0.2") 55443 ≡ ok client
unfolding client_init client_connect
connected = refl

file_write-IsPut_example :
    (message : Bytes) × (answer : Bytes) × (disk' : Disk) × (request zeroed 86
        (codes "note;hi" ++ 0 ∷ [])
        write
        48
      ≡ ok message)
    × (Server.handle_client zeroed 99 sys (some (codes "data")) 86 none message disk
        ≡ ok (some answer, disk'))
    × IsPut note_path (codes "hi") disk disk'
    × (file_write zeroed reachable
          (λ bytes. answers (
            handle_client zeroed 86
              (answers_only (codes "10.0.0.1") 1 message answer)
              99
              (some bytes)
              (record { table = table (worker 1 ∷ []); worker_id = 2 })))
          (codes "note" ++ 0 ∷ [])
          (codes "hi" ++ 0 ∷ [])
          false
          (codes "10.0.0.2")
          55443
        ≡ ok (pos 2))
file_write-IsPut_example =
    file_write-IsPut zeroed zeroed 86 99 (replicate 63 0) (replicate 63 0) (0 ∷ []) 2 (worker 1) []
      refl (omega arith) refl (omega arith) (omega arith) (omega arith) (codes "note") (codes "hi")
      [] [] note_path (ground arith) (ground arith) (ground arith) (omega arith) refl sys
      (some (codes "data")) none note_located sys-IsOpen reachable (codes "10.0.0.2") 55443 client
      connected refl disk

-- The name is a part of what the worker lists.

-- The shell command removes the file note2.
abbrev shell : System
shell = record sys { system = λ command disk. without (codes "data/note2") disk }

shell-IsOpen : IsOpen shell
shell-IsOpen = record { readable = λ p. refl; writable = λ p. refl }

note2_located : set_path (some (codes "data")) (some (codes "note2")) ≡ some (codes "data/note2")
unfolding set_path
note2_located = refl

-- The first listing with the name is that of the second worker.
worker_delete-without_example :
    (s : FileServer) × (entry (worker 1 ∷ worker 2 ∷ []) 1 ≡ ok s)
    × (removal : Bytes) × (worker_delete zeroed 86 listing_net
          (codes "note2" ++ 0 ∷ [])
          (table (worker 1 ∷ worker 2 ∷ []))
        ≡ ok (
          some (record { ip = s.ip; port = s.port; message = removal }),
          table (worker 1 ∷ worker 2 ∷ []),
        ))
    × (answer : Bytes) × (disk' : Disk) × (Server.handle_client zeroed 99 shell
          (some (codes "data"))
          86
          none
          removal
          disk
        ≡ ok (some answer, disk'))
    × ((q : Bytes) → disk' q ≡ without (codes "data/note2") disk q)
worker_delete-without_example =
    worker_delete-without zeroed 86 99 listing_net (replicate 63 0) (worker 1 ∷ worker 2 ∷ []) refl
      (omega arith) (codes "note2") [] (ground arith) (omega arith) ls_message ls_sent
      (listing 1 ∷ listing 2 ∷ []) (worker-Lists 1, (worker-Lists 2, tt)) zeroed (replicate 63 0)
      refl (omega arith) (omega arith) (omega arith) shell (some (codes "data")) none
      (codes "data/note2") note2_located shell-IsOpen 1 disk refl refl

file_read-garbage_example :
    file_read zeroed reachable
      (λ bytes. answers (
        handle_client zeroed 86 listing_net 99
          (some bytes)
          (record { table = table (worker 1 ∷ []); worker_id = 2 })))
      (codes "note" ++ 0 ∷ [])
      (codes "10.0.0.2")
      55443
    ≡ ok (some (replicate 1000 0))
file_read-garbage_example =
    file_read-garbage zeroed 86 99 listing_net (replicate 63 0) 2 (worker 1) [] refl (omega arith)
      reachable (codes "10.0.0.2") 55443 client connected refl (codes "note") [] (ground arith)
      (omega arith)
