-- ===== src/Master/Threads/Examples.antt =====
-- Runs of the two threads of the master: a worker registers and a round begins, and a round of three
-- workers of which the second gives no answer.
use pekar_drive.Common.{◌≡◌, refl, List, [], ◌∷◌, arith}
use pekar_drive.Result.{err, deadlock}
use pekar_drive.Memory.Sample.{zeroed}
use pekar_drive.Memory.Strings.{codes}
use pekar_drive.Packet.{Packet, ls, delete}
use pekar_drive.Packet.Args.{packet_of}
use pekar_drive.ServerTable.{FileServer}
use pekar_drive.ServerTable.Locks.{held}
use pekar_drive.WorkerAdmin.{worker_write, add_worker}
use pekar_drive.WorkerAdmin.Examples.{worker, net}
use pekar_drive.Master.{handle_packet}
use pekar_drive.Master.Examples.{empty, joined, listening, registered, registered_turn}
use pekar_drive.Master.Examples
use pekar_drive.Master.Reach.{Reach}
use pekar_drive.Master.Threads.{
  waiting, pinging, stuck, ThreadState, manager_step, manage, turn, Run, here, more,
}
use pekar_drive.Master.Threads.Refinement.{Fits, shared, started, Run-Reach}
use pekar_drive.Master.Threads.Starvation.{taken, Run-stuck, handle_packet-held}

abbrev accepted : ThreadState
accepted = record { master = joined; manager = waiting; start = 0 }

abbrev begun : ThreadState
begun = record { master = taken joined.table.servers 2; manager = pinging 0; start = 60 }

-- A worker registers, and a minute after the start the manager takes the mutex.
begun-Run : Run zeroed 86 99 (started 0) begun
unfolding manager_step
begun-Run =
    more accepted begun
      (more (started 0) accepted here
        (turn listening Examples.net _ 3 (started 0) _ 3 joined registered_turn))
      (manage net 60 60 accepted begun refl)

Run-Reach_example : (xs : List FileServer) × Fits xs begun × Reach zeroed 86 99 (shared waiting xs)
Run-Reach_example = Run-Reach zeroed 86 99 0 begun begun-Run

abbrev workers : List FileServer
workers = worker 1 ∷ worker 2 ∷ worker 3 ∷ []

abbrev blocked : ThreadState
blocked = record { master = taken workers 4; manager = stuck; start = 60 }

Run-stuck_example : blocked ≡ blocked
Run-stuck_example = Run-stuck zeroed 86 99 blocked refl refl blocked here

abbrev asked : Packet
asked = packet_of 1 (codes "note") ls 0 99

handle_packet-held_example :
    (handle_packet zeroed 86 net 99 (record asked { msg_type = ls }) blocked.master ≡ err deadlock)
    × (handle_packet zeroed 86 net 99 (record asked { msg_type = delete }) blocked.master
        ≡ err deadlock)
    × (worker_write zeroed 86 net (codes "note") (codes "hi") (held workers) ≡ err deadlock)
    × (add_worker (worker 4) (held workers) ≡ err deadlock)
handle_packet-held_example =
    handle_packet-held zeroed 86 99 net blocked.master refl (omega arith) asked (codes "note")
      (codes "hi") (worker 4)
