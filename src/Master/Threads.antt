-- ===== src/Master/Threads.antt =====
-- The two threads of the master: the loop of `main` in src/master.c, and manager_thread of
-- src/worker_admin.c, which shares the server table with it. The manager takes the mutex, pings one worker
-- after the other, and gives the mutex back: each of these is a step of its own, and turns of the loop of
-- `main` may stand between them. A turn is one step, which can be taken where it ends; one that would wait
-- for the mutex cannot.
pub mod Refinement
pub mod Starvation
pub mod Examples
use pekar_drive.Common.{ℕ, ◌+◌, ◌≡◌, Bool, true, false, Option, ltb, if◌then◌else◌}
use pekar_drive.Result.{Result, ok, err, deadlock, ◌>>=◌}
use pekar_drive.Memory.{Bytes, Memory}
use pekar_drive.Comm.{Sockets}
use pekar_drive.ServerTable.{Table, lock, unlock}
use pekar_drive.WorkerAdmin.{Network, ping_server}
use pekar_drive.Master.{Master}
use pekar_drive.Master.Loop.{main_turn}

-- Where the manager stands: at its clock, in front of the entry of an index, or waiting for ever for the
-- mutex that it holds.
pub data Phase : Type 0 where
  waiting : Phase
  pinging : ℕ → Phase
  stuck : Phase

-- The globals, where the manager stands, and the time of its last round, `start` of manager_thread.
pub record ThreadState : Type 0 where
  pub master : Master
  pub manager : Phase
  pub start : ℕ

abbrev pub with_table : Master → Table → Master
with_table m t = record { table = t; worker_id = m.worker_id }

module _ (mem : Memory) (master_tkn : ℕ) (net : Network) where
  -- The next thing that the manager does.
  unfoldable pub manager_step : ℕ → ℕ → Phase → ℕ → Master → Result ThreadState
  unfolding lock unlock
  manager_step update_time now waiting start m =
      if ltb now (start + update_time)
      then ok (record { master = m; manager = waiting; start = start })
      else do
        t ← lock m.table
        ok (record { master = with_table m t; manager = pinging 0; start = now })
  manager_step update_time now (pinging i) start m = elim (ltb i m.table.server_count) [
    | true ↦ (do
      t ← ping_server mem master_tkn net i m.table
      ok (record { master = with_table m t; manager = pinging (i + 1); start = start }))
    | false ↦
        ok (record { master = with_table m (unlock m.table); manager = waiting; start = start })
  ]
  manager_step update_time now stuck start m = err deadlock

module _ (mem : Memory) (tkn worker_tkn : ℕ) where
  -- A step of either thread. The time and the network are those that it finds.
  pub data Move : ThreadState → ThreadState → Type 0 where
    manage :
        (net : Network) (update_time now : ℕ) (s s' : ThreadState)
        → manager_step mem tkn net update_time now s.manager s.start s.master ≡ ok s'
        → Move s s'
    hang :
        (net : Network) (update_time now : ℕ) (s : ThreadState)
        → manager_step mem tkn net update_time now s.manager s.start s.master ≡ err deadlock
        → Move s (record s { manager = stuck })
    turn :
        (sys : Sockets) (net : Network) (arrived : Option Bytes) (fd : ℕ) (s : ThreadState)
        (sent : Option Bytes) (fd' : ℕ) (m' : Master)
        → main_turn mem tkn worker_tkn sys net arrived fd s.master ≡ ok (sent, fd', m')
        → Move s (record s { master = m' })

  -- Steps of the two threads, in any order.
  pub data Run (s : ThreadState) : ThreadState → Type 0 where
    here : Run s s
    more : (t u : ThreadState) → Run s t → Move t u → Run s u
