-- ===== src/Master/Threads/Starvation.antt =====
-- A round of pings that meets a worker which gives no answer: the manager, manager_thread of
-- src/worker_admin.c, never gives the mutex back, and what becomes of the requests to src/master.c.
use pekar_drive.Common.{
  ℕ, zero, suc, ◌+◌, ◌<◌, ◌≤◌, ◌≡◌, refl, sym, ap, subst, ◌∙◌, true, false, List, [], ◌∷◌, ◌++◌,
  length, length-append, All, ltb, lt→ltb, ◌==◌, arith,
}
use pekar_drive.Result.{ok, err, deadlock}
use pekar_drive.Memory.{Bytes, Memory}
use pekar_drive.Packet.{ping, ls, register, delete, Packet, type_code}
use pekar_drive.ServerTable.{FileServer, table, getfs_index}
use pekar_drive.ServerTable.Search.{entry-middle}
use pekar_drive.ServerTable.Locks.{held, held_deadlock}
use pekar_drive.WorkerAdmin.{
  Network, request, ping_server, worker_ls_index, find_from, find_by_file, ls_from, worker_ls,
  worker_write, worker_delete, worker_count, least_load, add_worker,
}
use pekar_drive.WorkerAdmin.Ping.{
  IsAlive, IsSilent, ping_server-alive, ping_server-silent, entry-All, entry-append,
}
use pekar_drive.Master.{Master, handle_packet, service_available, serve, handle_request, exec_str}
use pekar_drive.Master.Turn.{main_turn-held}
use pekar_drive.Master.Threads.{
  Phase, waiting, pinging, stuck, ThreadState, manager_step, Move, manage, hang, turn, Run, here,
  more,
}

module _ (mem : Memory) (tkn worker_tkn : ℕ) (s : ThreadState) (blocked : s.manager ≡ stuck)
    (locked : s.master.table.locked ≡ true) where
  Move-stuck : (s' : ThreadState) → Move mem tkn worker_tkn s s' → s' ≡ s
  unfolding manager_step
  Move-stuck s' (manage net update_time now s1 s2 h) =
      let e : manager_step mem tkn net update_time now stuck s.start s.master ≡ ok s' =
        subst (λ p. manager_step mem tkn net update_time now p s.start s.master ≡ ok s') blocked
          h in
      cc
  Move-stuck s' (hang net update_time now s1 h) = ap (λ p. record s { manager = p }) (sym blocked)
  Move-stuck s' (turn sys net arrived fd s1 sent fd' m' h) =
      ap (λ m. record s { master = m })
        (main_turn-held mem tkn worker_tkn sys net arrived s.master fd sent fd' m' locked h)

  -- Once the manager waits for ever and the mutex is held, no step of either thread that ends
  -- changes the state.
  pub Run-stuck : (s' : ThreadState) → Run mem tkn worker_tkn s s' → s' ≡ s
  Run-stuck s' here = refl
  Run-stuck s' (more t u r m) =
      Move-stuck s' (subst (λ v. Move mem tkn worker_tkn v s') (Run-stuck t r) m)

-- The globals with these servers, while the mutex is free or taken.
abbrev pub free : List FileServer → ℕ → Master
free xs id = record { table = table xs; worker_id = id }

abbrev pub taken : List FileServer → ℕ → Master
taken xs id = record { table = held xs; worker_id = id }

module _ (mem : Memory) (tkn worker_tkn : ℕ) (net : Network) (message : Bytes)
    (sent : request mem tkn (0 ∷ []) ping 50 ≡ ok message) (pre : List FileServer) (w : FileServer)
    (post : List FileServer) (alive : All (IsAlive mem net message) pre)
    (silent : IsSilent mem net message w) (id update_time now start : ℕ)
    (due : start + update_time ≤ now) where
  abbrev workers : List FileServer
  workers = pre ++ w ∷ post

  abbrev idle : ThreadState
  idle = record { master = free workers id; manager = waiting; start = start }

  abbrev at : Phase → ThreadState
  at p = record { master = taken workers id; manager = p; start = now }

  begins :
      manager_step mem tkn net update_time now waiting start (free workers id) ≡ ok (at (pinging 0))
  unfolding manager_step
  begins = let e : ltb now (start + update_time) ≡ false = ground arith in rw e

  room : length workers ≡ length pre + suc (length post)
  room = length-append pre (w ∷ post)

  -- The pings of the workers in front.
  pings :
      (i : ℕ)
      → i < length pre
      → manager_step mem tkn net update_time now (pinging i) now (taken workers id)
        ≡ ok (at (pinging (i + 1)))
  unfolding manager_step
  pings i h =
      let (x, e, a) = entry-All (IsAlive mem net message) pre i alive h in
      let more : ltb i (length workers) ≡ true = lt→ltb i (length workers) (omega (arith, room)) in
      let same : ping_server mem tkn net i (held workers) ≡ ok (held workers) =
        ping_server-alive mem tkn net message sent x (held workers) i
          (entry-append pre (w ∷ post) i x e) a in
      rw (manager_step, more, same)

  hangs :
      manager_step mem tkn net update_time now (pinging (length pre)) now (taken workers id)
      ≡ err deadlock
  unfolding manager_step
  hangs =
      let more : ltb (length pre) (length workers) ≡ true = lt→ltb _ _ (omega (arith, room)) in
      let fails : ping_server mem tkn net (length pre) (held workers) ≡ err deadlock =
        ping_server-silent mem tkn net message sent w (held workers) (length pre)
          (entry-middle pre w post (length pre) refl) silent refl in
      rw (manager_step, more, fails)

  reaches : (i : ℕ) → i ≤ length pre → Run mem tkn worker_tkn idle (at (pinging i))
  reaches zero h = more idle _ here (manage net update_time now idle (at (pinging 0)) begins)
  reaches (suc i) h =
      let e : i + 1 ≡ suc i = omega arith in
      more (at (pinging i)) _ (reaches i (omega arith)) (
        manage net update_time now (at (pinging i)) (at (pinging (suc i))) (
          subst
            (λ n.
              manager_step mem tkn net update_time now (pinging i) now (taken workers id)
              ≡ ok (at (pinging n)))
            e (pings i h)))

  -- If the time of a round has come, a worker gives no answer to the ping, and all workers in front
  -- of it answer with a ping, then there is a run in which the manager takes the mutex, pings
  -- these, and comes to wait for ever for the mutex that it holds.
  pub Run-silent : Run mem tkn worker_tkn idle (at stuck)
  Run-silent =
      more (at (pinging (length pre))) _ (reaches (length pre) (omega arith))
        (hang net update_time now (at (pinging (length pre))) hangs)

module _ (mem : Memory) (tkn worker_tkn : ℕ) (net : Network) (m : Master)
    (locked : m.table.locked ≡ true) (workers : 0 < m.table.server_count) where
  getfs_index-held : (i : ℕ) → i < m.table.server_count → getfs_index i m.table ≡ err deadlock
  unfolding getfs_index
  getfs_index-held i h = ground arith

  worker_ls_index-held : worker_ls_index mem tkn net 0 m.table ≡ err deadlock
  unfolding worker_ls_index
  worker_ls_index-held = rw (getfs_index-held 0 workers)

  ls_from-held :
      (result : Bytes) (rounds : ℕ)
      → 0 < rounds
      → ls_from mem tkn net result rounds 0 m.table ≡ err deadlock
  unfolding ls_from
  ls_from-held result zero h = absurd (omega arith)
  ls_from-held result (suc rounds) h = rw worker_ls_index-held

  find_from-held :
      (file : Bytes) (rounds : ℕ)
      → 0 < rounds
      → find_from mem tkn net file rounds 0 m.table ≡ err deadlock
  unfolding find_from
  find_from-held file zero h = absurd (omega arith)
  find_from-held file (suc rounds) h = rw worker_ls_index-held

  worker_ls-held : worker_ls mem tkn net m.table ≡ err deadlock
  unfolding worker_ls worker_count
  worker_ls-held = rw (ls_from-held (mem.malloc 1) m.table.server_count workers)

  worker_delete-held : (file : Bytes) → worker_delete mem tkn net file m.table ≡ err deadlock
  unfolding worker_delete find_by_file worker_count
  worker_delete-held file = rw (find_from-held file m.table.server_count workers)

  worker_write-held :
      (file content : Bytes) → worker_write mem tkn net file content m.table ≡ err deadlock
  unfolding worker_write least_load
  worker_write-held file content =
      let some_workers : (m.table.server_count == 0) ≡ false = ground arith in
      rw (some_workers, getfs_index-held 0 workers)

  serves :
      (p : Packet)
      → (type_code p.msg_type == type_code register) ≡ false
      → handle_packet mem tkn net worker_tkn p m ≡ serve mem tkn net p m
  unfolding handle_packet service_available worker_count
  serves p h =
      let some_workers : (m.table.server_count == 0) ≡ false = ground arith in rw (h, some_workers)

  -- While the mutex is held and there are workers, neither an LS nor a DELETE packet is answered,
  -- whatever it asks for, and neither a write to a worker nor the registration of one ends: each
  -- waits for the mutex.
  pub handle_packet-held :
      (p : Packet) (file content : Bytes) (w : FileServer)
      → (handle_packet mem tkn net worker_tkn (record p { msg_type = ls }) m ≡ err deadlock)
        × (handle_packet mem tkn net worker_tkn (record p { msg_type = delete }) m ≡ err deadlock)
        × (worker_write mem tkn net file content m.table ≡ err deadlock)
        × (add_worker w m.table ≡ err deadlock)
  unfolding serve handle_request exec_str type_code add_worker
  handle_packet-held p file content w = (
    serves (record p { msg_type = ls }) refl ∙ rw worker_ls-held,
    serves (record p { msg_type = delete }) refl ∙ rw (worker_delete-held (p.arg ++ mem.behind)),
    worker_write-held file content,
    (held_deadlock m.table locked).0 w,
  )
