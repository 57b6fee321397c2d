-- ===== src/Master/Threads/Refinement.antt =====
-- The steps of the two threads of the master against turns and whole rounds: with the mutex given back,
-- a state that the threads reach is one that turns and whole rounds reach, and the other way round.
use pekar_drive.Common.{
  ℕ, ◌+◌, ◌≡◌, refl, sym, ap, subst, ◌∙◌, Bool, true, false, Bool-cases, inl, inr, Option, List, [],
  length, ltb, arith,
}
use pekar_drive.Result.{ok, err, deadlock, ok-injective, ◌>>=◌, >>=-eq-ok}
use pekar_drive.Memory.{Bytes, Memory}
use pekar_drive.Comm.{Sockets}
use pekar_drive.ServerTable.{FileServer, table}
use pekar_drive.ServerTable.Locks.{held}
use pekar_drive.WorkerAdmin.{Network, ping_server}
use pekar_drive.WorkerAdmin.Ping.{ping_server-held}
use pekar_drive.WorkerAdmin.Manager.{manager_tick}
use pekar_drive.Master.{Master}
use pekar_drive.Master.Loop.{main_turn}
use pekar_drive.Master.Turn.{main_turn-held}
use pekar_drive.Master.Reach.{turn, tick, Reach, initially, after, Reach-IsSound, tick-same}
use pekar_drive.Master.Threads.{
  Phase, waiting, pinging, stuck, ThreadState, manager_step, Move, manage, hang, Run, here, more,
  with_table,
}
use pekar_drive.Master.Threads

-- Whether the manager holds the mutex.
abbrev pub holds : Phase → Bool
holds waiting = false
holds (pinging i) = true
holds stuck = true

-- The globals with these servers and the next id, while the manager stands there.
abbrev pub shared : Phase → List FileServer → Master
shared p xs = record {
  table = record { servers = xs; server_count = length xs; locked = holds p };
  worker_id = length xs + 1;
}

-- Before any packet arrives, and before the first round.
abbrev pub started : ℕ → ThreadState
started now = record { master = shared waiting []; manager = waiting; start = now }

-- A state in which the globals fit to where the manager stands.
abbrev pub Fits : List FileServer → ThreadState → Type 0
Fits xs s = s.master ≡ shared s.manager xs

Fits-ok : (xs : List FileServer) (s s' : ThreadState) → Fits xs s → ok s ≡ ok s' → Fits xs s'
Fits-ok xs s s' h e = subst (Fits xs) (ok-injective e) h

module _ (mem : Memory) (tkn : ℕ) (net : Network) (update_time now : ℕ) where
  -- What the manager does leaves the servers and the next id.
  manager_step-Fits :
      (p : Phase) (start : ℕ) (xs : List FileServer) (s' : ThreadState)
      → manager_step mem tkn net update_time now p start (shared p xs) ≡ ok s'
      → Fits xs s'
  unfolding manager_step
  manager_step-Fits waiting start xs s' h = elim (Bool-cases (ltb now (start + update_time))) [
    | inl early ↦
        Fits-ok xs (record { master = shared waiting xs; manager = waiting; start = start }) s' refl
          (rw early at h)
    | inr due ↦
        Fits-ok xs (record { master = shared (pinging 0) xs; manager = pinging 0; start = now }) s'
          refl (rw due at h)
  ]
  manager_step-Fits (pinging i) start xs s' h = elim (Bool-cases (ltb i (length xs))) [
    | inl next ↦
        let e : (do
          t ← ping_server mem tkn net i (held xs)
          ok (record {
            master = with_table (shared (pinging i) xs) t;
            manager = pinging (i + 1);
            start = start;
          }))
            ≡ ok s' =
          rw (manager_step, next) at h in
        let (t, e1, e2) = >>=-eq-ok (ping_server mem tkn net i (held xs)) _ e in
        let same : t ≡ held xs = ping_server-held mem tkn net i xs t e1 in
        Fits-ok xs _ s' (ap (λ u. with_table (shared (pinging i) xs) u) same) e2
    | inr done ↦
        Fits-ok xs (record { master = shared waiting xs; manager = waiting; start = start }) s' refl
          (rw (manager_step, done) at h)
  ]
  manager_step-Fits stuck start xs s' h = cc

  -- The manager waits for ever only inside a round.
  manager_step-stuck :
      (p : Phase) (start : ℕ) (xs : List FileServer)
      → manager_step mem tkn net update_time now p start (shared p xs) ≡ err deadlock
      → shared p xs ≡ shared stuck xs
  unfolding manager_step
  manager_step-stuck waiting start xs h = ground arith
  manager_step-stuck p start xs h = refl

module _ (mem : Memory) (tkn worker_tkn : ℕ) where
  -- A state whose globals, with the mutex given back, are reached by turns and whole rounds.
  abbrev Refined : ThreadState → Type 0
  Refined s = (xs : List FileServer) × Fits xs s × Reach mem tkn worker_tkn (shared waiting xs)

  -- A turn while the manager holds the mutex changes nothing.
  turn-Refined :
      (p : Phase) (start : ℕ) (sys : Sockets) (net : Network) (arrived : Option Bytes) (fd : ℕ)
      (sent : Option Bytes) (fd' : ℕ) (m' : Master) (xs : List FileServer)
      → Reach mem tkn worker_tkn (shared waiting xs)
      → main_turn mem tkn worker_tkn sys net arrived fd (shared p xs) ≡ ok (sent, fd', m')
      → Refined (record { master = m'; manager = p; start = start })
  turn-Refined waiting start sys net arrived fd sent fd' m' xs r h =
      let r' : Reach mem tkn worker_tkn m' =
        after (shared waiting xs) m' r (turn sys net arrived fd _ sent fd' m' h) in
      let (ys, e, b, u, l) = Reach-IsSound mem tkn worker_tkn m' r' in
      (ys, e, subst (Reach mem tkn worker_tkn) e r')
  turn-Refined p start sys net arrived fd sent fd' m' xs r h =
      (xs, main_turn-held mem tkn worker_tkn sys net arrived (shared p xs) fd sent fd' m' refl h, r)

  Move-Refined : (s s' : ThreadState) → Refined s → Move mem tkn worker_tkn s s' → Refined s'
  Move-Refined s s' (xs, e, r) (manage net update_time now s1 s2 h) = (
    xs,
    manager_step-Fits mem tkn net update_time now s.manager s.start xs s'
        (subst (λ m. manager_step mem tkn net update_time now s.manager s.start m ≡ ok s') e h),
    r,
  )
  Move-Refined s s' (xs, e, r) (hang net update_time now s1 h) = (
    xs,
    e
        ∙ manager_step-stuck mem tkn net update_time now s.manager s.start xs (
            subst (λ m. manager_step mem tkn net update_time now s.manager s.start m ≡ err deadlock)
              e h),
    r,
  )
  Move-Refined s s' (xs, e, r) (Threads.turn sys net arrived fd s1 sent fd' m' h) =
      turn-Refined s.manager s.start sys net arrived fd sent fd' m' xs r
        (subst (λ m. main_turn mem tkn worker_tkn sys net arrived fd m ≡ ok (sent, fd', m')) e h)

  -- In each state that the main thread and the manager reach, with turns of the loop of main
  -- between the single pings of a round, the mutex is held exactly while the manager is in a round
  -- or stuck in one, and with the mutex given back the state is one that whole turns and whole
  -- rounds reach.
  pub Run-Reach :
      (now : ℕ) (s : ThreadState)
      → Run mem tkn worker_tkn (started now) s
      → (xs : List FileServer) × Fits xs s × Reach mem tkn worker_tkn (shared waiting xs)
  Run-Reach now s here = ([], refl, initially)
  Run-Reach now s (more t u r m) = Move-Refined t s (Run-Reach now t r) m

  -- Turns and whole rounds are runs of the two threads.
  pub Reach-Run :
      (now : ℕ) (m : Master)
      → Reach mem tkn worker_tkn m
      → Run mem tkn worker_tkn (started now) (record { master = m; manager = waiting; start = now })
  Reach-Run now m initially = here
  Reach-Run now m (after before m1 r (turn sys net arrived fd m2 sent fd' m3 h)) =
      more _ _ (Reach-Run now before r) (
        Threads.turn sys net arrived fd (record { master = before; manager = waiting; start = now })
          sent fd' m h)
  Reach-Run now m (after before m1 r (tick net update_time clock last m2 last' t h)) =
      let (xs, e, b, u, l) = Reach-IsSound mem tkn worker_tkn before r in
      let same : t ≡ table xs = tick-same mem tkn worker_tkn net update_time clock last last' xs t (
        subst (λ v. manager_tick mem tkn net update_time clock last v ≡ ok (last', t))
          (ap (λ x. x.table) e) h) in
      subst
        (λ v.
          Run mem tkn worker_tkn (started now)
            (record { master = with_table before v; manager = waiting; start = now }))
        (ap (λ x. x.table) e ∙ sym same) (Reach-Run now before r)
