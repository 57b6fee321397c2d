-- ===== src/Master/Reach.antt =====
-- The states that the master reaches: turns of the loop of `main`, src/master.c, and looks of the
-- manager at its clock, src/worker_admin.c, in any order. A round of pings holds the mutex from its
-- start to its end, so it is one step.
use pekar_drive.Common.{
  ℕ, ◌+◌, ◌%◌, ◌^◌, ◌<◌, ◌≡◌, refl, sym, ap, subst, ◌∙◌, Bool-cases, inl, inr, Option, List, [],
  ◌∷◌, ◌++◌, append-nil, length, length-append, All, All-append, ltb, arith,
}
use pekar_drive.Result.{ok, ok-injective, ◌>>=◌, >>=-eq-ok}
use pekar_drive.Memory.{Bytes, Memory}
use pekar_drive.Comm.{Sockets}
use pekar_drive.ServerTable.{FileServer, Table, table, for_each_server}
use pekar_drive.ServerTable.Laws.{IsUnique}
use pekar_drive.ServerTable.Locks.{for_each_server-unchanged}
use pekar_drive.WorkerAdmin.{Network, ping_server}
use pekar_drive.WorkerAdmin.Manager.{manager_tick}
use pekar_drive.WorkerAdmin.Ping.{ping_server-held}
use pekar_drive.Master.{Master}
use pekar_drive.Master.Invariant.{
  Next, handle_client-Next, IsUnique-append, below-Lacks, below-next,
}
use pekar_drive.Master.Loop.{main_turn}
use pekar_drive.Master.Turn.{main_turn-Handled}

-- The worker that is added has the first id that is not used.
Next-sound :
    (xs : List FileServer) (m' : Master)
    → length xs < 2 ^ 16
    → IsUnique xs
    → All (λ s. s.id < length xs + 1) xs
    → Next xs (length xs + 1) m'
    → (ys : List FileServer) × (m' ≡ record { table = table ys; worker_id = length ys + 1 })
      × (length ys < 2 ^ 16)
      × IsUnique ys
      × All (λ s. s.id < length ys + 1) ys
Next-sound xs m' b u l (inl e) = (xs, e, b, u, l)
Next-sound xs m' b u l (inr (w, same_id, room, e)) =
    let size : length (xs ++ w ∷ []) ≡ length xs + 1 = length-append xs (w ∷ []) in
    let next : (length xs + 1 + 1) % 2 ^ 32 ≡ length (xs ++ w ∷ []) + 1 = omega arith in
    (
      xs ++ w ∷ [],
      subst (λ n. m' ≡ record { table = table (xs ++ w ∷ []); worker_id = n }) next e,
      omega arith,
      IsUnique-append xs w u (rw same_id (below-Lacks (length xs + 1) xs l)),
      rw size (All-append _ xs (w ∷ []) (below-next (length xs + 1) xs l) (omega arith, tt)),
    )

module _ (mem : Memory) (tkn worker_tkn : ℕ) where
  -- A step of either thread.
  pub data Step : Master → Master → Type 0 where
    turn :
        (sys : Sockets) (net : Network) (arrived : Option Bytes) (fd : ℕ) (m : Master)
        (sent : Option Bytes) (fd' : ℕ) (m' : Master)
        → main_turn mem tkn worker_tkn sys net arrived fd m ≡ ok (sent, fd', m')
        → Step m m'
    tick :
        (net : Network) (update_time now last : ℕ) (m : Master) (last' : ℕ) (t : Table)
        → manager_tick mem tkn net update_time now last m.table ≡ ok (last', t)
        → Step m (record m { table = t })

  -- The states that are reached from the start, where there are no workers and the first id is 1.
  pub data Reach : Master → Type 0 where
    initially : Reach (record { table = table []; worker_id = 1 })
    after : (m m' : Master) → Reach m → Step m m' → Reach m'

  pub tick-same :
      (net : Network) (update_time now last last' : ℕ) (xs : List FileServer) (t : Table)
      → manager_tick mem tkn net update_time now last (table xs) ≡ ok (last', t)
      → t ≡ table xs
  unfolding manager_tick
  tick-same net update_time now last last' xs t h =
      elim (Bool-cases (ltb now (last + update_time))) [
        | inl wait ↦
            let e : ok (last, table xs) ≡ ok (last', t) = rw wait at h in
            sym (ap (λ (x : ℕ × Table). x.1) (ok-injective e))
        | inr due ↦
            let e : (do t' ← for_each_server (ping_server mem tkn net) (table xs); ok (now, t'))
                ≡ ok (last', t) =
              rw due at h in
            let (t', e1, e2) =
              >>=-eq-ok (for_each_server (ping_server mem tkn net) (table xs)) _ e in
            let same : t' ≡ table xs =
              for_each_server-unchanged (ping_server mem tkn net) xs t'
                (λ i u. ping_server-held mem tkn net i xs u) e1 in
            sym (ap (λ (x : ℕ × Table). x.1) (ok-injective e2)) ∙ same
      ]

  turn-Next :
      (sys : Sockets) (net : Network) (arrived : Option Bytes) (fd : ℕ) (xs : List FileServer)
      (id : ℕ) (sent : Option Bytes) (fd' : ℕ) (m' : Master)
      → length xs < 2 ^ 16
      → main_turn mem tkn worker_tkn sys net arrived fd
          (record { table = table xs; worker_id = id })
        ≡ ok (sent, fd', m')
      → Next xs id m'
  turn-Next sys net arrived fd xs id sent fd' m' b h =
      elim (main_turn-Handled mem tkn worker_tkn sys net arrived _ fd sent fd' m' h) [
        | inl same ↦ inl same
        | inr (r, handled) ↦ handle_client-Next mem tkn worker_tkn net xs id b arrived r m' handled
      ]

  -- A step leaves the master as it is, or puts one worker behind the others.
  Step-Next :
      (xs : List FileServer) (id : ℕ) (m m' : Master)
      → length xs < 2 ^ 16
      → m ≡ record { table = table xs; worker_id = id }
      → Step m m'
      → Next xs id m'
  Step-Next xs id m m' b e (turn sys net arrived fd m1 sent fd' m1' h) =
      turn-Next sys net arrived fd xs id sent fd' m' b
        (subst (λ x. main_turn mem tkn worker_tkn sys net arrived fd x ≡ ok (sent, fd', m')) e h)
  Step-Next xs id m m' b e (tick net update_time now last m1 last' t h) =
      let same : t ≡ table xs = tick-same net update_time now last last' xs t (
        subst (λ u. manager_tick mem tkn net update_time now last u ≡ ok (last', t))
          (ap (λ x. x.table) e) h) in
      inl (
        ap (λ u. record { table = u; worker_id = m.worker_id }) same
        ∙ ap (λ n. record { table = table xs; worker_id = n }) (ap (λ x. x.worker_id) e))

  -- In each state that the master reaches from its start, by turns of its loop and looks of the
  -- manager at its clock in any order, the table holds fewer than 65536 servers with the mutex
  -- free, their ids are unique and below the next id, and the next id is one more than the count of
  -- servers.
  pub Reach-IsSound :
      (m : Master)
      → Reach m
      → (xs : List FileServer) × (m ≡ record { table = table xs; worker_id = length xs + 1 })
        × (length xs < 2 ^ 16)
        × IsUnique xs
        × All (λ s. s.id < length xs + 1) xs
  Reach-IsSound m initially = ([], refl, omega arith, tt, tt)
  Reach-IsSound m (after before m1 reached s) =
      let (xs, e, b, u, l) = Reach-IsSound before reached in
      Next-sound xs m b u l (Step-Next xs (length xs + 1) before m b e s)

  -- From each state that the master reaches, a step of its loop or of the manager that ends leaves
  -- all servers of the table in their places; it may put more behind them.
  pub Reach-append :
      (m m' : Master)
      → Reach m
      → Step m m'
      → (xs : List FileServer) × (more : List FileServer) × (m.table ≡ table xs)
        × (m'.table ≡ table (xs ++ more))
  Reach-append m m' reached s =
      let (xs, e, b, u, l) = Reach-IsSound m reached in
      elim (Step-Next xs (length xs + 1) m m' b e s) [
        | inl same ↦
            (xs, [], ap (λ x. x.table) e, ap (λ x. x.table) same ∙ ap table (sym (append-nil xs)))
        | inr (w, same_id, room, next) ↦ (xs, w ∷ [], ap (λ x. x.table) e, ap (λ x. x.table) next)
      ]
