-- ===== src/Master/Turn.antt =====
-- A turn of the loop of `main`, src/master.c, changes the globals by handle_client alone.
use pekar_drive.Common.{
  ℕ, ◌≡◌, sym, ap, subst, Bool, true, false, ◌⊎◌, inl, inr, Option, none, if◌then◌else◌,
}
use pekar_drive.Result.{ok, ok-injective, ◌>>=◌, >>=-eq-ok}
use pekar_drive.Memory.{Bytes, Memory}
use pekar_drive.Comm.{Conn, Sockets, conn_listen, port}
use pekar_drive.WorkerAdmin.{Network}
use pekar_drive.Master.{Master, handle_client}
use pekar_drive.Master.Keeps.{handle_client-held}
use pekar_drive.Master.Loop.{server_restart, restarted, main_turn}

restarted-same :
    (sys : Sockets) (client : Conn) (sent : Option Bytes) (m : Master) {r : Option Bytes} {fd' : ℕ}
    {m' : Master}
    → restarted sys client sent m ≡ ok (r, fd', m')
    → m ≡ m'
unfolding restarted
restarted-same sys client sent m h =
    let (closed, e, rest) = >>=-eq-ok (server_restart sys client) _ h in
    ap (λ (x : Option Bytes × ℕ × Master). x.2) (ok-injective rest)

module _ (mem : Memory) (tkn worker_tkn : ℕ) (sys : Sockets) (net : Network)
    (arrived : Option Bytes) (m : Master) where
  -- No connection, or one that was handled to its end.
  abbrev pub Handled : Master → Type 0
  Handled m' =
      (m' ≡ m)
      ⊎ ((sent : Option Bytes) × (handle_client mem tkn net worker_tkn arrived m ≡ ok (sent, m')))

  -- Whether conn_listen failed or not.
  turn_end :
      (failed : Bool) (client : Conn) (sent : Option Bytes) (fd' : ℕ) (m' : Master)
      → (if failed then restarted sys client none m else do
        (sent, m') ← handle_client mem tkn net worker_tkn arrived m
        restarted sys client sent m')
        ≡ ok (sent, fd', m')
      → Handled m'
  turn_end true client sent fd' m' h = inl (sym (restarted-same sys client none m h))
  turn_end false client sent fd' m' h =
      let ((sent', m''), e, rest) =
        >>=-eq-ok (handle_client mem tkn net worker_tkn arrived m) _ h in
      inr (
        sent',
        subst (λ x. handle_client mem tkn net worker_tkn arrived m ≡ ok (sent', x))
            (restarted-same sys client sent' m'' rest) e,
      )

  pub main_turn-Handled :
      (fd : ℕ) (sent : Option Bytes) (fd' : ℕ) (m' : Master)
      → main_turn mem tkn worker_tkn sys net arrived fd m ≡ ok (sent, fd', m')
      → Handled m'
  unfolding main_turn
  main_turn-Handled fd sent fd' m' h =
      let (client, e, rest) = >>=-eq-ok (conn_listen sys fd port) _ h in
      turn_end client.error client sent fd' m' rest

  -- While the mutex is held, a turn that ends leaves the globals as they were.
  pub main_turn-held :
      (fd : ℕ) (sent : Option Bytes) (fd' : ℕ) (m' : Master)
      → m.table.locked ≡ true
      → main_turn mem tkn worker_tkn sys net arrived fd m ≡ ok (sent, fd', m')
      → m' ≡ m
  main_turn-held fd sent fd' m' locked h = elim (main_turn-Handled fd sent fd' m' h) [
    | inl same ↦ same
    | inr (r, handled) ↦ handle_client-held mem tkn worker_tkn net m arrived r m' locked handled
  ]
