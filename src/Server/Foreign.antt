-- ===== src/Server/Foreign.antt =====
-- Messages to the worker, src/server/server.c, without the token of the master.
use pekar_drive.Common.{
  ℕ, ◌≤◌, ◌≡◌, ◌≢◌, sym, ap, ◌∙◌, Bool, Bool-cases, inl, inr, true, false, not, Option, none, List,
  [], ◌∷◌, ◌++◌, append_assoc, drop, length, All, ◌==◌, if◌then◌else◌, arith,
}
use pekar_drive.Result.{Result, ok, ok-injective, ◌>>=◌, >>=-eq-ok}
use pekar_drive.Memory.{Bytes, Memory}
use pekar_drive.Comm.{Conn, Sockets, conn_listen, conn_close, conn_read, fd_of, port}
use pekar_drive.Comm.Laws.{conn_read_lem}
use pekar_drive.Packet.{Packet, p_decode, IsValid}
use pekar_drive.Packet.Wire.{wire, p_decode-wire}
use pekar_drive.Fs.{Disk, System}
use pekar_drive.Server.{read_size, handle_client, handle_packet}
use pekar_drive.Server.Loop.{worker_turn, worker_turns}

-- The token of the message, as it is read.
abbrev pub token_of : Memory → Bytes → Result ℕ
token_of mem arrived = do
  buffer ← conn_read (mem.malloc read_size) read_size arrived
  p ← p_decode (buffer ++ mem.behind)
  ok p.token

pub token_of-wire :
    (mem : Memory) (p : Packet) (junk : Bytes)
    → IsValid p
    → length (wire p ++ junk) ≤ read_size
    → token_of mem (wire p ++ junk) ≡ ok p.token
token_of-wire mem p junk v fits =
    let r = wire p ++ junk in
    let tail = drop (length r) (mem.malloc read_size) in
    rw (
      conn_read_lem (mem.malloc read_size) r read_size fits
          (omega (arith, mem.length-malloc read_size)),
      append_assoc r tail mem.behind,
      append_assoc (wire p) junk (tail ++ mem.behind),
      p_decode-wire p (junk ++ (tail ++ mem.behind)) v,
    )

module _ (mem : Memory) (worker_tkn master_tkn : ℕ) (files : System) (work_dir : Option Bytes) where
  foreign_packet :
      (names : Option (List Bytes)) (p : Packet) (disk : Disk) (sent : Option Bytes) (disk' : Disk)
      → p.token ≢ master_tkn
      → (if not (p.token == master_tkn)
          then ok (none, disk)
          else handle_packet mem worker_tkn files work_dir names p disk)
        ≡ ok (sent, disk')
      → (sent ≡ none) × (disk' ≡ disk)
  foreign_packet names p disk sent disk' foreign h =
      let other : (p.token == master_tkn) ≡ false = ground arith in
      let e : ok (none, disk) ≡ ok (sent, disk') = rw other at h in
      (
        ap (λ (x : Option Bytes × Disk). x.0) (sym (ok-injective e)),
        ap (λ (x : Option Bytes × Disk). x.1) (sym (ok-injective e)),
      )

  handle_client_foreign :
      (names : Option (List Bytes)) (arrived : Bytes) (disk : Disk) (sent : Option Bytes)
      (disk' : Disk)
      → token_of mem arrived ≢ ok master_tkn
      → handle_client mem worker_tkn files work_dir master_tkn names arrived disk ≡ ok (sent, disk')
      → (sent ≡ none) × (disk' ≡ disk)
  unfolding handle_client
  handle_client_foreign names arrived disk sent disk' foreign h =
      elim (Bool-cases (length arrived == 0)) [
        | inl nothing ↦
            let e : ok (none, disk) ≡ ok (sent, disk') = rw nothing at h in
            (
              ap (λ (x : Option Bytes × Disk). x.0) (sym (ok-injective e)),
              ap (λ (x : Option Bytes × Disk). x.1) (sym (ok-injective e)),
            )
        | inr bytes ↦
            let f : (do
              buffer ← conn_read (mem.malloc read_size) read_size arrived
              p ← p_decode (buffer ++ mem.behind)
              (if not (p.token == master_tkn)
                  then ok (none, disk)
                  else handle_packet mem worker_tkn files work_dir names p disk))
                ≡ ok (sent, disk') =
              rw bytes at h in
            let (buffer, e, f1) =
              >>=-eq-ok (conn_read (mem.malloc read_size) read_size arrived) _ f in
            let (p, e1, f2) = >>=-eq-ok (p_decode (buffer ++ mem.behind)) _ f1 in
            let token : token_of mem arrived ≡ ok p.token = rw (e, e1) in
            foreign_packet names p disk sent disk' (λ same. foreign (token ∙ ap ok same)) f2
      ]

  -- Whether conn_listen failed or not.
  turn_end :
      (failed : Bool) (client : Conn) (sys : Sockets) (names : Option (List Bytes))
      (arrived : Bytes) (server_fd : ℕ) (disk : Disk) (r : Option Bytes × ℕ × Disk)
      → token_of mem arrived ≢ ok master_tkn
      → (if failed then (do closed ← conn_close client; ok (none, fd_of sys.socket, disk)) else do
        (sent, disk') ← handle_client mem worker_tkn files work_dir master_tkn names arrived disk
        closed ← conn_close client
        ok (sent, server_fd, disk'))
        ≡ ok r
      → (r.0 ≡ none) × (r.2 ≡ disk)
  turn_end true client sys names arrived server_fd disk r foreign h =
      let (closed, e, rest) = >>=-eq-ok (conn_close client) _ h in
      let same = sym (ok-injective rest) in
      (
        ap (λ (x : Option Bytes × ℕ × Disk). x.0) same,
        ap (λ (x : Option Bytes × ℕ × Disk). x.2) same,
      )
  turn_end false client sys names arrived server_fd disk r foreign h =
      let ((sent, disk'), e, rest) =
        >>=-eq-ok (handle_client mem worker_tkn files work_dir master_tkn names arrived disk) _ h in
      let (closed, e', rest') = >>=-eq-ok (conn_close client) _ rest in
      let same = sym (ok-injective rest') in
      let (silent, kept) = handle_client_foreign names arrived disk sent disk' foreign e in
      (
        ap (λ (x : Option Bytes × ℕ × Disk). x.0) same ∙ silent,
        ap (λ (x : Option Bytes × ℕ × Disk). x.2) same ∙ kept,
      )

  worker_turn_foreign :
      (sys : Sockets) (names : Option (List Bytes)) (arrived : Bytes) (server_fd : ℕ) (disk : Disk)
      (r : Option Bytes × ℕ × Disk)
      → token_of mem arrived ≢ ok master_tkn
      → worker_turn mem worker_tkn master_tkn files work_dir sys names arrived server_fd disk ≡ ok r
      → (r.0 ≡ none) × (r.2 ≡ disk)
  unfolding worker_turn
  worker_turn_foreign sys names arrived server_fd disk r foreign h =
      let (client, e, rest) = >>=-eq-ok (conn_listen sys server_fd port) _ h in
      turn_end client.error client sys names arrived server_fd disk r foreign rest

  -- Turns of the loop of a worker in which no message that arrives carries the token of the master
  -- leave its files as they were.
  pub worker_turns_foreign :
      (turns : List (Sockets × Option (List Bytes) × Bytes)) (server_fd : ℕ) (disk disk' : Disk)
      → All (λ t. token_of mem t.2 ≢ ok master_tkn) turns
      → worker_turns mem worker_tkn master_tkn files work_dir turns server_fd disk ≡ ok disk'
      → disk' ≡ disk
  unfolding worker_turns
  worker_turns_foreign [] server_fd disk disk' foreign h = sym (ok-injective h)
  worker_turns_foreign ((sys, names, arrived) ∷ turns) server_fd disk disk' foreign h =
      let ((sent, fd, next), e, rest) =
        >>=-eq-ok
          (worker_turn mem worker_tkn master_tkn files work_dir sys names arrived server_fd disk) _
          h in
      let (silent, kept) =
        worker_turn_foreign sys names arrived server_fd disk (sent, fd, next) foreign.0 e in
      worker_turns_foreign turns fd next disk' foreign.1 rest ∙ kept
