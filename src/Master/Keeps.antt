-- ===== src/Master/Keeps.antt =====
-- What handling a connection can do to the globals of src/master.c: the request handlers that only read
-- the server table leave it as it was, and so does all else but the registration of a worker.
use pekar_drive.Common.{
  ℕ, ◌+◌, ◌%◌, ◌^◌, ◌≡◌, sym, ap, ◌∙◌, true, Bool-cases, ◌⊎◌, inl, inr, Option, none, some, [], ◌∷◌,
  ◌++◌, length, ◌==◌, arith,
}
use pekar_drive.Result.{Result, ok, err, deadlock, ◌>>=◌, >>=-eq-ok, ok-injective}
use pekar_drive.Memory.{Bytes, Memory}
use pekar_drive.Memory.Strings.{codes, text}
use pekar_drive.Comm.{conn_read}
use pekar_drive.Packet.{MsgType, ls, write, append, register, delete, Packet, p_decode, type_code}
use pekar_drive.ServerTable.{FileServer, Table}
use pekar_drive.ServerTable.Locks.{held_deadlock}
use pekar_drive.WorkerAdmin.{
  Network, add_worker, worker_count, worker_read, worker_append, received,
}
use pekar_drive.WorkerAdmin.Keeps.{
  Keeps, keeps_rules, Keeps-ok, Keeps-pure, Keeps-option, worker_ls-Keeps, worker_write-Keeps,
  worker_delete-Keeps,
}
use pekar_drive.Master.{
  Master, new_worker, parse_port, parse_ip, register_worker, serve, handle_request, exec_str,
  exec_long, exec_split, server_error, handle_packet, handle_client, answer, char_at,
  service_available, read_sz,
}

module _ (mem : Memory) (tkn : ℕ) (net : Network) (t : Table) where
  worker_append-Keeps : (f d : Bytes) → Keeps t (worker_append f d t)
  unfolding worker_append
  worker_append-Keeps f d = search keeps_rules

  exec_split-Keeps :
      (ty : MsgType) (n : ℕ) (arg : Bytes) → Keeps t (exec_split mem tkn net ty n arg t)
  unfolding exec_split
  exec_split-Keeps write n arg = search (keeps_rules, worker_write-Keeps) depth 10
  exec_split-Keeps append n arg = search (keeps_rules, worker_append-Keeps) depth 10
  exec_split-Keeps _ n arg = search keeps_rules

  exec_long-Keeps : (ty : MsgType) (arg : Bytes) → Keeps t (exec_long mem tkn net ty arg t)
  unfolding exec_long
  exec_long-Keeps ty arg = Keeps-pure t (char_at arg b';') _ λ sep.
      Keeps-option t sep (ok (some server_error, t)) (λ n. exec_split mem tkn net ty n arg t)
        (Keeps-ok t (some server_error)) λ n. exec_split-Keeps ty n arg

  handle_request-Keeps :
      (ty : MsgType) (arg : Bytes) → Keeps t (handle_request mem tkn net ty arg t)
  unfolding handle_request exec_str worker_read
  handle_request-Keeps ls arg = search (keeps_rules, worker_ls-Keeps)
  handle_request-Keeps write arg = exec_long-Keeps write arg
  handle_request-Keeps append arg = exec_long-Keeps append arg
  handle_request-Keeps delete arg = search (keeps_rules, worker_delete-Keeps)
  handle_request-Keeps _ arg = search keeps_rules

pub serve-same :
    (mem : Memory) (tkn : ℕ) (net : Network) (p : Packet) (m : Master) (r : Option Bytes)
    (m' : Master)
    → serve mem tkn net p m ≡ ok (r, m')
    → m' ≡ m
unfolding serve
serve-same mem tkn net p m r m' h =
    let ((s, t), e, h1) =
      >>=-eq-ok (handle_request mem tkn net p.msg_type (p.arg ++ mem.behind) m.table) _ h in
    let (sent, _, h2) = >>=-eq-ok (answer mem s) _ h1 in
    let same : t ≡ m.table =
      (handle_request-Keeps mem tkn net m.table p.msg_type (p.arg ++ mem.behind)).at s t e in
    sym (ap (λ (x : Option Bytes × Master). x.1) (ok-injective h2))
    ∙ ap (λ u. record m { table = u }) same

new_worker-id :
    (mem : Memory) (arg : Bytes) (id : ℕ) (w : FileServer)
    → new_worker mem arg id ≡ ok w
    → w.id ≡ id
unfolding new_worker
new_worker-id mem arg id w h =
    let (port, _, h1) = >>=-eq-ok (parse_port arg) _ h in
    let (block, _, h2) = >>=-eq-ok (parse_ip mem arg) _ h1 in
    let (ip, _, h3) = >>=-eq-ok (text (block ++ mem.behind)) _ h2 in ground arith

-- The master as it was, or with what add_worker does for a worker that has the next id.
abbrev pub Outcome : Master → Master → Type 0
Outcome m m' =
    (m' ≡ m)
    ⊎ ((w : FileServer) × (t : Table) × (w.id ≡ m.worker_id)
        × (add_worker w m.table ≡ ok t)
        × (m' ≡ record { table = t; worker_id = (m.worker_id + 1) % 2 ^ 32 }))

module _ (mem : Memory) (tkn worker_tkn : ℕ) (net : Network) (m : Master) where
  unchanged :
      {q r : Option Bytes} {m' : Master}
      → ◌≡◌ {A = Result (Option Bytes × Master)} (ok (q, m)) (ok (r, m'))
      → Outcome m m'
  unchanged e = inl (sym (ap (λ (x : Option Bytes × Master). x.1) (ok-injective e)))

  -- What is left of register_worker once the token was looked at.
  registered :
      (p : Packet) (r : Option Bytes) (m' : Master)
      → ◌≡◌ {A = Result (Option Bytes × Master)}
          (do
            worker ← new_worker mem (p.arg ++ mem.behind) m.worker_id
            t ← add_worker worker m.table
            ok (none, record { table = t; worker_id = (m.worker_id + 1) % 2 ^ 32 }))
          (ok (r, m'))
      → Outcome m m'
  registered p r m' h =
      let (w, e, h1) = >>=-eq-ok (new_worker mem (p.arg ++ mem.behind) m.worker_id) _ h in
      let (t, e1, h2) = >>=-eq-ok (add_worker w m.table) _ h1 in
      inr (
        w,
        t,
        new_worker-id mem (p.arg ++ mem.behind) m.worker_id w e,
        e1,
        sym (ap (λ (x : Option Bytes × Master). x.1) (ok-injective h2)),
      )

  register_worker-Outcome :
      (p : Packet) (r : Option Bytes) (m' : Master)
      → register_worker mem tkn net worker_tkn p m ≡ ok (r, m')
      → Outcome m m'
  unfolding register_worker
  register_worker-Outcome p r m' h = elim (Bool-cases (p.token == worker_tkn)) [
    | inr other_token ↦ let e : ok (none, m) ≡ ok (r, m') = rw other_token at h in unchanged e
    | inl same_token ↦ registered p r m' (rw same_token at h)
  ]

  handle_packet-Outcome :
      (p : Packet) (r : Option Bytes) (m' : Master)
      → handle_packet mem tkn net worker_tkn p m ≡ ok (r, m')
      → Outcome m m'
  unfolding handle_packet service_available
  handle_packet-Outcome p r m' h = elim (Bool-cases (type_code p.msg_type == type_code register)) [
    | inl is_register ↦ register_worker-Outcome p r m' (rw is_register at h)
    | inr request ↦ elim (Bool-cases (worker_count m.table == 0)) [
      | inl empty ↦
          let e : ok (some (codes "Service unavailable." ++ 0 ∷ []), m) ≡ ok (r, m') =
            rw (request, empty) at h in
          unchanged e
      | inr workers ↦ inl (serve-same mem tkn net p m r m' (rw (request, workers) at h))
    ]
  ]

  -- A connection that the master handles leaves its state as it was, or adds a worker with the next id.
  pub handle_client-Outcome :
      (arrived : Option Bytes) (r : Option Bytes) (m' : Master)
      → handle_client mem tkn net worker_tkn arrived m ≡ ok (r, m')
      → Outcome m m'
  unfolding handle_client
  handle_client-Outcome arrived r m' h = elim (Bool-cases (length (received arrived) == 0)) [
    | inl nothing ↦ let e : ok (none, m) ≡ ok (r, m') = rw nothing at h in unchanged e
    | inr bytes ↦
        let h0 : (do
          buffer ← conn_read (mem.malloc read_sz) read_sz (received arrived)
          p ← p_decode (buffer ++ mem.behind)
          handle_packet mem tkn net worker_tkn p m)
            ≡ ok (r, m') =
          rw bytes at h in
        let (buffer, _, h1) =
          >>=-eq-ok (conn_read (mem.malloc read_sz) read_sz (received arrived)) _ h0 in
        let (p, _, h2) = >>=-eq-ok (p_decode (buffer ++ mem.behind)) _ h1 in
        handle_packet-Outcome p r m' h2
  ]

-- While the mutex is held, a connection that is handled to its end leaves the master as it was.
pub handle_client-held :
    (mem : Memory) (tkn worker_tkn : ℕ) (net : Network) (m : Master) (arrived r : Option Bytes)
    (m' : Master)
    → m.table.locked ≡ true
    → handle_client mem tkn net worker_tkn arrived m ≡ ok (r, m')
    → m' ≡ m
unfolding add_worker
handle_client-held mem tkn worker_tkn net m arrived r m' h e =
    elim (handle_client-Outcome mem tkn worker_tkn net m arrived r m' e) [
      | inl same ↦ same
      | inr (w, t, i, added, next) ↦
          absurd (let f : err deadlock ≡ ok t = sym ((held_deadlock m.table h).0 w) ∙ added in cc)
    ]
