-- ===== src/WorkerAdmin/Ping.antt =====
-- A round of pings: ping_server and handle_ping_response of src/worker_admin.c under for_each_server.
use pekar_drive.Common.{
  ℕ, zero, suc, ◌+◌, ◌^◌, ◌<◌, ◌≤◌, ◌≡◌, refl, sym, ◌∙◌, Bool, Bool-cases, inl, inr, if◌then◌else◌,
  Option, some, List, [], ◌∷◌, ◌++◌, append_assoc, length, take, drop, All, length-append,
  length-drop, field-append, ◌==◌, true, false, arith,
}
use pekar_drive.Result.{ok, err, deadlock, >>=-eq-ok, ok-injective, ◌>>=◌}
use pekar_drive.Memory.{Bytes, Memory}
use pekar_drive.Memory.Words.{le_value}
use pekar_drive.Comm.{conn_read}
use pekar_drive.Comm.Laws.{conn_read_lem}
use pekar_drive.Packet.{ping, p_decode, type_code, type_of_code, header_size}
use pekar_drive.Packet.Reads.{decode_total}
use pekar_drive.ServerTable.{FileServer, Table, table, entry, remove_server, for_each_server}
use pekar_drive.ServerTable.Search.{entry-middle}
use pekar_drive.ServerTable.Locks.{held, held_deadlock, for_each_server-same, for_each_server-fails}
use pekar_drive.WorkerAdmin.{Network, received, request, handle_ping_response, ping_server}

-- An answer that the master accepts as a ping: it fits into the buffer, its first twelve bytes hold
-- the type PING, and the argument that it announces ends inside what can be read.
pub record IsPong (mem : Memory) (r : Bytes) : Type 0 where
  pub fits : length r ≤ 50
  pub fields : 12 ≤ length r
  pub type : le_value (take 4 (drop 8 r)) ≡ 0
  pub arg : header_size + le_value (take 4 (drop 4 r)) ≤ 50 + length mem.behind

module _ (mem : Memory) (s : FileServer) (t : Table) where
  pub handle_ping_response-pong :
      (r : Bytes) → IsPong mem r → handle_ping_response mem (some r) s t ≡ ok t
  unfolding handle_ping_response type_of_code
  handle_ping_response-pong r h =
      let tail = drop (length r) (mem.malloc 50) in
      let size : length ((r ++ tail) ++ mem.behind) ≡ 50 + length mem.behind = omega (
        arith,
        length-append (r ++ tail) mem.behind,
        length-append r tail,
        length-drop (length r) (mem.malloc 50),
        mem.length-malloc 50,
        h.fits,
      ) in
      let flat : (r ++ tail) ++ mem.behind ≡ r ++ (tail ++ mem.behind) =
        append_assoc r tail mem.behind in
      let len : take 4 (drop 4 ((r ++ tail) ++ mem.behind)) ≡ take 4 (drop 4 r) =
        rw flat (field-append 4 4 r (tail ++ mem.behind) (omega (arith, h.fields))) in
      let ty : take 4 (drop 8 ((r ++ tail) ++ mem.behind)) ≡ take 4 (drop 8 r) =
        rw flat (field-append 8 4 r (tail ++ mem.behind) (omega (arith, h.fields))) in
      let some_bytes : (length r == 0) ≡ false = ground (arith, h.fields) in
      rw (
        some_bytes,
        conn_read_lem (mem.malloc 50) r 50 h.fits (omega (arith, mem.length-malloc 50)),
        decode_total ((r ++ tail) ++ mem.behind) (rw (len, size) h.arg),
        ty,
        h.type,
      )

  -- A worker that gives no answer is removed first of all.
  pub handle_ping_response-silent :
      (answer : Option Bytes)
      → received answer ≡ []
      → t.locked ≡ true
      → handle_ping_response mem answer s t ≡ err deadlock
  unfolding handle_ping_response
  handle_ping_response-silent answer e h = rw (e, (held_deadlock t h).1 s.id)

pub entry-append :
    (xs ys : List FileServer) (i : ℕ) (s : FileServer)
    → entry xs i ≡ ok s
    → entry (xs ++ ys) i ≡ ok s
unfolding entry
entry-append [] ys i s h = cc
entry-append (x ∷ xs) ys zero s h = h
entry-append (x ∷ xs) ys (suc i) s h = entry-append xs ys i s h

pub entry-All :
    (P : FileServer → Type 0) (xs : List FileServer) (i : ℕ)
    → All P xs
    → i < length xs
    → (s : FileServer) × (entry xs i ≡ ok s) × P s
unfolding entry
entry-All P [] i h k = absurd (omega arith)
entry-All P (x ∷ xs) zero h k = (x, refl, h.0)
entry-All P (x ∷ xs) (suc i) h k = entry-All P xs i h.1 (omega arith)

module _ (mem : Memory) (net : Network) (message : Bytes) where
  -- The worker answers the message with a ping.
  abbrev pub IsAlive : FileServer → Type 0
  IsAlive s = (r : Bytes) × ((net s.ip s.port message).answer ≡ some r) × IsPong mem r

  -- The worker gives no answer to the message.
  abbrev pub IsSilent : FileServer → Type 0
  IsSilent s = received (net s.ip s.port message).answer ≡ []

module _ (mem : Memory) (tkn : ℕ) (net : Network) (message : Bytes)
    (sent : request mem tkn (0 ∷ []) ping 50 ≡ ok message) where
  pub ping_server-alive :
      (s : FileServer) (t : Table) (i : ℕ)
      → entry t.servers i ≡ ok s
      → IsAlive mem net message s
      → ping_server mem tkn net i t ≡ ok t
  unfolding ping_server
  ping_server-alive s t i e h =
      let (r, a, p) = h in rw (e, sent, a) (handle_ping_response-pong mem s t r p)

  pub ping_server-silent :
      (s : FileServer) (t : Table) (i : ℕ)
      → entry t.servers i ≡ ok s
      → IsSilent mem net message s
      → t.locked ≡ true
      → ping_server mem tkn net i t ≡ err deadlock
  unfolding ping_server
  ping_server-silent s t i e h k = rw (e, sent) (handle_ping_response-silent mem s t _ h k)

  -- A round of pings in which every worker answers with a ping leaves the table as it was, with the
  -- mutex free.
  pub for_each_server-alive :
      (xs : List FileServer)
      → length xs < 2 ^ 16
      → All (IsAlive mem net message) xs
      → for_each_server (ping_server mem tkn net) (table xs) ≡ ok (table xs)
  for_each_server-alive xs h alive = for_each_server-same (ping_server mem tkn net) xs h λ i k.
      let (s, e, a) = entry-All (IsAlive mem net message) xs i alive k in
      ping_server-alive s (held xs) i e a

  -- A round of pings ends in a deadlock if a worker gives no answer and all workers in front of it
  -- answer with a ping. The table holds fewer than 65536 servers.
  pub for_each_server-silent :
      (pre : List FileServer) (s : FileServer) (post : List FileServer)
      → length (pre ++ s ∷ post) < 2 ^ 16
      → All (IsAlive mem net message) pre
      → IsSilent mem net message s
      → for_each_server (ping_server mem tkn net) (table (pre ++ s ∷ post)) ≡ err deadlock
  for_each_server-silent pre s post h alive silent =
      for_each_server-fails (ping_server mem tkn net) pre s post deadlock h
        (λ i k.
          let (x, e, a) = entry-All (IsAlive mem net message) pre i alive k in
          ping_server-alive x (held (pre ++ s ∷ post)) i (entry-append pre (s ∷ post) i x e) a)
        (ping_server-silent s (held (pre ++ s ∷ post)) (length pre)
          (entry-middle pre s post (length pre) refl) silent refl)

kept_or_removed :
    (b : Bool) (s : FileServer) (t t' : Table)
    → remove_server s.id t ≡ err deadlock
    → (if b then ok t else remove_server s.id t) ≡ ok t'
    → t' ≡ t
kept_or_removed true s t t' removal e = sym (ok-injective e)
kept_or_removed false s t t' removal e =
    absurd (let f : err deadlock ≡ ok t' = sym removal ∙ e in cc)

-- While the mutex is held, an answer that is handled leaves the table alone: a removal does not return.
handle_ping_response-held :
    (mem : Memory) (answer : Option Bytes) (s : FileServer) (t t' : Table)
    → t.locked ≡ true
    → handle_ping_response mem answer s t ≡ ok t'
    → t' ≡ t
unfolding handle_ping_response
handle_ping_response-held mem answer s t t' h e =
    let removal : remove_server s.id t ≡ err deadlock = (held_deadlock t h).1 s.id in
    elim (Bool-cases (length (received answer) == 0)) [
      | inl nothing ↦ absurd (let f : err deadlock ≡ ok t' = rw (nothing, removal) at e in cc)
      | inr bytes ↦
          let f : (do
            buffer ← conn_read (mem.malloc 50) 50 (received answer)
            p ← p_decode (buffer ++ mem.behind)
            (if type_code p.msg_type == type_code ping then ok t else remove_server s.id t))
              ≡ ok t' =
            rw bytes at e in
          let (buffer, e1, f1) = >>=-eq-ok (conn_read (mem.malloc 50) 50 (received answer)) _ f in
          let (p, e2, f2) = >>=-eq-ok (p_decode (buffer ++ mem.behind)) _ f1 in
          kept_or_removed (type_code p.msg_type == type_code ping) s t t' removal f2
    ]

pub ping_server-held :
    (mem : Memory) (tkn : ℕ) (net : Network) (i : ℕ) (xs : List FileServer) (t' : Table)
    → ping_server mem tkn net i (held xs) ≡ ok t'
    → t' ≡ held xs
unfolding ping_server
ping_server-held mem tkn net i xs t' h =
    let (s, e, h1) = >>=-eq-ok (entry xs i) _ h in
    let (message, e1, h2) = >>=-eq-ok (request mem tkn (0 ∷ []) ping 50) _ h1 in
    handle_ping_response-held mem _ s (held xs) t' refl h2
