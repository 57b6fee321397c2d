-- ===== src/Server/Threads.antt =====
-- The loop of `main` of src/server/server.c with THREADING: each connection is handled by a thread of its
-- own, which gets a pointer to the variable `client` of the loop and copies what stands there when it
-- begins. The variable is taken to have the same place in each turn.
use pekar_drive.Common.{
  ℕ, zero, suc, ◌+◌, ◌≡◌, ◌≢◌, refl, sym, ◌∙◌, true, false, Option, none, some, List, [], ◌∷◌, ◌++◌,
  if◌then◌else◌,
}
use pekar_drive.Result.{Result, ok, err, uninitialised, ◌>>=◌}
use pekar_drive.Comm.{Conn, Sockets, conn_listen, conn_close, err_conn, fd_of, port}

-- What stands in `client`, the descriptor that is listened on, how many threads have not yet begun, and
-- the connections that the others have copied, in order.
pub record Accepting : Type 0 where
  pub client : Option Conn
  pub server_fd : ℕ
  pub waiting : ℕ
  pub served : List Conn

-- A turn of the loop, or the begin of a thread.
pub data Event : Type 0 where
  accepts : Sockets → Event
  begins : Event

-- `conn client = *((conn *) arg)`, if there is a thread.
unfoldable pub begin_thread : ℕ → Option Conn → Accepting → Result Accepting
begin_thread zero client a = ok a
begin_thread (suc n) none a = err uninitialised
begin_thread (suc n) (some c) a = ok (record a { waiting = n; served = a.served ++ c ∷ [] })

unfoldable pub event : Event → Accepting → Result Accepting
unfolding begin_thread
event (accepts sys) a = do
  client ← conn_listen sys a.server_fd port
  (if client.error
      then (do
        (closed, c) ← conn_close client
        ok (record a { client = some c; server_fd = fd_of sys.socket }))
      else ok (record a { client = some client; waiting = a.waiting + 1 }))
event begins a = begin_thread a.waiting a.client a

unfoldable pub events : List Event → Accepting → Result Accepting
events [] a = ok a
events (e ∷ es) a = do a' ← event e a; events es a'

-- Before the first connection.
abbrev pub idle : ℕ → Accepting
idle fd = record { client = none; server_fd = fd; waiting = 0; served = [] }

-- The system gives a connection without an error to one who listens on the descriptor.
pub record Gives (fd : ℕ) (sys : Sockets) (c : Conn) : Type 0 where
  pub accepted : conn_listen sys fd port ≡ ok c
  pub usable : c.error ≡ false

accepts-Gives :
    (a : Accepting) (sys : Sockets) (c : Conn)
    → Gives a.server_fd sys c
    → event (accepts sys) a ≡ ok (record a { client = some c; waiting = a.waiting + 1 })
unfolding event
accepts-Gives a sys c g = simp (g.accepted, g.usable)

-- The connection that conn_close leaves in the variable.
closed_conn : (e : Conn) → (c : Conn) × (conn_close e ≡ ok (e.fd, c)) × (c.error ≡ true)
unfolding conn_close err_conn
closed_conn e = (_, refl, refl)

-- With THREADING, if a turn accepts a connection and the next one is refused before the thread
-- begins, then the thread serves what conn_close leaves of the connection of the refused turn,
-- which has an error, and not the connection that was accepted.
pub served_refused :
    (fd : ℕ) (sys sys' : Sockets) (c e : Conn)
    → Gives fd sys c
    → conn_listen sys' fd port ≡ ok e
    → e.error ≡ true
    → (a : Accepting) × (c' : Conn) × (events (accepts sys ∷ accepts sys' ∷ begins ∷ []) (idle fd)
        ≡ ok a)
      × (conn_close e ≡ ok (e.fd, c'))
      × (a.served ≡ c' ∷ [])
      × (c'.error ≡ true)
      × (c'.error ≢ c.error)
unfolding events event
served_refused fd sys sys' c e g listened failed =
    let (c', closes, dead) = closed_conn e in
    (
      record { client = some c'; server_fd = fd_of sys'.socket; waiting = 0; served = c' ∷ [] },
      c',
      simp (accepts-Gives (idle fd) sys c g, listened, failed, closes),
      closes,
      refl,
      dead,
      λ same. let e : true ≡ false = sym dead ∙ same ∙ g.usable in cc,
    )
