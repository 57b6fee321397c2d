-- ===== src/Comm/Laws.antt =====
-- When lib/comm.c returns a usable connection, and what it hands to `send`.
use pekar_drive.Common.{
  ℕ, ◌≤◌, ◌≡◌, refl, true, false, Option, none, some, ◌&&◌, if◌then◌else◌, [], ◌++◌, length, inl,
  inr, take_all, drop, Bool-cases, Option-cases, arith,
}
use pekar_drive.Result.{ok}
use pekar_drive.Memory.{Bytes, store-append}
use pekar_drive.Memory.Strings.{codes}
use pekar_drive.Comm.{Conn, Sockets, client_init, client_connect, conn_read}

abbrev failed : Bytes → Conn
failed msg = record { error = true; error_msg = some msg; fd = 0; max_bytes = 0 }

-- The descriptor of the socket, if all system calls of client_init succeed.
abbrev pub connects : Sockets → Bytes → ℕ → Option ℕ
connects sys host port = elim sys.socket [
  | none ↦ none
  | some fd ↦
      if sys.set_receive_timeout fd
        && (sys.set_send_timeout fd && (sys.inet_pton host && sys.connect fd host port))
      then some fd
      else none
]

-- A connection without error on the descriptor; or one with an error, a message and the descriptor 0.
abbrev pub Outcome : Option ℕ → Conn → Type 0
Outcome (some fd) c = (c.error ≡ false) × (c.fd ≡ fd)
Outcome none c = (c.error ≡ true) × (c.fd ≡ 0) × ((msg : Bytes) × (c.error_msg ≡ some msg))

-- client_init returns a connection for each outcome of the system calls: one without error on the
-- descriptor of the socket if all calls succeeded, and otherwise one with an error, a message and
-- the descriptor 0.
pub client_init_total :
    (sys : Sockets) (host : Bytes) (port : ℕ)
    → (c : Conn) × (client_init sys host port ≡ ok c) × Outcome (connects sys host port) c
unfolding client_init client_connect
client_init_total sys host port = elim (Option-cases sys.socket) [
  | inl e ↦ rw e (failed (codes "Failed initialising socket."), refl, (refl, refl, (_, refl)))
  | inr (fd, e) ↦ elim (Bool-cases (sys.set_receive_timeout fd)) [
    | inr f ↦
        rw (e, f) (failed (codes "Failed setting socket option."), refl, (refl, refl, (_, refl)))
    | inl rcv ↦ elim (Bool-cases (sys.set_send_timeout fd)) [
      | inr f ↦
          rw (e, rcv, f)
            (failed (codes "Failed setting socket option."), refl, (refl, refl, (_, refl)))
      | inl snd ↦ elim (Bool-cases (sys.inet_pton host)) [
        | inr f ↦
            rw (e, rcv, snd, f)
              (
                failed (codes "Invalid address or address not supported."),
                refl,
                (refl, refl, (_, refl)),
              )
        | inl addr ↦ elim (Bool-cases (sys.connect fd host port)) [
          | inr f ↦
              rw (e, rcv, snd, addr, f)
                (failed (codes "Connection failed."), refl, (refl, refl, (_, refl)))
          | inl up ↦
              rw (e, rcv, snd, addr, up)
                (
                  record { error = false; error_msg = some []; fd = fd; max_bytes = 0 },
                  refl,
                  (refl, refl),
                )
        ]
      ]
    ]
  ]
]

-- A buffer of `malloc` with the bytes that arrived at its start.
pub conn_read_lem :
    (buffer bytes : Bytes) (len : ℕ)
    → length bytes ≤ len
    → len ≤ length buffer
    → conn_read buffer len bytes ≡ ok (bytes ++ drop (length bytes) buffer)
unfolding conn_read
conn_read_lem buffer bytes len h k =
    rw (take_all len bytes h) (store-append [] buffer bytes 0 refl (omega arith))
