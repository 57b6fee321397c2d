-- ===== src/Comm/Examples.antt =====
-- Runs of lib/comm.c.
use pekar_drive.Common.{◌≡◌, true, false, none, some}
use pekar_drive.Result.{ok}
use pekar_drive.Memory.Strings.{codes}
use pekar_drive.Comm.{Conn, Sockets, client_init}
use pekar_drive.Comm.Laws.{Outcome, connects, client_init_total}

-- A system on which no connection is accepted.
abbrev refusing : Sockets
refusing = record {
  socket = some 3;
  set_receive_timeout = λ fd. true;
  set_send_timeout = λ fd. true;
  inet_pton = λ host. true;
  connect = λ fd host port. false;
  set_reuse = λ fd. true;
  bind = λ fd port. true;
  listen = λ fd. true;
  accept = λ fd. none;
}

client_init_total_example :
    (c : Conn) × (client_init refusing (codes "127.0.0.1") 55443 ≡ ok c)
    × Outcome (connects refusing (codes "127.0.0.1") 55443) c
client_init_total_example = client_init_total refusing (codes "127.0.0.1") 55443
