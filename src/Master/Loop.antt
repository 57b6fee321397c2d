-- ===== src/Master/Loop.antt =====
-- The loop of `main` and server_restart of src/master.c, over the connections of lib/comm.c.
use pekar_drive.Common.{ℕ, Option, none, if◌then◌else◌}
use pekar_drive.Result.{Result, ok, ◌>>=◌}
use pekar_drive.Memory.{Bytes, Memory}
use pekar_drive.Comm.{Conn, Sockets, conn_listen, conn_close, fd_of, port}
use pekar_drive.WorkerAdmin.{Network}
use pekar_drive.Master.{Master, handle_client}

-- The descriptor of the closed client, the connection then, and the new descriptor of the server.
unfoldable pub server_restart : Sockets → Conn → Result (ℕ × Conn × ℕ)
server_restart sys client = do (closed, c) ← conn_close client; ok (closed, c, fd_of sys.socket)

-- How a turn of the loop ends: what was sent, the descriptor that is listened on next, and the globals.
unfoldable pub restarted :
    Sockets → Conn → Option Bytes → Master → Result (Option Bytes × ℕ × Master)
restarted sys client sent m = do (closed, c, fd) ← server_restart sys client; ok (sent, fd, m)

-- One turn of the loop. `arrived` is what `read` gives on the connection.
unfoldable pub main_turn :
    Memory
    → ℕ
    → ℕ
    → Sockets
    → Network
    → Option Bytes
    → ℕ
    → Master
    → Result (Option Bytes × ℕ × Master)
main_turn mem master_tkn worker_tkn sys net arrived master_fd m = do
  client ← conn_listen sys master_fd port
  (if client.error then restarted sys client none m else do
    (sent, m') ← handle_client mem master_tkn net worker_tkn arrived m
    restarted sys client sent m')
