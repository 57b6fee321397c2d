-- ===== src/Server/Loop.antt =====
-- The loop of `main` of src/server/server.c, without THREADING, over the connections of lib/comm.c.
use pekar_drive.Common.{ℕ, Option, none, List, [], ◌∷◌, if◌then◌else◌}
use pekar_drive.Result.{Result, ok, ◌>>=◌}
use pekar_drive.Memory.{Bytes, Memory}
use pekar_drive.Comm.{Sockets, conn_listen, conn_close, fd_of, port}
use pekar_drive.Fs.{Disk, System}
use pekar_drive.Server.{handle_client}

module _ (mem : Memory) (worker_tkn master_tkn : ℕ) (files : System) (work_dir : Option Bytes) where
  -- One turn of the loop: what is sent, the descriptor that is listened on next, and the files. `names` is
  -- what the directory holds, and `arrived` what `read` gives on the connection.
  unfoldable pub worker_turn :
      Sockets → Option (List Bytes) → Bytes → ℕ → Disk → Result (Option Bytes × ℕ × Disk)
  worker_turn sys names arrived server_fd disk = do
    client ← conn_listen sys server_fd port
    (if client.error then (do closed ← conn_close client; ok (none, fd_of sys.socket, disk)) else do
      (sent, disk') ← handle_client mem worker_tkn files work_dir master_tkn names arrived disk
      closed ← conn_close client
      ok (sent, server_fd, disk'))

  -- Turns with what arrives in each, with the system and the names at that time: the files behind them.
  unfoldable pub worker_turns :
      List (Sockets × Option (List Bytes) × Bytes) → ℕ → Disk → Result Disk
  worker_turns [] server_fd disk = ok disk
  worker_turns ((sys, names, arrived) ∷ turns) server_fd disk = do
    (sent, fd, disk') ← worker_turn sys names arrived server_fd disk
    worker_turns turns fd disk'
