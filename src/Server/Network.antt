-- ===== src/Server/Network.antt =====
-- Workers, src/server/server.c, as what the master sees at the other end of its connections.
use pekar_drive.Common.{ℕ, true, Option, none, List}
use pekar_drive.Result.{Result, ok, err}
use pekar_drive.Memory.{Bytes, Memory}
use pekar_drive.Fs.{Disk, System}
use pekar_drive.WorkerAdmin.{Network}
use pekar_drive.Server.{handle_client}

-- What a worker sends, if it sends anything.
abbrev pub replies : Result (Option Bytes × Disk) → Option Bytes
replies (ok (sent, disk)) = sent
replies (err fault) = none

-- The network in which each connection leads to one worker, in the state `disk`.
abbrev pub worker_network :
    Memory → ℕ → System → Option Bytes → ℕ → Option (List Bytes) → Disk → Network
worker_network mem worker_tkn sys work_dir master_tkn names disk ip port message = record {
  sent = true;
  answer = replies (handle_client mem worker_tkn sys work_dir master_tkn names message disk);
}
