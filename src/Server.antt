-- ===== src/Server.antt =====
-- The worker: src/server/server.c. Its `main` hands each connection to handle_client, which is modelled
-- from what its `read` gives to what it sends. The log lines are left out.
pub mod Network
pub mod Replies
pub mod Pings
pub mod Removal
pub mod Loop
pub mod Foreign
pub mod Threads
pub mod Examples
use pekar_drive.Common.{
  ℕ, zero, suc, ◌+◌, ◌-◌, ◌%◌, ◌^◌, Bool, true, false, Option, none, some, List, [], ◌∷◌, ◌++◌,
  length, ◌==◌, not, if◌then◌else◌,
}
use pekar_drive.Result.{Result, ok, err, out_of_bounds, uninitialised, ◌>>=◌}
use pekar_drive.Memory.{Bytes, Memory, store, realloc}
use pekar_drive.Memory.Strings.{codes, text, strlen}
use pekar_drive.Comm.{conn_write, conn_read}
use pekar_drive.Packet.{
  MsgType, ping, ls, write, read, append, register, delete, other, type_code, Packet, p_init,
  p_error, attach_token, p_encode, p_decode, sizeof_packet,
}
use pekar_drive.Fs.{Disk, System}
use pekar_drive.FileExec.{
  FileOutput, FileOp, file_read, file_write, file_append, file_delete, f_exec, file_list,
}

abbrev pub read_size : ℕ
read_size = 10000

-- `strcat`
abbrev pub strcat : Bytes → Bytes → Result Bytes
strcat block s = do n ← strlen block; store block n (s ++ 0 ∷ [])

-- The loop of file_list_to_str, for the file names that are left.
unfoldable pub join_names : Memory → Bytes → List Bytes → Result Bytes
join_names mem files [] = ok files
join_names mem files (name ∷ names) = do
  n ← strlen (files ++ mem.behind)
  s ← text (name ++ mem.behind)
  joined ← strcat (realloc mem files (n + 1 + length s)) s
  done ← elim names [ [] ↦ ok joined | next ∷ more ↦ strcat joined (b'\n' ∷ []) ]
  join_names mem done names

unfoldable pub file_list_to_str : Memory → List Bytes → Result Bytes
file_list_to_str mem [] = ok (0 ∷ [])
file_list_to_str mem (name ∷ names) = join_names mem (mem.malloc 1) (name ∷ names)

-- The bytes of the reply to a PING: p_init, without a token, and 13 bytes of the encoding.
unfoldable pub reply_ping : Memory → Packet → Result Bytes
reply_ping mem p = do
  q ← p_init ((p.seq_number + 1) % 2 ^ 32) (codes "1" ++ 0 ∷ []) ping
  encoded ← p_encode mem q
  conn_write mem encoded 13

-- `names` is what the directory of the worker holds, if it can be opened.
unfoldable pub reply_ls : Memory → Option (List Bytes) → Packet → Result Bytes
reply_ls mem names p = do
  files ← file_list mem names
  ls_output ← file_list_to_str mem files
  q ← p_init ((p.seq_number + 1) % 2 ^ 32) (ls_output ++ mem.behind) ls
  encoded ← p_encode mem q
  n ← strlen (ls_output ++ mem.behind)
  conn_write mem encoded (n + sizeof_packet)

module _ (mem : Memory) (worker_tkn : ℕ) where
  unfoldable pub create_packet : ℕ → MsgType → Bytes → Result Packet
  create_packet seq_number msg_type arg = do
    p ← p_init seq_number arg msg_type
    ok (attach_token worker_tkn p)

  abbrev error_text : MsgType → Bytes
  error_text write = codes "Write error" ++ 0 ∷ []
  error_text read = codes "Read error" ++ 0 ∷ []
  error_text append = codes "Append error" ++ 0 ∷ []
  error_text _ = codes "Error" ++ 0 ∷ []

  -- What is handed to `send`.
  unfoldable pub answer_client : ℕ → MsgType → FileOutput → Result Bytes
  answer_client seq_number msg_type output = do
    p ←
        (if output.error
          then p_error seq_number (error_text msg_type) msg_type worker_tkn
          else create_packet seq_number msg_type (output.out ++ mem.behind))
    encoded ← p_encode mem p
    conn_write mem encoded (sizeof_packet + output.len + 1)

  module _ (sys : System) (work_dir : Option Bytes) where
    -- The branch of handle_client for the file operations.
    unfoldable pub exec_file : FileOp → Packet → Disk → Result (Option Bytes × Disk)
    exec_file op p disk = do
      (output, disk) ← f_exec mem sys work_dir op (p.arg ++ mem.behind) disk
      sent ← answer_client ((p.seq_number + 1) % 2 ^ 32) p.msg_type output
      ok (some sent, disk)

    -- The switch over the message types. Its default sends an error, whose type is -1 and whose length is
    -- 0, and goes on with an operation that was never set.
    unfoldable pub exec_type : MsgType → Packet → Disk → Result (Option Bytes × Disk)
    exec_type read p disk = exec_file file_read p disk
    exec_type write p disk = exec_file file_write p disk
    exec_type append p disk = exec_file file_append p disk
    exec_type delete p disk = exec_file file_delete p disk
    exec_type _ p disk = do
      sent ←
          answer_client ((p.seq_number + 1) % 2 ^ 32) (other (2 ^ 32 - 1))
            (record { error = true; out = []; len = 0 })
      err uninitialised

    -- What handle_client does with a packet that carries the master's token.
    unfoldable pub handle_packet :
        Option (List Bytes) → Packet → Disk → Result (Option Bytes × Disk)
    unfolding type_code
    handle_packet names p disk =
        if type_code p.msg_type == type_code ping
        then (do sent ← reply_ping mem p; ok (some sent, disk))
        else if type_code p.msg_type == type_code ls
        then (do sent ← reply_ls mem names p; ok (some sent, disk))
        else exec_type p.msg_type p disk

    -- handle_client, for what `read` gave: the bytes that are sent, if there are any.
    unfoldable pub handle_client :
        ℕ → Option (List Bytes) → Bytes → Disk → Result (Option Bytes × Disk)
    handle_client master_tkn names arrived disk =
        if length arrived == 0 then ok (none, disk) else do
          buffer ← conn_read (mem.malloc read_size) read_size arrived
          p ← p_decode (buffer ++ mem.behind)
          (if not (p.token == master_tkn) then ok (none, disk) else handle_packet names p disk)
