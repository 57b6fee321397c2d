-- ===== src/Server/Removal.antt =====
-- The DELETE requests that reach a worker: handle_client of src/server/server.c down to fs_delete_file of
-- src/fs/fs.c.
use pekar_drive.Common.{
  ℕ, ◌+◌, ◌%◌, ◌^◌, ◌<◌, ◌≤◌, ◌≡◌, sym, subst, ◌∙◌, true, false, Option, some, List, [], ◌∷◌, ◌++◌,
  length, take-append_length, ◌==◌, arith,
}
use pekar_drive.Result.{ok}
use pekar_drive.Memory.{Bytes, Memory}
use pekar_drive.Memory.Strings.{IsText, codes, text, text-append}
use pekar_drive.Packet.{delete, type_code, IsValid}
use pekar_drive.Packet.Wire.{wire}
use pekar_drive.Packet.Args.{packet_of}
use pekar_drive.Fs.{Disk, System, without, set_path, fs_delete_file}
use pekar_drive.Fs.Writes.{IsOpen, fs_delete_file-without}
use pekar_drive.FileExec.{delete_file, f_exec}
use pekar_drive.Server.{
  read_size, answer_client, exec_file, exec_type, handle_packet, handle_client,
}
use pekar_drive.Server.Replies.{handle_client-token, answer_client-sent}

module _ (mem : Memory) (worker_tkn master_tkn : ℕ) (sys : System) (w : Option Bytes)
    (room : 18 ≤ length mem.behind) (word : worker_tkn < 2 ^ 64) (more : Bytes)
    (nul : mem.behind ≡ 0 ∷ more) (f path : Bytes) (seq error : ℕ) (names : Option (List Bytes))
    (junk : Bytes) (is_name : IsText f) (located : set_path w (some f) ≡ some path)
    (permitted : IsOpen sys) (valid : IsValid (packet_of seq f delete error master_tkn))
    (fits : length (wire (packet_of seq f delete error master_tkn) ++ junk) ≤ read_size) where
  -- The answer to a DELETE is an empty argument.
  deleted :
      (answer : Bytes) (disk : Disk)
      → answer_client mem worker_tkn
          ((seq + 1) % 2 ^ 32)
          delete
          (record { error = false; out = 0 ∷ []; len = 0 })
        ≡ ok answer
      → handle_client mem worker_tkn sys w master_tkn names
          (wire (packet_of seq f delete error master_tkn) ++ junk)
          disk
        ≡ ok (some answer, fs_delete_file sys w (some f) disk)
  unfolding handle_packet exec_type exec_file f_exec delete_file type_code
  deleted answer disk sent =
      let named : text (f ++ mem.behind) ≡ ok f =
        subst (λ b. text (f ++ b) ≡ ok f) (sym nul) (text-append f more is_name) in
      let same_token : (master_tkn == master_tkn) ≡ true = ground arith in
      handle_client-token mem worker_tkn master_tkn sys w names
        (packet_of seq f delete error master_tkn) junk disk valid fits
      ∙ rw (same_token, take-append_length f (0 ∷ []), named, sent)

  -- A DELETE with the token of the master, of at most 10000 bytes, that arrives at a worker whose
  -- files may be read and written is answered, and the file of the name is gone then, while all
  -- others are as they were, if the shell command "rm path" removes just this file. A NUL must
  -- stand behind each block, which has 18 readable bytes behind it.
  pub handle_client-without :
      (disk : Disk)
      → sys.system (codes "rm " ++ path) disk ≡ without path disk
      → (answer : Bytes) × (disk' : Disk) × (handle_client mem worker_tkn sys w master_tkn names
            (wire (packet_of seq f delete error master_tkn) ++ junk)
            disk
          ≡ ok (some answer, disk'))
        × ((q : Bytes) → disk' q ≡ without path disk q)
  handle_client-without disk shell =
      let (junk', sent, size) =
        answer_client-sent mem worker_tkn master_tkn sys w room word ((seq + 1) % 2 ^ 32) delete []
          tt (omega arith) (omega arith) tt in
      let answer = wire (packet_of ((seq + 1) % 2 ^ 32) [] delete 0 worker_tkn) ++ junk' in
      (
        answer,
        fs_delete_file sys w (some f) disk,
        deleted answer disk sent,
        fs_delete_file-without sys w f path located permitted disk shell,
      )
