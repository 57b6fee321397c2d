-- ===== src/Interface/Listing.antt =====
-- The READ requests from the client through the master: file_read of lib/interface.c, and handle_client
-- of src/master.c.
use pekar_drive.Common.{ℕ, ◌+◌, ◌≤◌, ◌≡◌, false, some, List, ◌∷◌, ◌++◌, length, arith}
use pekar_drive.Result.{ok, >>=-eq-ok}
use pekar_drive.Memory.{Bytes, Memory}
use pekar_drive.Memory.Strings.{IsText, strlen-append}
use pekar_drive.Comm.{Conn, Sockets, client_init}
use pekar_drive.Packet.{read, p_encode}
use pekar_drive.Packet.Args.{packet_of, p_init_lem, packet_of-IsValid}
use pekar_drive.ServerTable.{FileServer, table}
use pekar_drive.WorkerAdmin.{Network}
use pekar_drive.Master.{handle_client}
use pekar_drive.Master.Requests.{handle_client-read}
use pekar_drive.Server.Replies.{encoded-sent}
use pekar_drive.Interface.{ask, read_all, read_blocks, file_read}
use pekar_drive.Interface.Write.{answers}

module _ (mem : Memory) (tkn worker_tkn : ℕ) (net : Network) (more : Bytes) (id : ℕ)
    (x : FileServer) (xs : List FileServer) (nul : mem.behind ≡ 0 ∷ more)
    (room : 20 ≤ length mem.behind) (sys : Sockets) (host : Bytes) (port : ℕ) (c : Conn)
    (connected : client_init sys host port ≡ ok c) (usable : c.error ≡ false) where
  -- If a client can connect to the master and there is a worker, then file_read of a name of at
  -- most 9959 bytes, whatever files there are, returns a block of 1000 bytes as malloc left it. A
  -- NUL stands behind each block, which has 20 readable bytes behind it.
  pub file_read-garbage :
      (f m : Bytes)
      → IsText f
      → length f ≤ 9959
      → file_read mem sys
          (λ bytes. answers (
            handle_client mem tkn net worker_tkn
              (some bytes)
              (record { table = table (x ∷ xs); worker_id = id })))
          (f ++ 0 ∷ m)
          host
          port
        ≡ ok (some (mem.malloc 1000))
  unfolding file_read ask read_all read_blocks
  file_read-garbage f m is_name short =
      let v =
        packet_of-IsValid 0 f read 0 0 (omega arith) (omega arith) (omega arith) (omega arith) tt in
      let (junk, encoded, size) =
        encoded-sent mem (packet_of 0 f read 0 0) (40 + length f) v (omega arith) (omega arith) in
      let (e, encodes, sends) = >>=-eq-ok (p_encode mem (packet_of 0 f read 0 0)) _ encoded in
      let served =
        handle_client-read mem tkn worker_tkn net 0 0 0 junk more id x xs (omega arith)
          (omega arith) (omega arith) nul f (omega arith) (omega (arith, size)) in
      rw (
        p_init_lem 0 f m read is_name (omega arith),
        connected,
        usable,
        strlen-append f m is_name,
        encodes,
        sends,
        served,
      )
