-- ===== src/Server/Pings.antt =====
-- Rounds of pings over running workers: manager_thread and ping_server of src/worker_admin.c, and
-- handle_client of src/server/server.c.
use pekar_drive.Common.{
  ℕ, ◌^◌, ◌<◌, ◌≤◌, ◌≡◌, ap, ◌∙◌, true, Option, some, List, [], ◌∷◌, ◌++◌, length, All, ◌==◌, arith,
}
use pekar_drive.Result.{ok}
use pekar_drive.Memory.{Bytes, Memory}
use pekar_drive.Packet.{ping, type_code}
use pekar_drive.Packet.Wire.{wire}
use pekar_drive.Packet.Args.{packet_of, packet_of-IsValid}
use pekar_drive.ServerTable.{FileServer, table, for_each_server}
use pekar_drive.WorkerAdmin.{ping_server}
use pekar_drive.WorkerAdmin.Ping.{IsPong, for_each_server-alive}
use pekar_drive.Fs.{Disk, System}
use pekar_drive.Server.{handle_client, handle_packet}
use pekar_drive.Server.Network.{worker_network, replies}
use pekar_drive.Server.Replies.{request-wire, handle_client-token, reply_ping-IsPong}

module _ (mem worker_mem : Memory) (tkn worker_tkn : ℕ) (token : tkn < 2 ^ 64)
    (room : 27 ≤ length mem.behind) (files : System) (work_dir : Option Bytes)
    (names : Option (List Bytes)) (disk : Disk) where
  -- A worker answers a PING with the token of the master.
  answered :
      (junk : Bytes)
      → length (wire (packet_of 0 [] ping 0 tkn) ++ junk) ≡ 50
      → (r : Bytes) × (handle_client worker_mem worker_tkn files work_dir tkn names
            (wire (packet_of 0 [] ping 0 tkn) ++ junk)
            disk
          ≡ ok (some r, disk))
        × IsPong mem r
  unfolding handle_packet type_code
  answered junk size =
      let p = packet_of 0 [] ping 0 tkn in
      let v =
        packet_of-IsValid 0 [] ping 0 tkn (omega arith) (omega arith) (omega arith) token tt in
      let (r, sent, pong) = reply_ping-IsPong worker_mem mem (record p { arg = [] }) in
      let same_token : (tkn == tkn) ≡ true = ground arith in
      (
        r,
        handle_client-token worker_mem worker_tkn tkn files work_dir names p junk disk v
              (omega (arith, size))
            ∙ rw (same_token, sent),
        pong,
      )

  -- A round of pings in which each connection of the master leads to a worker that runs and knows
  -- its token leaves the table as it was, with the mutex free. The token is below 2^64, and 27
  -- bytes are readable behind each block of the master.
  pub for_each_server-running :
      (xs : List FileServer)
      → length xs < 2 ^ 16
      → for_each_server
          (ping_server mem tkn (worker_network worker_mem worker_tkn files work_dir tkn names disk))
          (table xs)
        ≡ ok (table xs)
  for_each_server-running xs few =
      let (junk, sent, size) =
        request-wire mem tkn [] [] ping 50 tt (omega arith) token tt (omega arith) (omega arith) in
      let (r, handled, pong) = answered junk size in
      for_each_server-alive mem tkn _ (wire (packet_of 0 [] ping 0 tkn) ++ junk) sent xs few
        (all xs (λ s. (r, ap replies handled, pong)))
    where
      all : {P : FileServer → Type 0} (ys : List FileServer) → ((s : FileServer) → P s) → All P ys
      all [] h = tt
      all (y ∷ ys) h = (h y, all ys h)
