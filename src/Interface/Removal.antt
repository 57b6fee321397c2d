-- ===== src/Interface/Removal.antt =====
-- A DELETE from the client through the master to the files of a worker: file_delete of lib/interface.c,
-- handle_client of src/master.c, worker_delete of src/worker_admin.c and handle_client of
-- src/server/server.c.
use pekar_drive.Common.{
  ℕ, ◌+◌, ◌^◌, ◌<◌, ◌≤◌, ◌≡◌, Option, some, List, [], ◌∷◌, ◌++◌, length, find_index, arith,
}
use pekar_drive.Result.{ok}
use pekar_drive.Memory.{Bytes, Memory}
use pekar_drive.Memory.Strings.{IsText, codes, occurs}
use pekar_drive.Packet.{delete, ls, sizeof_packet}
use pekar_drive.Packet.Wire.{wire}
use pekar_drive.Packet.Args.{packet_of, packet_of-IsValid}
use pekar_drive.ServerTable.{FileServer, table, entry}
use pekar_drive.WorkerAdmin.{Network, request, worker_delete}
use pekar_drive.WorkerAdmin.Listings.{AllList, worker_delete-some}
use pekar_drive.Master
use pekar_drive.Fs.{Disk, System, without, set_path}
use pekar_drive.Fs.Writes.{IsOpen}
use pekar_drive.Server
use pekar_drive.Server.Replies.{request-wire}
use pekar_drive.Server.Removal.{handle_client-without}

module _ (mem : Memory) (tkn worker_tkn : ℕ) (net : Network) (more : Bytes) (xs : List FileServer)
    (nul : mem.behind ≡ 0 ∷ more) (room : 18 ≤ length mem.behind) (f m : Bytes) (is_name : IsText f)
    (short : length f ≤ 9959) (message : Bytes) (sent : request mem tkn (0 ∷ []) ls 41 ≡ ok message)
    (listings : List Bytes) (listed : AllList net message xs listings) (worker_mem : Memory)
    (worker_more : Bytes) (worker_nul : worker_mem.behind ≡ 0 ∷ worker_more)
    (worker_room : 18 ≤ length worker_mem.behind) (token : tkn < 2 ^ 64)
    (worker_token : worker_tkn < 2 ^ 64) (files : System) (work_dir : Option Bytes)
    (names : Option (List Bytes)) (path : Bytes) (located : set_path work_dir (some f) ≡ some path)
    (permitted : IsOpen files) where
  -- If all workers answer LS with a listing, and the first listing that contains a name of at most
  -- 9959 bytes is the one with the index i, then worker_delete of the name sends one message, to
  -- the address and port of the server with this index in the table, and keeps the table. A worker
  -- that handles this message, and whose files may be read and written, removes the file of the
  -- name from its files, keeps all others, and answers. The shell command "rm path" is to remove
  -- just the file of the path, the tokens are below 2^64, and a NUL stands behind each block, which
  -- has 18 readable bytes behind it.
  pub worker_delete-without :
      (i : ℕ) (disk : Disk)
      → find_index (occurs f) listings 0 ≡ some i
      → files.system (codes "rm " ++ path) disk ≡ without path disk
      → (s : FileServer) × (entry xs i ≡ ok s)
        × (removal : Bytes) × (worker_delete mem tkn net (f ++ 0 ∷ m) (table xs)
            ≡ ok (some (record { ip = s.ip; port = s.port; message = removal }), table xs))
        × (answer : Bytes) × (disk' : Disk) × (Server.handle_client worker_mem worker_tkn files
              work_dir tkn names removal disk
            ≡ ok (some answer, disk'))
        × ((q : Bytes) → disk' q ≡ without path disk q)
  worker_delete-without i disk found shell =
      let (junk, requested, size) =
        request-wire mem tkn f m delete (sizeof_packet + length f) is_name (omega arith) token tt
          (omega arith) (omega arith) in
      let removal = wire (packet_of 0 f delete 0 tkn) ++ junk in
      let v =
        packet_of-IsValid 0 f delete 0 tkn (omega arith) (omega arith) (omega arith) token tt in
      let (answer, disk', handled, gone) =
        handle_client-without worker_mem worker_tkn tkn files work_dir worker_room worker_token
          worker_more worker_nul f path 0 0 names junk is_name located permitted v
          (omega (arith, size)) disk shell in
      let (s, at, deleted) =
        worker_delete-some mem tkn net message sent more nul f m xs listings i removal is_name
          listed found requested in
      (s, at, removal, deleted, answer, disk', handled, gone)
