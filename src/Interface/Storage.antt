-- ===== src/Interface/Storage.antt =====
-- A write from the client through the master to the files of a worker: file_write of lib/interface.c,
-- handle_client of src/master.c and handle_client of src/server/server.c.
use pekar_drive.Common.{
  ℕ, ◌+◌, ◌%◌, ◌^◌, ◌<◌, ◌≤◌, ◌≡◌, false, Option, some, List, [], ◌∷◌, ◌++◌, length, drop,
  All-append, length-append, arith,
}
use pekar_drive.Common.Int.{pos}
use pekar_drive.Result.{ok}
use pekar_drive.Memory.{Bytes, Memory}
use pekar_drive.Memory.Strings.{IsText, Lacks}
use pekar_drive.Memory.Decimal.{print, length-print}
use pekar_drive.Comm.{Conn, Sockets, client_init}
use pekar_drive.Packet.{write, sizeof_packet}
use pekar_drive.Packet.Wire.{wire}
use pekar_drive.Packet.Args.{packet_of, packet_of-IsValid}
use pekar_drive.ServerTable.{FileServer, table}
use pekar_drive.WorkerAdmin.{request}
use pekar_drive.Master
use pekar_drive.Fs.{Disk, System, set_path}
use pekar_drive.Fs.Writes.{IsOpen, IsPut}
use pekar_drive.Server
use pekar_drive.Server.Replies.{request-wire, handle_client-counted}
use pekar_drive.Interface.{file_write}
use pekar_drive.Interface.Write.{
  answers, answers_only, answers_only-answer, file_write-handle_client,
}

module _ (mem worker_mem : Memory) (tkn worker_tkn : ℕ) (more worker_more zeros : Bytes) (id : ℕ)
    (x : FileServer) (xs : List FileServer) (nul : mem.behind ≡ 0 ∷ more)
    (room : 18 ≤ length mem.behind) (worker_nul : worker_mem.behind ≡ 0 ∷ worker_more)
    (worker_room : 18 ≤ length worker_mem.behind) (token : tkn < 2 ^ 64)
    (worker_token : worker_tkn < 2 ^ 64) (f d m m' path : Bytes) (is_name : IsText f)
    (is_content : IsText d) (first : Lacks b';' f) (short : length (f ++ b';' ∷ d) ≤ 9959)
    (fresh : drop (length f) (worker_mem.malloc (length f + 2)) ≡ 0 ∷ zeros) (files : System)
    (work_dir : Option Bytes) (names : Option (List Bytes))
    (located : set_path work_dir (some f) ≡ some path) (permitted : IsOpen files) (sys : Sockets)
    (host : Bytes) (port : ℕ) (c : Conn) (connected : client_init sys host port ≡ ok c)
    (usable : c.error ≡ false) where
  -- If a client can connect to the master, which holds a table with a worker, then there is a
  -- message and an answer such that a worker whose files may be read and written, on this message,
  -- puts the data in the file, keeps all other files and gives this answer; and file_write of the
  -- name and the data, of at most 9959 bytes with the semicolon between them, returns the count of
  -- the bytes of the data where the master gets an answer only for this message, sent to the
  -- address and port of the first worker of its table, and then this one. The name holds no
  -- semicolon and names a path, the tokens are below 2^64, a NUL stands behind each block, which
  -- has 18 readable bytes behind it, and behind the name where the worker copies it to.
  pub file_write-IsPut :
      (disk : Disk)
      → (message : Bytes) × (answer : Bytes) × (disk' : Disk) × (request mem tkn
            ((f ++ b';' ∷ d) ++ 0 ∷ [])
            write
            (length (f ++ b';' ∷ d) + sizeof_packet + 1)
          ≡ ok message)
        × (Server.handle_client worker_mem worker_tkn files work_dir tkn names message disk
            ≡ ok (some answer, disk'))
        × IsPut path d disk disk'
        × (file_write mem sys
              (λ bytes. answers (
                Master.handle_client mem tkn
                  (answers_only x.ip x.port message answer)
                  worker_tkn
                  (some bytes)
                  (record { table = table (x ∷ xs); worker_id = id })))
              (f ++ 0 ∷ m)
              (d ++ 0 ∷ m')
              false
              host
              port
            ≡ ok (pos (length d)))
  file_write-IsPut disk =
      let s = f ++ b';' ∷ d in
      let n = length d in
      let is_arg : IsText s = All-append _ f (b';' ∷ d) is_name (ground arith, is_content) in
      let small : n < 10 ^ 9 = omega (arith, length-append f (b';' ∷ d)) in
      let (junk, sent, size) =
        request-wire mem tkn s [] write (length s + sizeof_packet + 1) is_arg (omega arith) token tt
          (omega arith) (omega arith) in
      let v =
        packet_of-IsValid 0 s write 0 tkn (omega arith) (omega arith) (omega arith) token tt in
      let (disk', behind, handled, put, answer_size) =
        handle_client-counted worker_mem worker_tkn tkn files work_dir worker_room worker_token f d
          worker_more zeros path 0 0 0 names junk is_name is_content first worker_nul fresh located
          permitted small v (omega (arith, size)) disk in
      let q = packet_of ((0 + 1) % 2 ^ 32) (print n) write 0 worker_tkn in
      let valid =
        packet_of-IsValid ((0 + 1) % 2 ^ 32) (print n) write 0 worker_tkn (omega arith)
          (omega (arith, length-print n 8 small)) (omega arith) worker_token tt in
      let message = wire (packet_of 0 s write 0 tkn) ++ junk in
      let net = answers_only x.ip x.port message (wire q ++ behind) in
      (
        message,
        wire q ++ behind,
        disk',
        sent,
        handled,
        put,
        file_write-handle_client mem tkn worker_tkn net more id x xs nul room f d m m' is_name
            is_content first short message behind ((0 + 1) % 2 ^ 32) n 0 worker_tkn write sent
            (answers_only-answer x.ip x.port message (wire q ++ behind)) valid answer_size small sys
            host port c connected usable,
      )
