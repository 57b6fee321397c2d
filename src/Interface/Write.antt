-- ===== src/Interface/Write.antt =====
-- A write from the client through the master: file_write of lib/interface.c and handle_client of
-- src/master.c.
use pekar_drive.Common.{
  ℕ, ◌+◌, ◌%◌, ◌^◌, ◌<◌, ◌≤◌, ◌≡◌, refl, true, false, ◌&&◌, if◌then◌else◌, Option, none, some, List,
  [], ◌∷◌, ◌++◌, append_assoc, length, take, drop, take_all, All-append, length-append, ◌==◌,
  lt→ltb, arith,
}
use pekar_drive.Common.Int.{pos}
use pekar_drive.Result.{Result, ok, err, >>=-eq-ok}
use pekar_drive.Memory.{Bytes, Memory, store-append}
use pekar_drive.Memory.Strings.{IsText, Lacks, same, same_refl, text-append, strlen-append}
use pekar_drive.Memory.Decimal.{print, length-print, atol-print}
use pekar_drive.Comm.{Conn, Sockets, client_init}
use pekar_drive.Packet.{MsgType, write, p_encode, IsValid, sizeof_packet}
use pekar_drive.Packet.Wire.{wire}
use pekar_drive.Packet.Args.{packet_of, p_init_lem, packet_of-IsValid}
use pekar_drive.ServerTable.{FileServer, table}
use pekar_drive.WorkerAdmin.{Network, request}
use pekar_drive.Master.{Master, handle_client}
use pekar_drive.Master.Requests.{handle_client-write}
use pekar_drive.Server.Replies.{encoded-sent}
use pekar_drive.Interface.{narrow, atoi, gen_write_arg, read_blocks, read_all, ask, file_write}

-- What a client reads from the master for what it sends.
abbrev pub answers : Result (Option Bytes × Master) → List Bytes
answers (ok (some answer, m)) = answer ∷ []
answers (ok (none, m)) = []
answers (err fault) = []

-- The network in which one message to one address and port is answered, and nothing else is.
abbrev pub answers_only : Bytes → ℕ → Bytes → Bytes → Network
answers_only ip port message answer ip' port' message' =
    if same ip' ip && port' == port && same message' message
    then record { sent = true; answer = some answer }
    else record { sent = false; answer = none }

pub answers_only-answer :
    (ip : Bytes) (port : ℕ) (message answer : Bytes)
    → (answers_only ip port message answer ip port message).answer ≡ some answer
answers_only-answer ip port message answer =
    let same_port : (port == port) ≡ true = ground arith in
    rw (same_refl ip, same_port, same_refl message)

gen_write_arg_lem :
    (f d m m' : Bytes)
    → IsText f
    → IsText d
    → gen_write_arg (f ++ 0 ∷ m) (d ++ 0 ∷ m') ≡ ok ((f ++ b';' ∷ d) ++ 0 ∷ [])
unfolding gen_write_arg
gen_write_arg_lem f d m m' is_name is_content =
    rw (text-append f m is_name, text-append d m' is_content)

-- An answer that is shorter than a block is read at once.
pub read_all-short :
    (mem : Memory) (s : Bytes)
    → length s < 1000
    → read_all mem (s ∷ []) ≡ ok (s ++ drop (length s) (mem.malloc 1000))
unfolding read_all read_blocks
read_all-short mem s h =
    let whole : take 1000 s ≡ s = take_all 1000 s (omega arith) in
    let partial : (length s == 1000) ≡ false = ground arith in
    rw (
      whole,
      partial,
      store-append [] (mem.malloc 1000) s 0 refl (omega (arith, mem.length-malloc 1000)),
    )

pub atoi-print : (n : ℕ) (m : Bytes) → n < 2 ^ 31 → atoi (print n ++ 0 ∷ m) ≡ ok (pos n)
unfolding atoi narrow
atoi-print n m h =
    let same_word : n % 2 ^ 32 ≡ n = omega arith in
    rw (atol-print n m (omega arith), same_word, lt→ltb n (2 ^ 31) h)

module _ (mem : Memory) (tkn worker_tkn : ℕ) (net : Network) (more : Bytes) (id : ℕ)
    (x : FileServer) (xs : List FileServer) (nul : mem.behind ≡ 0 ∷ more)
    (room : 18 ≤ length mem.behind) (f d m m' : Bytes) (is_name : IsText f) (is_content : IsText d)
    (first : Lacks b';' f) (short : length (f ++ b';' ∷ d) ≤ 9959) (message junk : Bytes)
    (seq n error token : ℕ) (t : MsgType)
    (sent : request mem tkn
        ((f ++ b';' ∷ d) ++ 0 ∷ [])
        write
        (length (f ++ b';' ∷ d) + sizeof_packet + 1)
      ≡ ok message)
    (answered : (net x.ip x.port message).answer
      ≡ some (wire (packet_of seq (print n) t error token) ++ junk))
    (valid : IsValid (packet_of seq (print n) t error token))
    (fits : length (wire (packet_of seq (print n) t error token) ++ junk) ≤ 50) (small : n < 10 ^ 9)
    (sys : Sockets) (host : Bytes) (port : ℕ) (c : Conn)
    (connected : client_init sys host port ≡ ok c) (usable : c.error ≡ false) where
  abbrev master : Master
  master = record { table = table (x ∷ xs); worker_id = id }

  -- A client that can connect to the master, which handles what it sends, and writes "file;data" of
  -- at most 9959 bytes gets the count that the first worker answers to the request of the master:
  -- if the worker answers with a packet of at most 50 bytes that holds a count of at most nine
  -- digits. A NUL must stand behind each block, which has 18 readable bytes behind it.
  pub file_write-handle_client :
      file_write mem sys
        (λ bytes. answers (handle_client mem tkn net worker_tkn (some bytes) master))
        (f ++ 0 ∷ m)
        (d ++ 0 ∷ m')
        false
        host
        port
      ≡ ok (pos n)
  unfolding file_write ask
  file_write-handle_client =
      let s = f ++ b';' ∷ d in
      let is_arg : IsText s = All-append _ f (b';' ∷ d) is_name (ground arith, is_content) in
      let p = packet_of 0 s write 0 0 in
      let v =
        packet_of-IsValid 0 s write 0 0 (omega arith) (omega arith) (omega arith) (omega arith)
          tt in
      let (junk', encoded, size) =
        encoded-sent mem p (40 + length s + 1) v (omega arith) (omega arith) in
      let served =
        handle_client-write mem tkn worker_tkn net 0 0 0 junk' more id x xs (omega arith)
          (omega arith) (omega arith) nul f d is_name is_content first (omega arith) message junk
          seq n error token t sent answered valid fits small (omega arith) in
      let (e, encodes, sends) = >>=-eq-ok (p_encode mem p) _ encoded in
      let answer = print n ++ 0 ∷ [] in
      let digit_count = length-print n 8 small in
      let d' = drop (length answer) (mem.malloc 1000) in
      rw
        (
          gen_write_arg_lem f d m m' is_name is_content,
          p_init_lem 0 s [] write is_arg (omega arith),
          connected,
          usable,
          strlen-append s [] is_arg,
          encodes,
          sends,
          served,
          read_all-short mem answer (omega (arith, length-append (print n) (0 ∷ []), digit_count)),
          append_assoc answer d' mem.behind,
          append_assoc (print n) (0 ∷ []) (d' ++ mem.behind),
        )
        (atoi-print n (d' ++ mem.behind) (omega arith))
