-- ===== src/WorkerAdmin/Write.antt =====
-- worker_write, written_bytes and least_load of src/worker_admin.c and src/balance.c.
use pekar_drive.Common.{
  ℕ, ◌+◌, ◌^◌, ◌<◌, ◌≤◌, ◌≡◌, refl, none, some, List, [], ◌∷◌, ◌++◌, append_assoc, append-nil,
  length, drop, All-append, ◌==◌, false, if◌then◌else◌, take-append_length, arith,
}
use pekar_drive.Common.Int.{pos}
use pekar_drive.Result.{ok, ◌>>=◌}
use pekar_drive.Memory.{Bytes, Memory}
use pekar_drive.Memory.Strings.{IsText, text-append}
use pekar_drive.Memory.Decimal.{print, atol-print}
use pekar_drive.Packet.{MsgType, write, Packet, p_decode, IsValid, sizeof_packet}
use pekar_drive.Packet.Wire.{wire, p_decode-wire}
use pekar_drive.Packet.Args.{packet_of}
use pekar_drive.ServerTable.{FileServer, table, getfs_index}
use pekar_drive.WorkerAdmin.{Network, deref, least_load, written_bytes, worker_write, request}
use pekar_drive.WorkerAdmin.Requests.{decode-request}
use pekar_drive.Comm.Laws.{conn_read_lem}

-- With no worker there is none to write to. Otherwise it is the first of the table.
pub least_load_first :
    (xs : List FileServer)
    → least_load (table xs) ≡ ok ((if length xs == 0 then none else some 0), table xs)
unfolding least_load getfs_index
least_load_first [] = refl
least_load_first (x ∷ xs) = ground arith

least_load_cons :
    (x : FileServer) (xs : List FileServer)
    → least_load (table (x ∷ xs)) ≡ ok (some 0, table (x ∷ xs))
least_load_cons x xs =
    let e : (length (x ∷ xs) == 0) ≡ false = ground arith in rw (least_load_first (x ∷ xs), e)

-- written_bytes returns the count below 2^63 that a packet in range carries in decimal, if the
-- answer has at most 50 bytes and a NUL stands behind each block.
pub written_bytes-print :
    (mem : Memory) (n seq : ℕ) (t : MsgType) (error token : ℕ) (junk more : Bytes)
    → n < 2 ^ 63
    → IsValid (packet_of seq (print n) t error token)
    → length (wire (packet_of seq (print n) t error token) ++ junk) ≤ 50
    → mem.behind ≡ 0 ∷ more
    → written_bytes mem (some (wire (packet_of seq (print n) t error token) ++ junk)) ≡ ok (pos n)
unfolding written_bytes
written_bytes-print mem n seq t error token junk more h v fits nul =
    let p = packet_of seq (print n) t error token in
    let r = wire p ++ junk in
    let tail = drop (length r) (mem.malloc 50) in
    rw
      (
        conn_read_lem (mem.malloc 50) r 50 fits (omega (arith, mem.length-malloc 50)),
        append_assoc r tail mem.behind,
        append_assoc (wire p) junk (tail ++ mem.behind),
        p_decode-wire p (junk ++ (tail ++ mem.behind)) v,
        take-append_length (print n) (0 ∷ []),
        nul,
      )
      (atol-print n more h)

-- worker_write sends one message to the first worker, and returns what written_bytes makes of its answer.
pub worker_write_lem :
    (mem : Memory) (tkn : ℕ) (net : Network) (f d m m' message : Bytes) (x : FileServer)
    (xs : List FileServer)
    → IsText f
    → IsText d
    → request mem tkn ((f ++ b';' ∷ d) ++ 0 ∷ []) write (length (f ++ b';' ∷ d) + sizeof_packet + 1)
      ≡ ok message
    → worker_write mem tkn net (f ++ 0 ∷ m) (d ++ 0 ∷ m') (table (x ∷ xs))
      ≡ (do n ← written_bytes mem (net x.ip x.port message).answer; ok (n, table (x ∷ xs)))
unfolding worker_write deref
worker_write_lem mem tkn net f d m m' message x xs is_name is_content e =
    rw (least_load_cons x xs, text-append f m is_name, text-append d m' is_content, e)

module _ (mem : Memory) (tkn : ℕ) (net : Network) (f d m m' : Bytes) (x : FileServer)
    (xs : List FileServer) (is_name : IsText f) (is_content : IsText d) (token : tkn < 2 ^ 64)
    (short : length (f ++ b';' ∷ d) + 1 < 2 ^ 32) (room : 18 ≤ length mem.behind) where
  -- worker_write sends the first worker a message that decodes to a WRITE of "file;data" with the
  -- master's token, and returns what written_bytes makes of the answer, with the table as it was;
  -- the length of "file;data" must be below 2^32 - 1, and 18 bytes must be readable behind a block.
  pub worker_write-sends :
      (message : Bytes) × (q : Packet) × (p_decode message ≡ ok q)
      × (q.arg ≡ f ++ b';' ∷ d)
      × (q.msg_type ≡ write)
      × (q.token ≡ tkn)
      × (worker_write mem tkn net (f ++ 0 ∷ m) (d ++ 0 ∷ m') (table (x ∷ xs))
          ≡ (do n ← written_bytes mem (net x.ip x.port message).answer; ok (n, table (x ∷ xs))))
  worker_write-sends =
      let s = f ++ b';' ∷ d in
      let is_text : IsText s = All-append _ f (b';' ∷ d) is_name (ground arith, is_content) in
      let (message, e, q) =
        decode-request mem tkn s [] write (length s + sizeof_packet + 1) is_text short token tt []
          (omega arith) (omega arith) in
      (
        message,
        _,
        rw append-nil at q,
        refl,
        refl,
        refl,
        worker_write_lem mem tkn net f d m m' message x xs is_name is_content e,
      )
