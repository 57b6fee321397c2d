-- ===== src/Server/Replies.antt =====
-- The replies of the worker, src/server/server.c, and what the master makes of them.
use pekar_drive.Common.{
  ℕ, ◌+◌, ◌-◌, ◌%◌, ◌^◌, ◌<◌, ◌≤◌, ◌≡◌, refl, sym, ap, subst, ◌∙◌, Option, none, some, List, [],
  ◌∷◌, ◌++◌, append_assoc, length, take, drop, Bool, not, length-append, length-drop, length-take,
  take-append_length, take-append_ge, ◌==◌, true, false, if◌then◌else◌, arith,
}
use pekar_drive.Common.Int.{pos}
use pekar_drive.Result.{ok, ◌>>=◌}
use pekar_drive.Memory.{Bytes, Memory, load-take}
use pekar_drive.Memory.Words.{le_bytes, le_value}
use pekar_drive.Memory.Strings.{IsText, Lacks, codes}
use pekar_drive.Memory.Decimal.{print, IsText-print, length-print}
use pekar_drive.Comm.{conn_write}
use pekar_drive.Comm.Laws.{conn_read_lem}
use pekar_drive.Packet.{
  MsgType, ping, write, Packet, p_encode, attach_token, type_code, header_size, IsValid, IsType,
}
use pekar_drive.Packet.Wire.{wire, length-wire, p_encode-wire, p_decode-wire, block_size}
use pekar_drive.Packet.Args.{packet_of, p_init_lem, packet_of-IsValid}
use pekar_drive.Fs.{Disk, System, set_path}
use pekar_drive.Fs.Writes.{IsOpen, IsPut}
use pekar_drive.FileExec.{file_write, f_exec}
use pekar_drive.FileExec.Laws.{f_exec-write, written}
use pekar_drive.Server.{
  read_size, create_packet, answer_client, exec_file, exec_type, handle_packet, handle_client,
  reply_ping,
}
use pekar_drive.WorkerAdmin.{request, written_bytes}
use pekar_drive.WorkerAdmin.Write.{written_bytes-print}
use pekar_drive.WorkerAdmin.Ping.{IsPong}

-- The encoding of a packet, sent with a length that covers it.
pub encoded-sent :
    (mem : Memory) (p : Packet) (n : ℕ)
    → IsValid p
    → header_size + p.msg_len ≤ n
    → n ≤ header_size + p.msg_len + 1 + length mem.behind
    → (junk : Bytes) × ((do e ← p_encode mem p; conn_write mem e n) ≡ ok (wire p ++ junk))
      × (length (wire p ++ junk) ≡ n)
unfolding conn_write
encoded-sent mem p n v covers room =
    let d = drop (header_size + p.msg_len) (mem.malloc (block_size p)) in
    let rest = d ++ mem.behind in
    let size : n ≤ length (wire p ++ rest) = omega (
      arith,
      length-append (wire p) rest,
      length-append d mem.behind,
      length-wire p v.arg,
      length-drop (header_size + p.msg_len) (mem.malloc (block_size p)),
      mem.length-malloc (block_size p),
    ) in
    let cut : take n (wire p ++ rest) ≡ wire p ++ take (n - length (wire p)) rest =
      take-append_ge n (wire p) rest (omega (arith, length-wire p v.arg)) in
    (
      take (n - length (wire p)) rest,
      rw (
        p_encode-wire mem p v,
        append_assoc (wire p) d mem.behind,
        load-take n (wire p ++ rest) size,
        cut,
      ),
      ap length (sym cut) ∙ length-take n (wire p ++ rest) size,
    )

-- The request of the master carries the packet, if the length that is passed to `send` covers it and
-- stays within what can be read.
pub request-wire :
    (mem : Memory) (tkn : ℕ) (s m : Bytes) (t : MsgType) (len : ℕ)
    → IsText s
    → length s + 1 < 2 ^ 32
    → tkn < 2 ^ 64
    → IsType t
    → header_size + length s ≤ len
    → len ≤ header_size + length s + 1 + length mem.behind
    → (junk : Bytes) × (request mem tkn (s ++ 0 ∷ m) t len
        ≡ ok (wire (packet_of 0 s t 0 tkn) ++ junk))
      × (length (wire (packet_of 0 s t 0 tkn) ++ junk) ≡ len)
unfolding request attach_token
request-wire mem tkn s m t len is_text short token type covers room =
    let v = packet_of-IsValid 0 s t 0 tkn (omega arith) short (omega arith) token type in
    let (junk, sent, size) = encoded-sent mem (packet_of 0 s t 0 tkn) len v covers room in
    (junk, rw (p_init_lem 0 s m t is_text short) sent, size)

-- The worker answers each PING with bytes that the master accepts as the answer to a ping.
pub reply_ping-IsPong :
    (mem master_mem : Memory) (p : Packet)
    → (r : Bytes) × (reply_ping mem p ≡ ok r) × IsPong master_mem r
unfolding reply_ping conn_write le_bytes le_value type_code
reply_ping-IsPong mem master_mem p =
    let q = packet_of ((p.seq_number + 1) % 2 ^ 32) (codes "1") ping 0 0 in
    let v : IsValid q =
      packet_of-IsValid ((p.seq_number + 1) % 2 ^ 32) (codes "1") ping 0 0 (omega arith)
        (omega arith) (omega arith) (omega arith) tt in
    let d = drop (header_size + 1) (mem.malloc (block_size q)) in
    let sent = load-take 13 (wire q ++ (d ++ mem.behind)) (omega arith) in
    (
      take 13 (wire q),
      rw
          (
            p_init_lem ((p.seq_number + 1) % 2 ^ 32) (codes "1") [] ping (ground arith, tt)
                (omega arith),
            p_encode-wire mem q v,
            append_assoc (wire q) d mem.behind,
          )
          sent,
      record { fits = omega arith; fields = omega arith; type = refl; arg = omega arith },
    )

module _ (mem : Memory) (worker_tkn master_tkn : ℕ) (sys : System) (w : Option Bytes) where
  -- The encoding of a packet that is in range, of at most 10000 bytes with what follows it, is
  -- handled by the worker as this packet if it carries the master's token; otherwise nothing is
  -- sent and the disk stays as it was.
  pub handle_client-token :
      (names : Option (List Bytes)) (p : Packet) (junk : Bytes) (disk : Disk)
      → IsValid p
      → length (wire p ++ junk) ≤ read_size
      → handle_client mem worker_tkn sys w master_tkn names (wire p ++ junk) disk ≡ (
          if p.token == master_tkn
          then handle_packet mem worker_tkn sys w names
              (record p { arg = take p.msg_len p.arg })
              disk
          else ok (none, disk))
  unfolding handle_client
  handle_client-token names p junk disk v fits =
      let r = wire p ++ junk in
      let bytes : (length r == 0) ≡ false =
        ground (arith, length-append (wire p) junk, length-wire p v.arg) in
      let tail = drop (length r) (mem.malloc read_size) in
      let decoded = p_decode-wire p (junk ++ (tail ++ mem.behind)) v in
      rw
        (
          bytes,
          conn_read_lem (mem.malloc read_size) r read_size fits
              (omega (arith, mem.length-malloc read_size)),
          append_assoc r tail mem.behind,
          append_assoc (wire p) junk (tail ++ mem.behind),
          decoded,
        )
        (swap (p.token == master_tkn) _ _)
    where
      swap : {A : Type 0} (b : Bool) (x y : A) → (if not b then y else x) ≡ (if b then x else y)
      swap true x y = refl
      swap false x y = refl

  module _ (room : 18 ≤ length mem.behind) (word : worker_tkn < 2 ^ 64) where
    pub answer_client-sent :
        (seq : ℕ) (t : MsgType) (s : Bytes)
        → IsText s
        → seq < 2 ^ 32
        → length s + 1 < 2 ^ 32
        → IsType t
        → (junk : Bytes) × (answer_client mem worker_tkn seq t
              (record { error = false; out = s ++ 0 ∷ []; len = length s })
            ≡ ok (wire (packet_of seq s t 0 worker_tkn) ++ junk))
          × (length (wire (packet_of seq s t 0 worker_tkn) ++ junk) ≡ 41 + length s)
    unfolding answer_client create_packet attach_token
    answer_client-sent seq t s is_text h k l =
        let v = packet_of-IsValid seq s t 0 worker_tkn h k (omega arith) word l in
        let (junk, e, size) =
          encoded-sent mem (packet_of seq s t 0 worker_tkn) (40 + length s + 1) v (omega arith)
            (omega arith) in
        (
          junk,
          rw (append_assoc s (0 ∷ []) mem.behind, p_init_lem seq s mem.behind t is_text k) e,
          size ∙ omega arith,
        )

    module _ (f d more zeros path : Bytes) (seq token error : ℕ) (names : Option (List Bytes))
        (junk : Bytes) (is_name : IsText f) (is_content : IsText d) (first : Lacks b';' f)
        (nul : mem.behind ≡ 0 ∷ more)
        (fresh : drop (length f) (mem.malloc (length f + 2)) ≡ 0 ∷ zeros)
        (located : set_path w (some f) ≡ some path) (permitted : IsOpen sys)
        (small : length d < 10 ^ 9)
        (valid : IsValid (packet_of seq (f ++ b';' ∷ d) write error master_tkn))
        (fits : length (wire (packet_of seq (f ++ b';' ∷ d) write error master_tkn) ++ junk)
          ≤ read_size) where
      -- The answer is a packet with the count.
      pub handle_client-counted :
          (disk : Disk)
          → (disk' : Disk) × (behind : Bytes) × (handle_client mem worker_tkn sys w master_tkn names
                (wire (packet_of seq (f ++ b';' ∷ d) write error master_tkn) ++ junk)
                disk
              ≡ ok (
                some (
                    wire (packet_of ((seq + 1) % 2 ^ 32) (print (length d)) write 0 worker_tkn)
                    ++ behind),
                disk',
              ))
            × IsPut path d disk disk'
            × (length (
                  wire (packet_of ((seq + 1) % 2 ^ 32) (print (length d)) write 0 worker_tkn)
                  ++ behind)
                ≤ 50)
      unfolding handle_packet exec_type exec_file type_code
      handle_client-counted disk =
          let s = f ++ b';' ∷ d in
          let p = packet_of seq s write error master_tkn in
          let n = length d in
          let digit_count = length-print n 8 small in
          let (disk', stored, put) =
            f_exec-write mem sys w f d more zeros path is_name is_content first fresh located
              permitted small disk in
          let next = (seq + 1) % 2 ^ 32 in
          let (junk', sent, size) =
            answer_client-sent next write (print n) (IsText-print n) (omega arith) (omega arith)
              tt in
          let executed : f_exec mem sys w file_write (s ++ mem.behind) disk
              ≡ ok (written d, disk') =
            subst (λ b. f_exec mem sys w file_write (s ++ b) disk ≡ ok (written d, disk')) (sym nul)
              (rw (append_assoc f (b';' ∷ d) (0 ∷ more)) stored) in
          let same_token : (master_tkn == master_tkn) ≡ true = ground arith in
          (
            disk',
            junk',
            handle_client-token names p junk disk valid fits
                ∙ rw (same_token, take-append_length s (0 ∷ []), executed, sent),
            put,
            omega (arith, size, digit_count),
          )

      -- A WRITE of "file;data" with the master's token, of at most 10000 bytes, that arrives at a
      -- worker whose files may be read and written puts the data, of fewer than 10^9 bytes, in the
      -- file and leaves all other files as they were; and what written_bytes of the master reads
      -- from the answer is the count of the bytes. A NUL must stand behind each block, which has 18
      -- readable bytes behind it, and behind the file name where it is copied to.
      pub handle_client-written_bytes :
          (disk : Disk)
          → (disk' : Disk) × (answer : Bytes) × (handle_client mem worker_tkn sys w master_tkn names
                (wire (packet_of seq (f ++ b';' ∷ d) write error master_tkn) ++ junk)
                disk
              ≡ ok (some answer, disk'))
            × IsPut path d disk disk'
            × (written_bytes mem (some answer) ≡ ok (pos (length d)))
      handle_client-written_bytes disk =
          let n = length d in
          let (disk', behind, handled, put, size) = handle_client-counted disk in
          let next = (seq + 1) % 2 ^ 32 in
          let digit_count = length-print n 8 small in
          let v =
            packet_of-IsValid next (print n) write 0 worker_tkn (omega arith) (omega arith)
              (omega arith) word tt in
          (
            disk',
            wire (packet_of next (print n) write 0 worker_tkn) ++ behind,
            handled,
            put,
            written_bytes-print mem n next write 0 worker_tkn behind more (omega arith) v size nul,
          )
