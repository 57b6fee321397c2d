-- ===== src/Master/Requests.antt =====
-- The requests of clients: handle_client, handle_request and exec_long of src/master.c.
use pekar_drive.Common.{
  ℕ, ◌+◌, ◌^◌, ◌<◌, ◌≤◌, ◌≡◌, ◌≢◌, refl, sym, ap, subst, ◌∙◌, Option, some, List, [], ◌∷◌, ◌++◌,
  append_assoc, length, take, drop, All-append, length-append, drop-add, drop-append_length,
  take-append_length, ◌==◌, false, arith,
}
use pekar_drive.Common.Int.{pos}
use pekar_drive.Result.{ok, err, null_pointer, >>=-eq-ok}
use pekar_drive.Memory.{Bytes, Memory, load, load-append}
use pekar_drive.Memory.Strings.{
  IsText, Lacks, codes, text, strncpy, text-append, strlen-append, strncpy-append,
}
use pekar_drive.Memory.Decimal.{print, IsText-print}
use pekar_drive.Comm.{conn_write}
use pekar_drive.Comm.Laws.{conn_read_lem}
use pekar_drive.Packet.{
  MsgType, ls, read, write, append, register, Packet, type_code, IsValid, IsType, sizeof_packet,
}
use pekar_drive.Packet.Wire.{wire, length-wire, p_decode-wire}
use pekar_drive.Packet.Args.{packet_of, packet_of-IsValid}
use pekar_drive.ServerTable.{FileServer, table}
use pekar_drive.WorkerAdmin.{Network, request, worker_ls, worker_write, worker_append, worker_read}
use pekar_drive.WorkerAdmin.Listings.{worker_ls-undefined}
use pekar_drive.WorkerAdmin.Write.{worker_write_lem, written_bytes-print}
use pekar_drive.Master.{
  Master, char_at, handle_client, handle_packet, handle_request, exec_str, exec_long, exec_split,
  serve, answer, service_available, read_sz,
}
use pekar_drive.Master.CharAt.{char_at-found, long2str-print}

module _ (mem : Memory) (tkn worker_tkn : ℕ) (net : Network) where
  -- What arrives is decoded to the packet that was encoded.
  pub handle_client-wire :
      (p : Packet) (junk : Bytes) (m : Master)
      → IsValid p
      → length (wire p ++ junk) ≤ read_sz
      → handle_client mem tkn net worker_tkn (some (wire p ++ junk)) m
        ≡ handle_packet mem tkn net worker_tkn (record p { arg = take p.msg_len p.arg }) m
  unfolding handle_client
  handle_client-wire p junk m v fits =
      let r = wire p ++ junk in
      let bytes : (length r == 0) ≡ false =
        ground (arith, length-append (wire p) junk, length-wire p v.arg) in
      let tail = drop (length r) (mem.malloc read_sz) in
      rw (
        bytes,
        conn_read_lem (mem.malloc read_sz) r read_sz fits
            (omega (arith, mem.length-malloc read_sz)),
        append_assoc r tail mem.behind,
        append_assoc (wire p) junk (tail ++ mem.behind),
        p_decode-wire p (junk ++ (tail ++ mem.behind)) v,
      )

  serves :
      (p : Packet) (id : ℕ) (x : FileServer) (xs : List FileServer)
      → (type_code p.msg_type == type_code register) ≡ false
      → handle_packet mem tkn net worker_tkn p (record { table = table (x ∷ xs); worker_id = id })
        ≡ serve mem tkn net p (record { table = table (x ∷ xs); worker_id = id })
  unfolding handle_packet service_available
  serves p id x xs h = let e : (length (x ∷ xs) == 0) ≡ false = ground arith in rw (h, e)

pub answer-text :
    (mem : Memory) (s : Bytes) → IsText s → answer mem (some (s ++ 0 ∷ [])) ≡ ok (s ++ 0 ∷ [])
unfolding answer conn_write
answer-text mem s h =
    let size : length (s ++ 0 ∷ []) ≡ length s + 1 = omega (arith, length-append s (0 ∷ [])) in
    rw (append_assoc s (0 ∷ []) mem.behind, strlen-append s mem.behind h)
      (subst (λ n. load n (s ++ 0 ∷ mem.behind) ≡ ok (s ++ 0 ∷ [])) size
        (subst (λ z. load (length (s ++ 0 ∷ [])) z ≡ ok (s ++ 0 ∷ []))
          (append_assoc s (0 ∷ []) mem.behind) (load-append (s ++ 0 ∷ []) mem.behind)))

module _ (mem : Memory) (tkn worker_tkn : ℕ) (net : Network) (seq error token : ℕ)
    (junk more : Bytes) (id : ℕ) (x : FileServer) (xs : List FileServer) (word_seq : seq < 2 ^ 32)
    (word_error : error < 2 ^ 16) (word_token : token < 2 ^ 64) (nul : mem.behind ≡ 0 ∷ more) where
  abbrev pub master : Master
  master = record { table = table (x ∷ xs); worker_id = id }

  abbrev pub arrived : MsgType → Bytes → Option Bytes
  arrived t s = some (wire (packet_of seq s t error token) ++ junk)

  pub decoded :
      (t : MsgType) (s : Bytes)
      → IsType t
      → (type_code t == type_code register) ≡ false
      → length s + 1 < 2 ^ 32
      → length (wire (packet_of seq s t error token) ++ junk) ≤ read_sz
      → handle_client mem tkn net worker_tkn (arrived t s) master
        ≡ serve mem tkn net (record (packet_of seq s t error token) { arg = s }) master
  decoded t s is_type request short fits =
      handle_client-wire mem tkn worker_tkn net (packet_of seq s t error token) junk master
        (packet_of-IsValid seq s t error token word_seq short word_error word_token is_type) fits
      ∙ ap
          (λ a.
            handle_packet mem tkn net worker_tkn
              (record (packet_of seq s t error token) { arg = a }) master)
          (take-append_length s (0 ∷ []))
      ∙ serves mem tkn worker_tkn net (record (packet_of seq s t error token) { arg = s }) id x xs
          request

  -- The encoding of a READ that is in range, of at most 10000 bytes with what follows it, makes the
  -- master read through NULL if there is a worker, whatever file is asked for.
  pub handle_client-read :
      (s : Bytes)
      → length s + 1 < 2 ^ 32
      → length (wire (packet_of seq s read error token) ++ junk) ≤ read_sz
      → handle_client mem tkn net worker_tkn (arrived read s) master ≡ err null_pointer
  unfolding serve handle_request exec_str worker_read answer type_code
  handle_client-read s short fits = decoded read s tt refl short fits

  -- The encoding of an LS that is in range, of at most 10000 bytes with what follows it, is never
  -- answered without undefined behaviour if there is a worker, whatever the workers do:
  -- handle_client ends with no result.
  pub handle_client-ls :
      (s : Bytes) (r : Option Bytes × Master)
      → length s + 1 < 2 ^ 32
      → length (wire (packet_of seq s ls error token) ++ junk) ≤ read_sz
      → handle_client mem tkn net worker_tkn (arrived ls s) master ≢ ok r
  unfolding serve handle_request exec_str type_code
  handle_client-ls s r short fits h =
      let served : serve mem tkn net (record (packet_of seq s ls error token) { arg = s }) master
          ≡ ok r =
        sym (decoded ls s tt refl short fits) ∙ h in
      let (ret_val, handled, _) =
        >>=-eq-ok (handle_request mem tkn net ls (s ++ mem.behind) (table (x ∷ xs))) _ served in
      let (listed, e, _) = >>=-eq-ok (worker_ls mem tkn net (table (x ∷ xs))) _ handled in
      worker_ls-undefined mem tkn net (table (x ∷ xs)) listed e

  module _ (f d : Bytes) (is_name : IsText f) (is_content : IsText d) (first : Lacks b';' f)
      (short : length (f ++ b';' ∷ d) + 1 < 2 ^ 32) where
    abbrev arg : Bytes
    arg = f ++ b';' ∷ d

    is_text : IsText arg
    is_text = All-append _ f (b';' ∷ d) is_name (ground arith, is_content)

    found : char_at (arg ++ mem.behind) b';' ≡ ok (some (length f))
    found =
        subst (λ b. char_at (arg ++ b) b';' ≡ ok (some (length f))) (sym nul)
          (char_at-found b';' f d more first is_text (omega arith))

    name : strncpy (length f) (arg ++ mem.behind) ≡ ok f
    name = rw append_assoc (strncpy-append f ((b';' ∷ d) ++ mem.behind) is_name)

    behind_name : drop (length f + 1) (arg ++ mem.behind) ≡ d ++ mem.behind
    behind_name = rw (
      append_assoc f (b';' ∷ d) mem.behind,
      drop-add (length f) 1 (f ++ (b';' ∷ (d ++ mem.behind))),
      drop-append_length,
    )

    content : text (drop (length f + 1) (arg ++ mem.behind)) ≡ ok d
    content =
        rw behind_name (subst (λ b. text (d ++ b) ≡ ok d) (sym nul) (text-append d more is_content))

    -- A client's APPEND of "file;data", of at most 10000 bytes, is answered with "-1" if there is a
    -- worker, and the state of the master stays as it was. A NUL must stand behind each block.
    pub handle_client-append :
        length (wire (packet_of seq arg append error token) ++ junk) ≤ read_sz
        → handle_client mem tkn net worker_tkn (arrived append arg) master
          ≡ ok (some (codes "-1" ++ 0 ∷ []), master)
    unfolding serve handle_request exec_long exec_split worker_append type_code
    handle_client-append fits =
        decoded append arg tt refl short fits
        ∙ rw (
          found,
          name,
          content,
          (long2str-print 0 (omega arith)).1,
          answer-text mem (codes "-1") (omega arith, (omega arith, tt)),
        )

    module _ (message junk' : Bytes) (seq' n error' token' : ℕ) (t : MsgType)
        (sent : request mem tkn (arg ++ 0 ∷ []) write (length arg + sizeof_packet + 1) ≡ ok message)
        (answered : (net x.ip x.port message).answer
          ≡ some (wire (packet_of seq' (print n) t error' token') ++ junk'))
        (valid : IsValid (packet_of seq' (print n) t error' token'))
        (fits_answer : length (wire (packet_of seq' (print n) t error' token') ++ junk') ≤ 50)
        (small : n < 10 ^ 9) where
      written :
          worker_write mem tkn net (f ++ mem.behind) ((d ++ 0 ∷ []) ++ mem.behind) (table (x ∷ xs))
          ≡ ok (pos n, table (x ∷ xs))
      written =
          subst
            (λ b.
              worker_write mem tkn net (f ++ b) ((d ++ 0 ∷ []) ++ mem.behind) (table (x ∷ xs))
              ≡ ok (pos n, table (x ∷ xs)))
            (sym nul)
            (rw (
              append_assoc d (0 ∷ []) mem.behind,
              worker_write_lem mem tkn net f d more mem.behind message x xs is_name is_content sent,
              answered,
              written_bytes-print mem n seq' t error' token' junk' more (omega arith) valid
                  fits_answer nul,
            ))

      -- A client's WRITE of "file;data", of at most 10000 bytes, is answered with a count in
      -- decimal, and the state of the master stays as it was, if the first worker of the table
      -- answers the request for it with a packet of at most 50 bytes that holds this count and the
      -- count has at most nine digits. A NUL must stand behind each block.
      pub handle_client-write :
          length (wire (packet_of seq arg write error token) ++ junk) ≤ read_sz
          → handle_client mem tkn net worker_tkn (arrived write arg) master
            ≡ ok (some (print n ++ 0 ∷ []), master)
      unfolding serve handle_request exec_long exec_split type_code
      handle_client-write fits =
          decoded write arg tt refl short fits
          ∙ rw (
            found,
            name,
            content,
            written,
            (long2str-print n small).0,
            answer-text mem (print n) (IsText-print n),
          )
