-- ===== src/Boot/Registration.antt =====
-- A worker that starts, and the master: register_worker of src/server/boot.c and handle_client of
-- src/master.c.
use pekar_drive.Common.{
  ℕ, ◌+◌, ◌^◌, ◌<◌, ◌≤◌, ◌≡◌, refl, ap, ◌∙◌, none, some, List, [], ◌∷◌, ◌++◌, length, drop,
  All-append, length-append, take-append_length, true, le→leb, leb, arith,
}
use pekar_drive.Result.{ok}
use pekar_drive.Memory.{Bytes, Memory}
use pekar_drive.Memory.Strings.{IsText, Lacks}
use pekar_drive.Memory.Decimal.{print, IsText-print}
use pekar_drive.Packet.{register, attach_token}
use pekar_drive.Packet.Wire.{wire}
use pekar_drive.Packet.Args.{packet_of, p_init_lem, packet_of-IsValid}
use pekar_drive.ServerTable.{FileServer, table}
use pekar_drive.WorkerAdmin.{Network}
use pekar_drive.Master.{Master, handle_client, handle_packet}
use pekar_drive.Master.Register.{handle_packet-register}
use pekar_drive.Master.Requests.{handle_client-wire}
use pekar_drive.Server.Replies.{encoded-sent}
use pekar_drive.Boot.{worker_address, register_message}

module _ (mem : Memory) (ip more zeros : Bytes) (port : ℕ) (is_text : IsText ip)
    (first : Lacks b';' ip) (fits : length ip ≤ 15) (small : port < 2 ^ 16)
    (short : length (ip ++ b';' ∷ print port) ≤ 18) (behind : mem.behind ≡ 0 ∷ more)
    (room : 17 ≤ length mem.behind)
    (fresh : drop (length ip) (mem.malloc (length (ip ++ b';' ∷ print port))) ≡ 0 ∷ zeros) where
  -- The message of a worker whose address "ip;port" has at most 18 bytes and an ip of at most 15
  -- makes the master add a server with this address and the next id behind all others, and send
  -- nothing back, if there is room in the table and for the next id. A NUL must stand behind each
  -- block, which has 17 readable bytes behind it, and behind the ip where it is copied to.
  pub register_message-handle_client :
      (tkn worker_tkn : ℕ) (net : Network) (id : ℕ) (xs : List FileServer)
      → worker_tkn < 2 ^ 64
      → length xs + 1 < 2 ^ 16
      → id + 1 < 2 ^ 32
      → (message : Bytes) × (register_message mem worker_tkn ip port ≡ ok message)
        × (handle_client mem tkn net worker_tkn
              (some message)
              (record { table = table xs; worker_id = id })
            ≡ ok (
              none,
              record {
                table = table (xs ++ record { id = id; size = 0; ip = ip; port = port } ∷ []);
                worker_id = id + 1;
              },
            ))
  unfolding register_message worker_address attach_token
  register_message-handle_client tkn worker_tkn net id xs word few next =
      let s = ip ++ b';' ∷ print port in
      let is_arg : IsText s =
        All-append _ ip (b';' ∷ print port) is_text (ground arith, IsText-print port) in
      let p = packet_of 0 s register 0 worker_tkn in
      let v =
        packet_of-IsValid 0 s register 0 worker_tkn (omega arith) (omega arith) (omega arith) word
          tt in
      let longer : 1 ≤ length s = omega (arith, length-append ip (b';' ∷ print port)) in
      let (junk, sent, size) = encoded-sent mem p 40 v (omega arith) (omega arith) in
      let printed : leb (length s + 1) 21 ≡ true = le→leb _ _ (omega arith) in
      let m : Master = record { table = table xs; worker_id = id } in
      (
        wire p ++ junk,
        rw (printed, p_init_lem 0 s [] register is_arg (omega arith)) sent,
        handle_client-wire mem tkn worker_tkn net p junk m v (omega arith)
            ∙ ap (λ a. handle_packet mem tkn net worker_tkn (record p { arg = a }) m)
                (take-append_length s (0 ∷ []))
            ∙ handle_packet-register mem ip more zeros port is_text first fits small (omega arith)
                behind fresh tkn worker_tkn net (record p { arg = s }) id xs refl refl refl few
                next,
      )
