-- ===== src/Master/Register.antt =====
-- Registration of workers: handle_client of src/master.c on REGISTER packets.
use pekar_drive.Common.{
  ℕ, ◌+◌, ◌%◌, ◌^◌, ◌<◌, ◌≤◌, ◌≡◌, ◌≢◌, sym, ap, subst, ◌∙◌, none, List, [], ◌∷◌, ◌++◌,
  append_assoc, length, drop, All-append, lt→ltb, ◌==◌, true, false, le→leb, arith,
}
use pekar_drive.Result.{ok}
use pekar_drive.Memory.{Bytes, Memory}
use pekar_drive.Memory.Strings.{IsText, Lacks, text-append}
use pekar_drive.Memory.Decimal.{print, IsText-print}
use pekar_drive.Packet.{Packet, register}
use pekar_drive.ServerTable.{FileServer, table}
use pekar_drive.ServerTable.Laws.{add_server_lem}
use pekar_drive.WorkerAdmin.{Network, add_worker}
use pekar_drive.Master.{Master, parse_ip, parse_port, new_worker, register_worker, handle_packet}
use pekar_drive.Master.CharAt.{parse_port-print, parse_ip-block}

module _ (mem : Memory) (ip more zeros : Bytes) (port : ℕ) (is_text : IsText ip)
    (first : Lacks b';' ip) (fits : length ip ≤ 15) (small : port < 2 ^ 16)
    (short : length (ip ++ b';' ∷ print port) < 2 ^ 32) (behind : mem.behind ≡ 0 ∷ more)
    (fresh : drop (length ip) (mem.malloc (length (ip ++ b';' ∷ print port))) ≡ 0 ∷ zeros) where
  abbrev worker : ℕ → FileServer
  worker id = record { id = id; size = 0; ip = ip; port = port }

  new_worker_lem :
      (id : ℕ) → new_worker mem ((ip ++ b';' ∷ print port) ++ mem.behind) id ≡ ok (worker id)
  unfolding new_worker
  new_worker_lem id =
      let is_arg : IsText (ip ++ b';' ∷ print port) =
        All-append _ ip (b';' ∷ print port) is_text (ground arith, IsText-print port) in
      let arg = ip ++ b';' ∷ print port in
      let read_port : parse_port (arg ++ mem.behind) ≡ ok port =
        subst (λ m. parse_port (arg ++ m) ≡ ok port) (sym behind)
          (parse_port-print ip more port is_text first short small) in
      let read_ip : parse_ip mem (arg ++ mem.behind) ≡ ok (ip ++ 0 ∷ zeros) =
        subst (λ m. parse_ip mem (arg ++ m) ≡ ok (ip ++ 0 ∷ zeros)) (sym behind)
          (parse_ip-block mem ip (print port) more is_arg first short
            ∙ ap (λ z. ok (ip ++ z)) fresh) in
      rw (
        read_port,
        read_ip,
        append_assoc ip (0 ∷ zeros) mem.behind,
        text-append ip (zeros ++ mem.behind) is_text,
        le→leb (length ip + 1) 16 (omega arith),
      )

  -- A REGISTER packet with the workers' token and the argument "ip;port" adds a server with this
  -- address and the next id behind all others, and nothing is sent back. There must be room in the
  -- table and for the next id, the ip has at most 15 bytes, and a NUL must stand behind the decoded
  -- argument and behind the address where it is copied to.
  pub handle_packet-register :
      (tkn worker_tkn : ℕ) (net : Network) (p : Packet) (id : ℕ) (xs : List FileServer)
      → p.msg_type ≡ register
      → p.token ≡ worker_tkn
      → p.arg ≡ ip ++ b';' ∷ print port
      → length xs + 1 < 2 ^ 16
      → id + 1 < 2 ^ 32
      → handle_packet mem tkn net worker_tkn p (record { table = table xs; worker_id = id })
        ≡ ok (none, record { table = table (xs ++ worker id ∷ []); worker_id = id + 1 })
  unfolding handle_packet register_worker
  handle_packet-register tkn worker_tkn net p id xs ht hk ha room next =
      let token : (p.token == worker_tkn) ≡ true = ground arith in
      let added : add_worker (worker id) (table xs) ≡ ok (table (xs ++ worker id ∷ [])) =
        unfold add_worker in
        rw (add_server_lem (worker id) xs (omega arith), lt→ltb (length xs + 1) (2 ^ 16) room) in
      let wrap : (id + 1) % 2 ^ 32 ≡ id + 1 = omega arith in
      rw (ht, token, ha, new_worker_lem id, added, wrap)

-- A REGISTER packet with any other token changes nothing, and nothing is sent back.
pub handle_packet-unregistered :
    (mem : Memory) (tkn worker_tkn : ℕ) (net : Network) (p : Packet) (m : Master)
    → p.msg_type ≡ register
    → p.token ≢ worker_tkn
    → handle_packet mem tkn net worker_tkn p m ≡ ok (none, m)
unfolding handle_packet register_worker
handle_packet-unregistered mem tkn worker_tkn net p m ht hk =
    let token : (p.token == worker_tkn) ≡ false = ground arith in rw (ht, token)
