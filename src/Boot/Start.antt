-- ===== src/Boot/Start.antt =====
-- The boot of a worker, src/server/boot.c, up to the master.
use pekar_drive.Common.{
  ℕ, suc, ◌+◌, ◌^◌, ◌<◌, ◌≤◌, ◌≡◌, ◌≢◌, refl, ap, ◌∙◌, true, false, none, some, List, [], ◌∷◌, ◌++◌,
  append_assoc, length, length-append, drop, All, ◌==◌, arith,
}
use pekar_drive.Result.{ok}
use pekar_drive.Memory.{Bytes, Memory, store-append}
use pekar_drive.Memory.Strings.{codes, Lacks, text, text-append}
use pekar_drive.Memory.Decimal.{print, length-print}
use pekar_drive.Memory.Scan.{IsHost, is_host, host-IsText, host_of, scan_set-append}
use pekar_drive.Comm.{Conn, Sockets, client_init, get_ip, port}
use pekar_drive.Fs.{set_dir}
use pekar_drive.ServerTable.{FileServer, table}
use pekar_drive.WorkerAdmin.{Network}
use pekar_drive.Master.{handle_client}
use pekar_drive.Boot.{register_message, send_until, boot_register, data_init, boot}
use pekar_drive.Boot.Registration.{register_message-handle_client}

-- The address in front of a byte that ends it.
get_ip-append :
    (mem : Memory) (ip rest : Bytes) (c : ℕ)
    → IsHost ip
    → is_host c ≡ false
    → get_ip mem (some (ip ++ c ∷ rest))
      ≡ ok ((ip ++ 0 ∷ []) ++ drop (length (ip ++ 0 ∷ [])) (mem.malloc 16))
unfolding get_ip host_of
get_ip-append mem ip rest c (allowed, pos, room) e = rw (
    scan_set-append is_host ip rest (mem.malloc 16) c allowed e pos
      (omega (arith, mem.length-malloc 16)))

data_init_lem :
    (mem : Memory) (dir : Bytes)
    → (command : Bytes) × (data_init mem dir
        ≡ ok ((codes "mkdir " ++ dir) ++ 0 ∷ command, some dir))
unfolding data_init set_dir
data_init_lem mem dir =
    let out = codes "mkdir " ++ (dir ++ 0 ∷ []) in
    let block = mem.malloc (length dir + 10) in
    (
      drop (length out) block,
      rw
          (store-append [] block out 0 refl
            (omega (arith, mem.length-malloc (length dir + 10), length-append dir (0 ∷ []))))
          (ap (λ b. ok (codes "mkdir " ++ b, some dir))
            (append_assoc dir (0 ∷ []) (drop (length out) block))),
    )

host-Lacks : (ip : Bytes) → All (λ c. is_host c ≡ true) ip → Lacks b';' ip
host-Lacks [] h = tt
host-Lacks (c ∷ ip) h = (let e = h.0 in ground (arith, e), host-Lacks ip h.1)

send_until-first :
    (counts : ℕ → ℕ) (fuel : ℕ) → counts 0 ≢ 0 → send_until counts (suc fuel) 0 ≡ ok 1
unfolding send_until
send_until-first counts fuel h = let e : (counts 0 == 0) ≡ false = ground arith in rw e

module _ (mem : Memory) (ip rest more zeros : Bytes) (c : ℕ) (address : IsHost ip)
    (end : is_host c ≡ false) (short : length ip ≤ 12) (behind : mem.behind ≡ 0 ∷ more)
    (room : 17 ≤ length mem.behind)
    (fresh : drop (length ip) (mem.malloc (length (ip ++ b';' ∷ print port))) ≡ 0 ∷ zeros) where
  boot_register-sends :
      (sys : Sockets) (counts : ℕ → ℕ) (fuel : ℕ) (host : Bytes) (master_port worker_tkn : ℕ)
      (connection : Conn) (message : Bytes)
      → client_init sys host master_port ≡ ok connection
      → connection.error ≡ false
      → counts 0 ≢ 0
      → register_message mem worker_tkn ip port ≡ ok message
      → boot_register mem sys counts (suc fuel) host master_port worker_tkn (some (ip ++ c ∷ rest))
        ≡ ok (true, some (1, message))
  unfolding boot_register
  boot_register-sends sys counts fuel host master_port worker_tkn connection message connected
        usable sent made =
      let tail = drop (length (ip ++ 0 ∷ [])) (mem.malloc 16) in
      let read : text (((ip ++ 0 ∷ []) ++ tail) ++ mem.behind) ≡ ok ip =
        ap text (
          append_assoc (ip ++ 0 ∷ []) tail mem.behind
          ∙ append_assoc ip (0 ∷ []) (tail ++ mem.behind))
        ∙ text-append ip (tail ++ mem.behind) (host-IsText ip address.0) in
      rw (
        connected,
        usable,
        get_ip-append mem ip rest c address end,
        read,
        made,
        send_until-first counts fuel sent,
      )

  -- A worker that boots, where `hostname` prints an address of at most twelve digits and dots and
  -- then another byte, which can connect to the master and whose first send gives a count other
  -- than 0, asks the shell for its directory, works in it, and sends one message, which makes the
  -- master add a server with this address and the port of the workers behind all others, if there
  -- is room in the table and for the next id. A NUL must stand behind each block, which has 17
  -- readable bytes behind it, and behind the ip where the master copies it to.
  pub boot-handle_client :
      (sys : Sockets) (counts : ℕ → ℕ) (fuel : ℕ) (dir host : Bytes) (master_port : ℕ)
      (connection : Conn) (tkn worker_tkn : ℕ) (net : Network) (id : ℕ) (xs : List FileServer)
      → client_init sys host master_port ≡ ok connection
      → connection.error ≡ false
      → counts 0 ≢ 0
      → worker_tkn < 2 ^ 64
      → length xs + 1 < 2 ^ 16
      → id + 1 < 2 ^ 32
      → (message : Bytes) × (command : Bytes) × (boot mem sys counts
            (suc fuel)
            dir
            host
            master_port
            worker_tkn
            (some (ip ++ c ∷ rest))
          ≡ ok (record {
            succeeded = true;
            sent = some (1, message);
            command = (codes "mkdir " ++ dir) ++ 0 ∷ command;
            work_dir = some dir;
          }))
        × (handle_client mem tkn net worker_tkn
              (some message)
              (record { table = table xs; worker_id = id })
            ≡ ok (
              none,
              record {
                table = table (xs ++ record { id = id; size = 0; ip = ip; port = port } ∷ []);
                worker_id = id + 1;
              },
            ))
  unfolding boot
  boot-handle_client sys counts fuel dir host master_port connection tkn worker_tkn net id xs
        connected usable sent word few next =
      let size : length (ip ++ b';' ∷ print port) ≤ 18 =
        omega (arith, length-append ip (b';' ∷ print port), length-print port 4 (omega arith)) in
      let (message, made, handled) =
        register_message-handle_client mem ip more zeros port (host-IsText ip address.0)
          (host-Lacks ip address.0) (omega arith) (omega arith) size behind room fresh tkn
          worker_tkn net id xs word few next in
      let (command, prepared) = data_init_lem mem dir in
      let registered =
        boot_register-sends sys counts fuel host master_port worker_tkn connection message connected
          usable sent made in
      (message, command, rw (prepared, registered), handled)
