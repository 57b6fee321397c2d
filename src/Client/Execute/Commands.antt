-- ===== src/Client/Execute/Commands.antt =====
-- The commands that set the address of the master, from the command line to the configuration file.
use pekar_drive.Common.{◌%◌, ◌^◌, ◌≡◌, refl, true, Option, some, List, [], ◌∷◌, arith}
use pekar_drive.Result.{ok, ◌>>=◌}
use pekar_drive.Memory.{Bytes, Memory}
use pekar_drive.Memory.Strings.{codes}
use pekar_drive.Memory.Decimal.{print}
use pekar_drive.Comm.{Sockets}
use pekar_drive.Interface.Write.{atoi-print}
use pekar_drive.Client.{
  Call, parse_args, parse_operation, parse_named, parse_set_ip, parse_set_port, operation_handler,
  main,
}
use pekar_drive.Client.Settings.Refinement.{Command, set_host, set_port, IsValid, perform}
use pekar_drive.Client.Execute.{exec_set_ip, exec_set_port, execute}

-- What is typed for a command behind the name of the program, and the call that it stands for.
abbrev pub words : Command → List Bytes
words (set_host host) = codes "set-ip" ∷ host ∷ []
words (set_port port) = codes "set-port" ∷ print port ∷ []

abbrev pub call_of : Command → Call
call_of (set_host host) = Call.exec_set_ip host
call_of (set_port port) = Call.exec_set_port (print port)

main-words :
    (mem : Memory) (program : Bytes) (c : Command) (config : Option Bytes)
    → main mem config (program ∷ words c) 3 ≡ ok (some (call_of c))
unfolding main parse_args parse_operation parse_named parse_set_ip parse_set_port operation_handler
main-words mem program (set_host host) config = refl
main-words mem program (set_port port) config = refl

execute-perform :
    (mem : Memory) (sys : Sockets) (reply : Bytes → List Bytes) (c : Command)
    (config : Option Bytes)
    → IsValid c
    → execute mem sys reply true (call_of c) config
      ≡ (perform mem config c >>= λ config'. ok ([], config'))
unfolding execute exec_set_ip exec_set_port
execute-perform mem sys reply (set_host host) config v = refl
execute-perform mem sys reply (set_port port) config v =
    let word : port % 2 ^ 16 ≡ port = omega arith in rw (atoi-print port [] (omega arith), word)

-- The command lines set-ip with an address of one to fifteen digits and dots, and set-port with the
-- decimal text of a port below 2^16, are accepted and dispatched to the call that prints nothing
-- and does to the configuration file what set_master_host or set_master_port does with the address
-- or the port.
pub execute-main :
    (mem : Memory) (sys : Sockets) (reply : Bytes → List Bytes) (program : Bytes) (c : Command)
    (config : Option Bytes)
    → IsValid c
    → (call : Call) × (main mem config (program ∷ words c) 3 ≡ ok (some call))
      × (execute mem sys reply true call config
          ≡ (perform mem config c >>= λ config'. ok ([], config')))
execute-main mem sys reply program c config v =
    (call_of c, main-words mem program c config, execute-perform mem sys reply c config v)
