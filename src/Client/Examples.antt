-- ===== src/Client/Examples.antt =====
-- Runs of src/client on concrete command lines.
use pekar_drive.Common.{
  ◌≡◌, ◌⊎◌, All, Bool, true, false, Option, none, some, List, ◌++◌, [], ◌∷◌, arith,
}
use pekar_drive.Result.{Fault, ok, err}
use pekar_drive.Memory.{Bytes}
use pekar_drive.Memory.Sample.{zeroed}
use pekar_drive.Comm.{Sockets}
use pekar_drive.Memory.Strings.{codes}
use pekar_drive.Client.{ErrorMsg, parse_args, main}
use pekar_drive.Client.Settings.{get_master_host, get_master_port}
use pekar_drive.Memory.Scan.{IsHost}
use pekar_drive.Client.Settings.Refinement.{
  Command, set_host, set_port, IsValid, perform_all, settings-refinement,
}
use pekar_drive.Client.Arguments.{Outcome, ends, parse_args_lem, main-ends}

parse_args_lem_example :
    (r : Bool × ErrorMsg) × (parse_args (codes "drive" ∷ codes "write" ∷ codes "note" ∷ []) 3 none
      ≡ ok r)
    × Outcome false false none r
parse_args_lem_example =
    parse_args_lem (codes "drive") (codes "write") (codes "note" ∷ []) none (omega arith)

-- The address in the configuration is longer than its block.
main-ends_example :
    (ends
        (main zeroed (some (codes "100.100.100.100.100\n1\n")) (codes "drive" ∷ codes "ls" ∷ []) 2)
      ≡ true)
    ⊎ ((f : Fault) × (get_master_host zeroed (some (codes "100.100.100.100.100\n1\n")) ≡ err f)
        × (main zeroed (some (codes "100.100.100.100.100\n1\n")) (codes "drive" ∷ codes "ls" ∷ []) 2
            ≡ err f))
main-ends_example =
    main-ends zeroed (some (codes "100.100.100.100.100\n1\n")) (codes "drive" ∷ codes "ls" ∷ [])

abbrev commands : List Command
commands = set_port 55443 ∷ set_host (codes "127.0.0.1") ∷ []

address-IsHost : IsHost (codes "10.0.0.7")
address-IsHost = ground arith

commands-IsValid : All IsValid commands
commands-IsValid = (omega arith, (ground arith, tt))

settings-refinement_example :
    (file : Option Bytes) × (rest : Bytes) × (perform_all zeroed none
        (set_host (codes "10.0.0.7") ∷ commands)
      ≡ ok file)
    × (get_master_host zeroed file ≡ ok (some (codes "127.0.0.1" ++ 0 ∷ rest)))
    × (get_master_port zeroed file ≡ ok 55443)
settings-refinement_example =
    settings-refinement zeroed (codes "10.0.0.7") commands address-IsHost commands-IsValid

abbrev offline : Sockets
offline = record {
  socket = none;
  set_receive_timeout = λ fd. true;
  set_send_timeout = λ fd. true;
  inet_pton = λ host. true;
  connect = λ fd host port. true;
  set_reuse = λ fd. true;
  bind = λ fd port. true;
  listen = λ fd. true;
  accept = λ fd. none;
}
