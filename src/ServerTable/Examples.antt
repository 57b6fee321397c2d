-- ===== src/ServerTable/Examples.antt =====
-- Runs of src/server_table.c on a table of three servers.
use pekar_drive.Common.{ℕ, ◌≡◌, refl, some, List, [], ◌∷◌, arith}
use pekar_drive.Result.{ok}
use pekar_drive.Memory.Strings.{codes}
use pekar_drive.ServerTable.{
  FileServer, Table, table, add_server, remove_server, getfs_id, getfs_index,
}
use pekar_drive.ServerTable.Remove.{without, remove_server-without}
use pekar_drive.ServerTable.Laws.{IsUnique, remove_server-add_server}

abbrev server : ℕ → FileServer
server id = record { id = id; size = 0; ip = codes "10.0.0.1"; port = 55444 }

abbrev three : List FileServer
three = server 1 ∷ server 2 ∷ server 4 ∷ []

remove_server-without_example : remove_server 2 (table three) ≡ ok (table (without 2 three))
remove_server-without_example = remove_server-without 2 three

removed_run : without 2 three ≡ server 1 ∷ server 4 ∷ []
removed_run = refl

three-IsUnique : IsUnique three
three-IsUnique = ground arith

remove_server-add_server_example :
    (t : Table) × (add_server (server 5) (table three) ≡ ok t)
    × (getfs_id 5 t ≡ ok (some 3, t))
    × (getfs_index 3 t ≡ ok (some 3, t))
    × (remove_server 5 t ≡ ok (table three))
remove_server-add_server_example =
    remove_server-add_server (server 5) three (omega arith) (ground arith)
