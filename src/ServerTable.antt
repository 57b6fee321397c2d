-- ===== src/ServerTable.antt =====
-- The table of file servers of the master: src/server_table.h and src/server_table.c.
-- The globals are the record `Table`; a pointer into the table is the index of its entry.
pub mod Search
pub mod Remove
pub mod Laws
pub mod Locks
pub mod Examples
use pekar_drive.Common.{
  ℕ, zero, suc, ◌+◌, ◌-◌, ◌%◌, ◌^◌, Bool, true, false, Option, none, some, List, [], ◌∷◌, ◌++◌,
  length, get_elem?, set, take, ltb, leb, ◌==◌, if◌then◌else◌,
}
use pekar_drive.Result.{Result, ok, err, out_of_bounds, deadlock, out_of_fuel, ◌>>=◌}
use pekar_drive.Memory.{Bytes}

-- `struct file_server`; `ip` is the string of `location.ip`. No code sets a negative `size`.
pub record FileServer : Type 0 where
  pub id : ℕ
  pub size : ℕ
  pub ip : Bytes
  pub port : ℕ

-- `server_table`, `server_count` and whether `mutex` is held.
pub record Table : Type 0 where
  pub servers : List FileServer
  pub server_count : ℕ
  pub locked : Bool

-- `pthread_mutex_lock` on a default mutex: the thread that holds it waits for ever.
unfoldable pub lock : Table → Result Table
lock t = if t.locked then err deadlock else ok (record t { locked = true })

unfoldable pub unlock : Table → Table
unlock t = record t { locked = false }

-- `server_table[i]`, read and written.
unfoldable pub entry : List FileServer → ℕ → Result FileServer
entry servers i = elim (get_elem? servers i) [ some s ↦ ok s | none ↦ err out_of_bounds ]

unfoldable pub set_entry : List FileServer → ℕ → FileServer → Result (List FileServer)
set_entry servers i s = if ltb i (length servers) then ok (set servers i s) else err out_of_bounds

-- `realloc` to `n` entries and the write of the last one. The entries in front of it are the old
-- ones: there are as many, or the table would hold entries that were never set. `server_count` is an
-- `unsigned short`: behind 65535 entries the write goes to the index -1.
unfoldable pub push_entry : List FileServer → ℕ → FileServer → Result (List FileServer)
push_entry servers zero s = err out_of_bounds
push_entry servers (suc n) s =
    if leb n (length servers) then ok (take n servers ++ s ∷ []) else err out_of_bounds

unfoldable pub add_server : FileServer → Table → Result Table
unfolding lock unlock push_entry
add_server server t = do
  t ← lock t
  let count = (t.server_count + 1) % 2 ^ 16
  servers ← push_entry t.servers count server
  ok (unlock (record t { servers = servers; server_count = count }))

-- The loops that look for the first entry that passes a test: `rounds` entries from the index `i` on.
unfoldable pub first_from : (FileServer → Bool) → List FileServer → ℕ → ℕ → Result (Option ℕ)
unfolding entry
first_from test servers zero i = ok none
first_from test servers (suc rounds) i = do
  s ← entry servers i
  let rest = first_from test servers rounds (i + 1)
  if test s then ok (some i) else rest

-- -1 is `none`
unfoldable pub indexof : ℕ → Table → Result (Option ℕ)
unfolding first_from
indexof id t = first_from (λ s. s.id == id) t.servers t.server_count 0

-- `for (; i + 1 < server_count; i++) server_table[i] = server_table[i + 1];` for `rounds` rounds.
unfoldable pub shift_down : List FileServer → ℕ → ℕ → Result (List FileServer)
unfolding entry set_entry
shift_down servers zero i = ok servers
shift_down servers (suc rounds) i = do
  s ← entry servers (i + 1)
  servers' ← set_entry servers i s
  shift_down servers' rounds (i + 1)

-- What remove_server does with the index that it found.
unfoldable pub remove_at : Option ℕ → Table → Result Table
unfolding shift_down unlock
remove_at none t = ok (unlock t)
remove_at (some i) t = do
  servers ← shift_down t.servers (t.server_count - (i + 1)) i
  let count = t.server_count - 1
  ok (unlock (record t { servers = take count servers; server_count = count }))

unfoldable pub remove_server : ℕ → Table → Result Table
unfolding lock indexof remove_at
remove_server id t = do t ← lock t; file_server_idx ← indexof id t; remove_at file_server_idx t

-- `apply` is handed the pointer to each entry while the mutex is held. The bound is read anew in each
-- round, so the loop takes fuel.
unfoldable pub each_from : (ℕ → Table → Result Table) → ℕ → ℕ → Table → Result Table
each_from apply zero i t = err out_of_fuel
each_from apply (suc fuel) i t = elim (ltb i t.server_count) [
  | true ↦ (do t' ← apply i t; each_from apply fuel (i + 1) t')
  | false ↦ ok t
]

-- `server_count` is below 65536, and so is the number of rounds.
unfoldable pub for_each_server : (ℕ → Table → Result Table) → Table → Result Table
unfolding lock unlock
for_each_server apply t = do t ← lock t; t ← each_from apply (2 ^ 16) 0 t; ok (unlock t)

unfoldable pub getfs_id : ℕ → Table → Result (Option ℕ × Table)
unfolding lock unlock first_from
getfs_id id t = do
  t ← lock t
  i ← first_from (λ s. s.id == id) t.servers t.server_count 0
  ok (i, unlock t)

unfoldable pub getfs_index : ℕ → Table → Result (Option ℕ × Table)
unfolding lock unlock
getfs_index index t =
    if leb t.server_count index then ok (none, t) else do t ← lock t; ok (some index, unlock t)

unfoldable pub getfs_pred : (FileServer → Bool) → Table → Result (Option ℕ × Table)
unfolding lock unlock first_from
getfs_pred pred t = do t ← lock t; i ← first_from pred t.servers t.server_count 0; ok (i, unlock t)

unfoldable pub table_count : Table → ℕ
table_count t = t.server_count

-- The table that holds these servers, with the mutex free.
abbrev pub table : List FileServer → Table
table xs = record { servers = xs; server_count = length xs; locked = false }
