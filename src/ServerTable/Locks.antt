-- ===== src/ServerTable/Locks.antt =====
-- The mutex of src/server_table.c, and the loop that runs while it is held.
use pekar_drive.Common.{
  ℕ, zero, suc, ◌+◌, ◌-◌, ◌^◌, ◌<◌, ◌≤◌, ◌≡◌, ◌≢◌, sym, ap, subst, ◌∙◌, Bool, true, false, List, [],
  ◌∷◌, ◌++◌, length, Bool-cases, ◌⊎◌, inl, inr, length-append, subst₂, lt→ltb, ltb, arith,
}
use pekar_drive.Result.{
  Result, Fault, ok, err, Result-cases, >>=-eq-ok, ok-injective, deadlock, out_of_fuel, ◌>>=◌,
}
use pekar_drive.ServerTable.{
  FileServer, Table, table, add_server, remove_server, getfs_id, getfs_pred, unlock, each_from,
  for_each_server,
}

-- The table while a thread holds its mutex.
abbrev pub held : List FileServer → Table
held xs = record (table xs) { locked = true }

-- While the mutex is held, add_server, remove_server, getfs_id, getfs_pred and for_each_server do
-- not return.
pub held_deadlock :
    (t : Table)
    → t.locked ≡ true
    → ((s : FileServer) → add_server s t ≡ err deadlock)
      × ((id : ℕ) → remove_server id t ≡ err deadlock)
      × ((id : ℕ) → getfs_id id t ≡ err deadlock)
      × ((pred : FileServer → Bool) → getfs_pred pred t ≡ err deadlock)
      × ((apply : ℕ → Table → Result Table) → for_each_server apply t ≡ err deadlock)
unfolding add_server remove_server getfs_id getfs_pred for_each_server
held_deadlock t h = (λ s. rw h, λ id. rw h, λ id. rw h, λ pred. rw h, λ apply. rw h)

-- One round of the loop after the entries that were visited.
each_from_next :
    (apply : ℕ → Table → Result Table) (fuel i : ℕ) (t : Table)
    → i < t.server_count
    → each_from apply (suc fuel) i t ≡ (apply i t >>= λ t'. each_from apply fuel (i + 1) t')
unfolding each_from
each_from_next apply fuel i t h = rw (lt→ltb i t.server_count h, each_from)

each_from_done :
    (apply : ℕ → Table → Result Table) (fuel i : ℕ) (t : Table)
    → t.server_count ≤ i
    → 0 < fuel
    → each_from apply fuel i t ≡ ok t
each_from_done apply zero i t h k = absurd (omega arith)
each_from_done apply (suc fuel) i t h k =
    let e : ltb i t.server_count ≡ false = ground arith in unfold each_from in rw (e, each_from)

-- The loop over entries that `apply` leaves in place, up to the first for which it does not.
pub each_from-stop :
    (apply : ℕ → Table → Result Table) (pre : List FileServer) (t : Table) (fuel i : ℕ)
    → ((j : ℕ) → i ≤ j → j < i + length pre → apply j t ≡ ok t)
    → i + length pre ≤ t.server_count
    → each_from apply (length pre + fuel) i t ≡ each_from apply fuel (i + length pre) t
each_from-stop apply [] t fuel i keep h =
    let e : zero + fuel ≡ fuel = omega arith in let e' : i + zero ≡ i = omega arith in rw (e, e')
each_from-stop apply (x ∷ pre) t fuel i keep h =
    let e : suc (length pre) + fuel ≡ suc (length pre + fuel) = omega arith in
    let e' : i + 1 + length pre ≡ i + suc (length pre) = omega arith in
    rw
      (
        e,
        each_from_next apply (length pre + fuel) i t (omega arith),
        keep i (omega arith) (omega arith),
        ← e',
      )
      (each_from-stop apply pre t fuel (i + 1) (λ j a b. keep j (omega arith) (omega arith))
        (omega arith))

each_from-all :
    (apply : ℕ → Table → Result Table) (pre : List FileServer) (t : Table)
    → ((j : ℕ) → j < length pre → apply j t ≡ ok t)
    → length pre ≤ t.server_count
    → length pre < 2 ^ 16
    → each_from apply (2 ^ 16) 0 t ≡ each_from apply (2 ^ 16 - length pre) (length pre) t
each_from-all apply pre t keep h k =
    let e : length pre + (2 ^ 16 - length pre) ≡ 2 ^ 16 = omega arith in
    let e' : 0 + length pre ≡ length pre = omega arith in
    subst₂ (λ n i. each_from apply n 0 t ≡ each_from apply (2 ^ 16 - length pre) i t) e e'
      (each_from-stop apply pre t (2 ^ 16 - length pre) 0 (λ j _ b. keep j (omega arith))
        (omega arith))

each_from-ends :
    (apply : ℕ → Table → Result Table)
    → ((i : ℕ) (t : Table) → apply i t ≢ err out_of_fuel)
    → ((i : ℕ) (t t' : Table) → apply i t ≡ ok t' → t'.server_count ≡ t.server_count)
    → (fuel i : ℕ) (t : Table) → i ≤ t.server_count
    → t.server_count < i + fuel
    → each_from apply fuel i t ≢ err out_of_fuel
each_from-ends apply ends keeps zero i t h k = absurd (omega arith)
each_from-ends apply ends keeps (suc fuel) i t h k = elim (Bool-cases (ltb i t.server_count)) [
  | inr done ↦
      let e : each_from apply (suc fuel) i t ≡ ok t = unfold each_from in rw (done, each_from) in
      λ p. cc
  | inl more ↦ elim (Result-cases (apply i t)) [
    | inl (t', e) ↦
        let c : t'.server_count ≡ t.server_count = keeps i t t' e in
        rw (each_from_next apply fuel i t (ground arith), e)
          (each_from-ends apply ends keeps fuel (i + 1) t' (ground arith) (omega arith))
    | inr (x, e) ↦ rw (each_from_next apply fuel i t (ground arith), e) (λ p. ends i t (e ∙ p))
  ]
]

-- The loop of for_each_server does not run out of its fuel, for a table of fewer than 65536 servers
-- and an apply that does not run out of fuel and leaves the count of servers as it is.
pub for_each_server-ends :
    (apply : ℕ → Table → Result Table) (xs : List FileServer)
    → ((i : ℕ) (t : Table) → apply i t ≢ err out_of_fuel)
    → ((i : ℕ) (t t' : Table) → apply i t ≡ ok t' → t'.server_count ≡ t.server_count)
    → length xs < 2 ^ 16
    → for_each_server apply (table xs) ≢ err out_of_fuel
unfolding for_each_server
for_each_server-ends apply xs ends keeps h p =
    split (Result-cases (each_from apply (2 ^ 16) 0 (held xs)))
  where
    split :
        ((t : Table) × (each_from apply (2 ^ 16) 0 (held xs) ≡ ok t))
          ⊎ ((e : Fault) × (each_from apply (2 ^ 16) 0 (held xs) ≡ err e))
        → ⊥
    split (inl (t, e)) = let q : ok (unlock t) ≡ err out_of_fuel = rw e at p in cc
    split (inr (x, e)) =
        let q : ◌≡◌ {A = Result Table} (err x) (err out_of_fuel) = rw e at p in
        each_from-ends apply ends keeps (2 ^ 16) 0 (held xs) (omega arith) (omega arith)
          (e ∙ ap err (cc))

-- If `apply` leaves the table alone for each entry, so does the loop, and the mutex is free again.
pub for_each_server-same :
    (apply : ℕ → Table → Result Table) (xs : List FileServer)
    → length xs < 2 ^ 16
    → ((i : ℕ) → i < length xs → apply i (held xs) ≡ ok (held xs))
    → for_each_server apply (table xs) ≡ ok (table xs)
unfolding for_each_server
for_each_server-same apply xs h keep =
    let e : each_from apply (2 ^ 16) 0 (held xs) ≡ ok (held xs) =
      each_from-all apply xs (held xs) keep (omega arith) h
      ∙ each_from_done apply (2 ^ 16 - length xs) (length xs) (held xs) (omega arith)
          (omega arith) in
    rw e

-- If `apply` leaves the table alone for the entries in front of one, and fails there, so does the loop.
pub for_each_server-fails :
    (apply : ℕ → Table → Result Table) (pre : List FileServer) (x : FileServer)
    (xs : List FileServer) (e : Fault)
    → length (pre ++ x ∷ xs) < 2 ^ 16
    → ((i : ℕ) → i < length pre → apply i (held (pre ++ x ∷ xs)) ≡ ok (held (pre ++ x ∷ xs)))
    → apply (length pre) (held (pre ++ x ∷ xs)) ≡ err e
    → for_each_server apply (table (pre ++ x ∷ xs)) ≡ err e
unfolding for_each_server
for_each_server-fails apply pre x xs e h keep fails =
    let t = held (pre ++ x ∷ xs) in
    let size : length (pre ++ x ∷ xs) ≡ length pre + suc (length xs) = length-append pre (x ∷ xs) in
    let fuel : 2 ^ 16 - length pre ≡ suc (2 ^ 16 - length pre - 1) = omega arith in
    let stop : each_from apply (2 ^ 16) 0 t ≡ err e =
      each_from-all apply pre t keep (omega arith) (omega arith)
      ∙ ap (λ n. each_from apply n (length pre) t) fuel
      ∙ each_from_next apply (2 ^ 16 - length pre - 1) (length pre) t (omega arith)
      ∙ ap (λ r. r >>= λ t'. each_from apply (2 ^ 16 - length pre - 1) (length pre + 1) t') fails in
    rw stop

each_from-unchanged :
    (apply : ℕ → Table → Result Table) (t : Table)
    → ((i : ℕ) (t' : Table) → apply i t ≡ ok t' → t' ≡ t)
    → (fuel i : ℕ) (t' : Table) → each_from apply fuel i t ≡ ok t'
    → t' ≡ t
each_from-unchanged apply t keeps zero i t' h =
    let e : err out_of_fuel ≡ ok t' = unfold each_from in h in cc
each_from-unchanged apply t keeps (suc fuel) i t' h = elim (Bool-cases (ltb i t.server_count)) [
  | inr done ↦
      let e : each_from apply (suc fuel) i t ≡ ok t = unfold each_from in rw (done, each_from) in
      sym (ok-injective (sym e ∙ h))
  | inl more ↦
      let (u, e, rest) =
        >>=-eq-ok (apply i t) _ (sym (each_from_next apply fuel i t (ground arith)) ∙ h) in
      each_from-unchanged apply t keeps fuel (i + 1) t'
        (subst (λ v. each_from apply fuel (i + 1) v ≡ ok t') (keeps i u e) rest)
]

-- If `apply` leaves the table alone wherever it returns, so does the loop where it returns.
pub for_each_server-unchanged :
    (apply : ℕ → Table → Result Table) (xs : List FileServer) (t : Table)
    → ((i : ℕ) (t' : Table) → apply i (held xs) ≡ ok t' → t' ≡ held xs)
    → for_each_server apply (table xs) ≡ ok t
    → t ≡ table xs
unfolding for_each_server unlock
for_each_server-unchanged apply xs t keeps h =
    let (t', e, rest) = >>=-eq-ok (each_from apply (2 ^ 16) 0 (held xs)) _ h in
    sym (ok-injective rest) ∙ ap unlock (each_from-unchanged apply (held xs) keeps (2 ^ 16) 0 t' e)
