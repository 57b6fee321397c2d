-- ===== src/ServerTable/Remove.antt =====
-- remove_server of src/server_table.c refines the removal of one entry from a list.
use pekar_drive.Common.{
  find_index, find_index-none, find_index-middle, find_index-some, ℕ, ◌+◌, ◌-◌, ◌≡◌, refl, sym, ap,
  ◌∙◌, true, false, Option, none, some, List, [], ◌∷◌, ◌++◌, append_assoc, length, take, set, All,
  length-append, take-append_length, lt→ltb, if◌then◌else◌, ◌==◌, arith,
}
use pekar_drive.Result.{ok}
use pekar_drive.ServerTable.{FileServer, table, entry, set_entry, shift_down, remove_server}
use pekar_drive.ServerTable.Search.{first_from-find_index, entry-middle}

-- The list without the first server of the given id.
abbrev pub without : ℕ → List FileServer → List FileServer
without id [] = []
without id (x ∷ xs) = if x.id == id then xs else x ∷ without id xs

set-middle {ℓ} :
    {A : Type ℓ} (pre : List A) (x y : A) (xs : List A)
    → set (pre ++ x ∷ xs) (length pre) y ≡ pre ++ y ∷ xs
set-middle [] x y xs = refl
set-middle (z ∷ pre) x y xs = ap (λ t. z ∷ t) (set-middle pre x y xs)

set_entry-middle :
    (pre : List FileServer) (x y : FileServer) (xs : List FileServer)
    → set_entry (pre ++ x ∷ xs) (length pre) y ≡ ok (pre ++ y ∷ xs)
unfolding set_entry
set_entry-middle pre x y xs = rw (
  lt→ltb (length pre) (length (pre ++ x ∷ xs)) (omega (arith, length-append pre (x ∷ xs))),
  set-middle pre x y xs,
)

abbrev last : FileServer → List FileServer → FileServer
last x [] = x
last x (y ∷ ys) = last y ys

-- The loop moves what stands behind the index down by one, and leaves the last entry twice.
shift_down_lem :
    (pre : List FileServer) (x : FileServer) (xs : List FileServer)
    → shift_down (pre ++ x ∷ xs) (length xs) (length pre) ≡ ok (pre ++ (xs ++ last x xs ∷ []))
unfolding shift_down
shift_down_lem pre x [] = refl
shift_down_lem pre x (y ∷ ys) =
    let regroup : pre ++ x ∷ y ∷ ys ≡ (pre ++ x ∷ []) ++ y ∷ ys =
      sym (append_assoc pre (x ∷ []) (y ∷ ys)) in
    let regroup' : pre ++ y ∷ y ∷ ys ≡ (pre ++ y ∷ []) ++ y ∷ ys =
      sym (append_assoc pre (y ∷ []) (y ∷ ys)) in
    let next : length pre + 1 ≡ length (pre ++ y ∷ []) = sym (length-append pre (y ∷ [])) in
    let e : entry (pre ++ x ∷ y ∷ ys) (length pre + 1) ≡ ok y =
      rw regroup
        (entry-middle (pre ++ x ∷ []) y ys (length pre + 1) (sym (length-append pre (x ∷ [])))) in
    rw (e, set_entry-middle pre x y (y ∷ ys), regroup', next, shift_down_lem (pre ++ y ∷ []) y ys)
      (ap ok (append_assoc pre (y ∷ []) (ys ++ last y ys ∷ [])))

without-middle :
    (id : ℕ) (pre : List FileServer) (x : FileServer) (xs : List FileServer)
    → All (λ s. (s.id == id) ≡ false) pre
    → (x.id == id) ≡ true
    → without id (pre ++ x ∷ xs) ≡ pre ++ xs
without-middle id [] x xs h e = rw e
without-middle id (y ∷ pre) x xs h e = rw (h.0, without-middle id pre x xs h.1 e)

pub without-none :
    (id : ℕ) (xs : List FileServer) → All (λ s. (s.id == id) ≡ false) xs → without id xs ≡ xs
without-none id [] h = refl
without-none id (x ∷ xs) h = rw (h.0, without-none id xs h.1)

take_shifted :
    (pre : List FileServer) (x : FileServer) (xs : List FileServer)
    → take (length (pre ++ x ∷ xs) - 1) (pre ++ (xs ++ last x xs ∷ [])) ≡ pre ++ xs
take_shifted pre x xs =
    let e : length (pre ++ x ∷ xs) - 1 ≡ length (pre ++ xs) =
      omega (arith, length-append pre (x ∷ xs), length-append pre xs) in
    rw (e, ← append_assoc pre xs (last x xs ∷ [])) (take-append_length (pre ++ xs) (last x xs ∷ []))

pub remove_server-middle :
    (id : ℕ) (pre : List FileServer) (x : FileServer) (xs : List FileServer)
    → All (λ s. (s.id == id) ≡ false) pre
    → (x.id == id) ≡ true
    → remove_server id (table (pre ++ x ∷ xs)) ≡ ok (table (pre ++ xs))
unfolding remove_server
remove_server-middle id pre x xs h e =
    let found : find_index (λ s. s.id == id) (pre ++ x ∷ xs) 0 ≡ some (length pre) =
      find_index-middle (λ s. s.id == id) pre x xs 0 h e ∙ ap some (omega arith) in
    let rounds : length (pre ++ x ∷ xs) - (length pre + 1) ≡ length xs =
      omega (arith, length-append pre (x ∷ xs)) in
    let count : length (pre ++ x ∷ xs) - 1 ≡ length (pre ++ xs) =
      omega (arith, length-append pre (x ∷ xs), length-append pre xs) in
    rw (
      first_from-find_index (λ s. s.id == id) [] (pre ++ x ∷ xs) 0 refl,
      found,
      rounds,
      shift_down_lem pre x xs,
      take_shifted pre x xs,
      count,
    )

-- remove_server takes the first server of the given id out of the table and keeps all others in
-- their order, and it changes nothing if no server has the id. The mutex is free afterwards.
pub remove_server-without :
    (id : ℕ) (xs : List FileServer) → remove_server id (table xs) ≡ ok (table (without id xs))
remove_server-without id xs = split (find_index (λ s. s.id == id) xs 0) refl
  where
    split :
        (o : Option ℕ)
        → find_index (λ s. s.id == id) xs 0 ≡ o
        → remove_server id (table xs) ≡ ok (table (without id xs))
    split none h =
        rw (without-none id xs (find_index-none (λ s. s.id == id) xs 0 h))
          (unfold remove_server in rw (first_from-find_index (λ s. s.id == id) [] xs 0 refl, h))
    split (some i) h =
        let (pre, s, post, p, _, e, a) = find_index-some (λ s. s.id == id) xs 0 i h in
        rw (p, without-middle id pre s post a e) (remove_server-middle id pre s post a e)
