-- ===== src/ServerTable/Laws.antt =====
-- add_server of src/server_table.c, and what holds between it, remove_server and the searches.
use pekar_drive.Common.{
  find_index, find_index-middle, ℕ, suc, ◌+◌, ◌%◌, ◌^◌, ◌<◌, ◌≡◌, ◌≢◌, refl, ap, subst, ◌∙◌, false,
  none, some, List, [], ◌∷◌, ◌++◌, append-nil, length, All, Bool-cases, inl, inr, length-append,
  take-length, le→leb, if◌then◌else◌, ltb, ◌==◌, arith,
}
use pekar_drive.Result.{ok, err, out_of_bounds}
use pekar_drive.ServerTable.{
  FileServer, Table, table, add_server, remove_server, getfs_id, getfs_index, unlock,
}
use pekar_drive.ServerTable.Search.{first_from-find_index}
use pekar_drive.ServerTable.Remove.{without, remove_server-without, remove_server-middle}

-- While the table has fewer than 65535 entries, add_server puts the server behind all others. With
-- 65535 entries `server_count` wraps to 0 and the write leaves the table.
pub add_server_lem :
    (s : FileServer) (xs : List FileServer)
    → length xs < 2 ^ 16
    → add_server s (table xs)
      ≡ (if ltb (length xs + 1) (2 ^ 16) then ok (table (xs ++ s ∷ [])) else err out_of_bounds)
unfolding add_server
add_server_lem s xs h = elim (Bool-cases (ltb (length xs + 1) (2 ^ 16))) [
  | inl room ↦
      let e : (length xs + 1) % 2 ^ 16 ≡ suc (length xs) = ground arith in
      let count : suc (length xs) ≡ length (xs ++ s ∷ []) =
        omega (arith, length-append xs (s ∷ [])) in
      rw (room, e, le→leb (length xs) (length xs) (omega arith), take-length xs, count)
  | inr full ↦ let e : (length xs + 1) % 2 ^ 16 ≡ 0 = ground arith in rw (full, e)
]

-- No two servers have one id.
abbrev pub IsUnique : List FileServer → Type 0
IsUnique [] = Unit
IsUnique (x ∷ xs) = All (λ s. s.id ≢ x.id) xs × IsUnique xs

abbrev pub Lacks : ℕ → List FileServer → Type 0
Lacks id = All (λ s. s.id ≢ id)

pub Lacks-tests : (id : ℕ) (xs : List FileServer) → Lacks id xs → All (λ s. (s.id == id) ≡ false) xs
Lacks-tests id [] h = tt
Lacks-tests id (x ∷ xs) h = (ground arith, Lacks-tests id xs h.1)

pub Lacks-without : (id k : ℕ) (xs : List FileServer) → Lacks id xs → Lacks id (without k xs)
Lacks-without id k [] h = tt
Lacks-without id k (x ∷ xs) h = elim (Bool-cases (x.id == k)) [
  | inl e ↦ rw e h.1
  | inr e ↦ rw e (h.0, Lacks-without id k xs h.1)
]

pub without-IsUnique : (id : ℕ) (xs : List FileServer) → IsUnique xs → IsUnique (without id xs)
without-IsUnique id [] h = tt
without-IsUnique id (x ∷ xs) h = elim (Bool-cases (x.id == id)) [
  | inl e ↦ rw e h.1
  | inr e ↦ rw e (Lacks-without x.id id xs h.0, without-IsUnique id xs h.1)
]

pub without-Lacks : (id : ℕ) (xs : List FileServer) → IsUnique xs → Lacks id (without id xs)
without-Lacks id [] h = tt
without-Lacks id (x ∷ xs) h = elim (Bool-cases (x.id == id)) [
  | inl e ↦ let p : x.id ≡ id = ground arith in rw e (subst (λ k. Lacks k xs) p h.0)
  | inr e ↦ rw e (ground arith, without-Lacks id xs h.1)
]

find_index-Lacks :
    (id : ℕ) (xs : List FileServer) (i : ℕ) → Lacks id xs → find_index (λ s. s.id == id) xs i ≡ none
find_index-Lacks id [] i h = refl
find_index-Lacks id (x ∷ xs) i h =
    let e : (x.id == id) ≡ false = ground arith in rw e (find_index-Lacks id xs (i + 1) h.1)

pub getfs_id-Lacks :
    (id : ℕ) (xs : List FileServer) → Lacks id xs → getfs_id id (table xs) ≡ ok (none, table xs)
unfolding getfs_id
getfs_id-Lacks id xs h =
    rw (first_from-find_index (λ s. s.id == id) [] xs 0 refl, find_index-Lacks id xs 0 h)

-- If the ids of the table are unique, then getfs_id answers NULL for an id after remove_server of
-- it, and the ids are still unique.
pub getfs_id-remove_server :
    (id : ℕ) (xs : List FileServer)
    → IsUnique xs
    → (ys : List FileServer) × (remove_server id (table xs) ≡ ok (table ys))
      × (getfs_id id (table ys) ≡ ok (none, table ys))
      × IsUnique ys
getfs_id-remove_server id xs h = (
  without id xs,
  remove_server-without id xs,
  getfs_id-Lacks id (without id xs) (without-Lacks id xs h),
  without-IsUnique id xs h,
)

-- If the table has fewer than 65535 servers and none with the id of a new one, then add_server
-- succeeds, getfs_id and getfs_index find the new server at the end, and remove_server gives the
-- old table back.
pub remove_server-add_server :
    (s : FileServer) (xs : List FileServer)
    → length xs + 1 < 2 ^ 16
    → Lacks s.id xs
    → (t : Table) × (add_server s (table xs) ≡ ok t)
      × (getfs_id s.id t ≡ ok (some (length xs), t))
      × (getfs_index (length xs) t ≡ ok (some (length xs), t))
      × (remove_server s.id t ≡ ok (table xs))
remove_server-add_server s xs h new = (
  table (xs ++ s ∷ []),
  add_server_lem s xs (omega arith) ∙ ground arith,
  found,
  indexed,
  rw (remove_server-middle s.id xs s [] (Lacks-tests s.id xs new) (ground arith), append-nil),
)
  where
    found : getfs_id s.id (table (xs ++ s ∷ [])) ≡ ok (some (length xs), table (xs ++ s ∷ []))
    found =
        unfold getfs_id unlock in
        rw
          (
            first_from-find_index (λ x. x.id == s.id) [] (xs ++ s ∷ []) 0 refl,
            find_index-middle (λ x. x.id == s.id) xs s [] 0 (Lacks-tests s.id xs new)
                (ground arith),
          )
          (ap (λ (n : ℕ). ok (some n, table (xs ++ s ∷ []))) (omega arith))

    indexed :
        getfs_index (length xs) (table (xs ++ s ∷ [])) ≡ ok (some (length xs), table (xs ++ s ∷ []))
    indexed = unfold getfs_index in ground (arith, length-append xs (s ∷ []))
