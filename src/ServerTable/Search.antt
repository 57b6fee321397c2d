-- ===== src/ServerTable/Search.antt =====
-- What the searching loops of src/server_table.c find.
use pekar_drive.Common.{
  find_index, find_index-Found, Found, ℕ, ◌+◌, ◌≡◌, refl, subst, Bool, true, false, Option, some,
  List, [], ◌∷◌, ◌++◌, append_assoc, length, get_elem?-middle, length-append, if◌then◌else◌, ◌==◌,
  arith,
}
use pekar_drive.Result.{ok}
use pekar_drive.ServerTable.{FileServer, table, entry, first_from, getfs_id, getfs_pred}

pub entry-middle :
    (pre : List FileServer) (x : FileServer) (xs : List FileServer) (i : ℕ)
    → i ≡ length pre
    → entry (pre ++ x ∷ xs) i ≡ ok x
unfolding entry
entry-middle pre x xs i e = rw (e, entry, get_elem?-middle pre x xs)

pub first_from-find_index :
    (test : FileServer → Bool) (pre xs : List FileServer) (i : ℕ)
    → i ≡ length pre
    → first_from test (pre ++ xs) (length xs) i ≡ ok (find_index test xs i)
unfolding first_from
first_from-find_index test pre [] i e = refl
first_from-find_index test pre (x ∷ xs) i e =
    let ih : first_from test (pre ++ x ∷ xs) (length xs) (i + 1) ≡ ok (find_index test xs (i + 1)) =
      subst (λ l. first_from test l (length xs) (i + 1) ≡ ok (find_index test xs (i + 1)))
        (append_assoc pre (x ∷ []) xs)
        (first_from-find_index test (pre ++ x ∷ []) xs (i + 1)
          (omega (arith, length-append pre (x ∷ [])))) in
    rw (entry-middle pre x xs i e, ih) (split (test x))
  where
    split :
        (b : Bool)
        → (if b then ok (some i) else ok (find_index test xs (i + 1)))
          ≡ ok (if b then some i else find_index test xs (i + 1))
    split true = refl
    split false = refl

module _ (test : FileServer → Bool) (xs : List FileServer) where
  -- getfs_pred returns the first server that satisfies the predicate, or NULL if there is none, and
  -- leaves the table as it was, with the mutex free.
  pub getfs_pred-Found :
      (o : Option ℕ) × (getfs_pred test (table xs) ≡ ok (o, table xs)) × Found test xs o
  unfolding getfs_pred
  getfs_pred-Found = (
    find_index test xs 0,
    rw (first_from-find_index test [] xs 0 refl),
    find_index-Found test xs (find_index test xs 0) refl,
  )

-- getfs_id returns the first server with the given id, or `NULL` if no server has it, and leaves the
-- table as it was, with the mutex free.
pub getfs_id-Found :
    (id : ℕ) (xs : List FileServer)
    → (o : Option ℕ) × (getfs_id id (table xs) ≡ ok (o, table xs)) × Found (λ s. s.id == id) xs o
unfolding getfs_id
getfs_id-Found id xs = (
  find_index (λ s. s.id == id) xs 0,
  rw (first_from-find_index (λ s. s.id == id) [] xs 0 refl),
  find_index-Found (λ s. s.id == id) xs (find_index (λ s. s.id == id) xs 0) refl,
)
