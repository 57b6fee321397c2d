-- ===== src/WorkerAdmin/Keeps.antt =====
-- The operations of src/worker_admin.c that only read the server table leave it as it was.
use pekar_drive.Common.{
  ℕ, zero, suc, ◌+◌, ◌≡◌, refl, Bool, true, false, Option, none, some, ◌++◌, if◌then◌else◌, arith,
}
use pekar_drive.Result.{Fault, Result, ok, err, ◌>>=◌}
use pekar_drive.Memory.{Bytes, Memory}
use pekar_drive.Memory.Strings.{text}
use pekar_drive.ServerTable.{Table, getfs_index}
use pekar_drive.WorkerAdmin.{
  Network, least_load, worker_ls_index, find_from, find_by_file, ls_from, worker_ls, worker_write,
  worker_count, worker_delete,
}

-- Where the result is a value, the table that comes with it is the old one.
pub record Keeps {A : Type 0} (t : Table) (r : Result (A × Table)) : Type 0 where
  pub at : (a : A) (t' : Table) → r ≡ ok (a, t') → t' ≡ t

module _ {B : Type 0} (t : Table) where
  pub Keeps-ok : (b : B) → Keeps t (ok (b, t))
  Keeps-ok b = record { at = λ a t' e. cc }

  pub Keeps-err : (e : Fault) → Keeps {A = B} t (err e)
  Keeps-err e = record { at = λ a t' p. cc }

  pub Keeps-if :
      (b : Bool) (m n : Result (B × Table)) → Keeps t m → Keeps t n → Keeps t (if b then m else n)
  Keeps-if true m n h k = h
  Keeps-if false m n h k = k

module _ {A B : Type 0} (t : Table) where
  pub Keeps-option :
      (o : Option A) (m : Result (B × Table)) (f : A → Result (B × Table))
      → Keeps t m
      → ((a : A) → Keeps t (f a))
      → Keeps t (elim o [ none ↦ m | some a ↦ f a ])
  Keeps-option none m f h k = h
  Keeps-option (some a) m f h k = k a

  pub Keeps-bind :
      (m : Result (A × Table)) (f : A × Table → Result (B × Table))
      → Keeps t m
      → ((a : A) → Keeps t (f (a, t)))
      → Keeps t (m >>= f)
  Keeps-bind (ok (a, t')) f h k = rw (h.at a t' refl) (k a)
  Keeps-bind (err e) f h k = record { at = λ a t' p. cc }

  pub Keeps-pure :
      (m : Result A) (f : A → Result (B × Table)) → ((a : A) → Keeps t (f a)) → Keeps t (m >>= f)
  Keeps-pure (ok a) f k = k a
  Keeps-pure (err e) f k = record { at = λ a t' p. cc }

pub ruleset keeps_rules = (Keeps-ok, Keeps-err, Keeps-if, Keeps-option, Keeps-bind, Keeps-pure)

module _ (t : Table) where
  pub getfs_index-Keeps : (i : ℕ) → Keeps t (getfs_index i t)
  unfolding getfs_index
  getfs_index-Keeps i = record { at = λ a t' e. ground arith }

  least_load-Keeps : Keeps t (least_load t)
  unfolding least_load
  least_load-Keeps = search (keeps_rules, getfs_index-Keeps)

  module _ (mem : Memory) (tkn : ℕ) (net : Network) where
    worker_ls_index-Keeps : (i : ℕ) → Keeps t (worker_ls_index mem tkn net i t)
    unfolding worker_ls_index
    worker_ls_index-Keeps i = search (keeps_rules, getfs_index-Keeps) depth 12

    find_from-Keeps :
        (file : Bytes) (rounds i : ℕ) → Keeps t (find_from mem tkn net file rounds i t)
    unfolding find_from
    find_from-Keeps file zero i = Keeps-ok t none
    find_from-Keeps file (suc rounds) i =
        Keeps-bind t (worker_ls_index mem tkn net i t) _ (worker_ls_index-Keeps i) λ listing.
          Keeps-pure t _ _ λ found.
            Keeps-if t found _ _ (getfs_index-Keeps i) (find_from-Keeps file rounds (i + 1))

    ls_from-Keeps :
        (result : Bytes) (rounds i : ℕ) → Keeps t (ls_from mem tkn net result rounds i t)
    unfolding ls_from
    ls_from-Keeps result zero i = Keeps-ok t result
    ls_from-Keeps result (suc rounds) i =
        Keeps-bind t (worker_ls_index mem tkn net i t) _ (worker_ls_index-Keeps i) λ listing.
          Keeps-option t listing _ _ (ls_from-Keeps result rounds (i + 1)) λ l.
            Keeps-pure t (text (result ++ mem.behind)) _ λ r.
              Keeps-pure t (text (l ++ mem.behind)) _
                λ s. Keeps-pure t _ _ λ result. ls_from-Keeps result rounds (i + 1)

    pub worker_ls-Keeps : Keeps t (worker_ls mem tkn net t)
    unfolding worker_ls
    worker_ls-Keeps = search (keeps_rules, ls_from-Keeps) depth 8

    pub worker_delete-Keeps : (file : Bytes) → Keeps t (worker_delete mem tkn net file t)
    unfolding worker_delete find_by_file worker_count
    worker_delete-Keeps file =
        Keeps-bind t _ _ (find_from-Keeps file ((worker_count t)) 0)
          λ worker. Keeps-option t worker _ _ (search keeps_rules) λ i. search keeps_rules depth 8

    pub worker_write-Keeps :
        (file content : Bytes) → Keeps t (worker_write mem tkn net file content t)
    unfolding worker_write
    worker_write-Keeps file content =
        Keeps-bind t _ _ least_load-Keeps
          λ fs. Keeps-option t fs _ _ (search keeps_rules) λ i. search keeps_rules depth 12
