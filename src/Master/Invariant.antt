-- ===== src/Master/Invariant.antt =====
-- The server table and the worker ids stay sound under every packet that the master handles.
use pekar_drive.Common.{
  ℕ, ◌+◌, ◌%◌, ◌^◌, ◌<◌, ◌≡◌, refl, sym, ap, subst, Bool-cases, ◌⊎◌, inl, inr, Option, List, [],
  ◌∷◌, ◌++◌, length, length-append, All, All-append, ltb, arith,
}
use pekar_drive.Result.{ok, err, out_of_bounds, ok-injective}
use pekar_drive.Memory.{Bytes, Memory}
use pekar_drive.ServerTable.{FileServer, Table, table}
use pekar_drive.ServerTable.Laws.{IsUnique, Lacks, add_server_lem}
use pekar_drive.WorkerAdmin.{Network, add_worker}
use pekar_drive.Master.Keeps.{handle_client-Outcome}
use pekar_drive.Master.{Master, handle_client}

-- The ids in the table are unique and below the next id, and the mutex is free.
pub record IsSound (m : Master) : Type 0 where
  pub servers : List FileServer
  pub stored : m.table ≡ table servers
  pub bounded : length servers < 2 ^ 16
  pub unique : IsUnique servers
  pub below : All (λ s. s.id < m.worker_id) servers

pub below-Lacks : (id : ℕ) (xs : List FileServer) → All (λ s. s.id < id) xs → Lacks id xs
below-Lacks id [] h = tt
below-Lacks id (x ∷ xs) h = (ground arith, below-Lacks id xs h.1)

pub below-next :
    (id : ℕ) (xs : List FileServer) → All (λ s. s.id < id) xs → All (λ s. s.id < id + 1) xs
below-next id [] h = tt
below-next id (x ∷ xs) h = (omega arith, below-next id xs h.1)

pub IsUnique-append :
    (xs : List FileServer) (s : FileServer) → IsUnique xs → Lacks s.id xs → IsUnique (xs ++ s ∷ [])
IsUnique-append [] s h k = (tt, tt)
IsUnique-append (x ∷ xs) s h k =
    (All-append _ xs (s ∷ []) h.0 (ground arith, tt), IsUnique-append xs s h.1 k.1)

abbrev sound :
    (xs : List FileServer) (id : ℕ)
    → length xs < 2 ^ 16
    → IsUnique xs
    → All (λ s. s.id < id) xs
    → IsSound (record { table = table xs; worker_id = id })
sound xs id b u l = record { servers = xs; stored = refl; bounded = b; unique = u; below = l }

-- The master as it was, or with one more worker behind the others, which has the next id.
abbrev pub Next : List FileServer → ℕ → Master → Type 0
Next xs id m' =
    (m' ≡ record { table = table xs; worker_id = id })
    ⊎ ((w : FileServer) × (w.id ≡ id)
        × (length xs + 1 < 2 ^ 16)
        × (m' ≡ record { table = table (xs ++ w ∷ []); worker_id = (id + 1) % 2 ^ 32 }))

module _ (mem : Memory) (tkn worker_tkn : ℕ) (net : Network) (xs : List FileServer) (id : ℕ)
    (bounded : length xs < 2 ^ 16) where
  abbrev old : Master
  old = record { table = table xs; worker_id = id }

  added-Next :
      (w : FileServer) (t : Table)
      → w.id ≡ id
      → add_worker w (table xs) ≡ ok t
      → Next xs id (record { table = t; worker_id = (id + 1) % 2 ^ 32 })
  unfolding add_worker
  added-Next w t e h = elim (Bool-cases (ltb (length xs + 1) (2 ^ 16))) [
    | inl room ↦
        let p : ok (table (xs ++ w ∷ [])) ≡ ok t = rw (add_server_lem w xs bounded, room) at h in
        inr (
          w,
          e,
          ground arith,
          ap (λ t. record { table = t; worker_id = (id + 1) % 2 ^ 32 }) (sym (ok-injective p)),
        )
    | inr full ↦
        let p : err out_of_bounds ≡ ok t = rw (add_server_lem w xs bounded, full) at h in cc
  ]

  -- A connection that the master handles leaves its state as it was, or puts one worker with the
  -- next id behind the others.
  pub handle_client-Next :
      (arrived : Option Bytes) (r : Option Bytes) (m' : Master)
      → handle_client mem tkn net worker_tkn arrived old ≡ ok (r, m')
      → Next xs id m'
  handle_client-Next arrived r m' h =
      elim (handle_client-Outcome mem tkn worker_tkn net old arrived r m' h) [
        | inl same ↦ inl same
        | inr (w, t, e, added, next) ↦ subst (Next xs id) (sym next) (added-Next w t e added)
      ]

-- What either outcome of a packet leaves is sound.
pub Next-IsSound :
    (xs : List FileServer) (id : ℕ) (m' : Master)
    → length xs < 2 ^ 16
    → IsUnique xs
    → All (λ s. s.id < id) xs
    → id + 1 < 2 ^ 32
    → Next xs id m'
    → IsSound m'
Next-IsSound xs id m' b u l next (inl e) = subst IsSound (sym e) (sound xs id b u l)
Next-IsSound xs id m' b u l next (inr (w, e, room, e')) =
    let wrap : (id + 1) % 2 ^ 32 ≡ id + 1 = omega arith in
    subst IsSound
      (sym (subst (λ n. m' ≡ record { table = table (xs ++ w ∷ []); worker_id = n }) wrap e'))
      (sound (xs ++ w ∷ []) (id + 1) (ground (arith, length-append xs (w ∷ [])))
        (IsUnique-append xs w u (rw e (below-Lacks id xs l)))
        (All-append _ xs (w ∷ []) (below-next id xs l) (omega arith, tt)))

-- Whatever bytes arrive at the master in a sound state, the state is sound after handle_client has
-- returned: the ids of the workers are unique and below the next id, there are fewer than 65536,
-- and the mutex is free. The id after the next one must not wrap.
pub handle_client-IsSound :
    (mem : Memory) (tkn worker_tkn : ℕ) (net : Network) (arrived : Option Bytes) (m : Master)
    (r : Option Bytes) (m' : Master)
    → IsSound m
    → m.worker_id + 1 < 2 ^ 32
    → handle_client mem tkn net worker_tkn arrived m ≡ ok (r, m')
    → IsSound m'
handle_client-IsSound mem tkn worker_tkn net arrived m r m' s next h =
    let e : m ≡ record { table = table s.servers; worker_id = m.worker_id } =
      ap (λ t. record { table = t; worker_id = m.worker_id }) s.stored in
    Next-IsSound s.servers m.worker_id m' s.bounded s.unique s.below next (
      handle_client-Next mem tkn worker_tkn net s.servers m.worker_id s.bounded arrived r m'
        (subst (λ x. handle_client mem tkn net worker_tkn arrived x ≡ ok (r, m')) e h))
