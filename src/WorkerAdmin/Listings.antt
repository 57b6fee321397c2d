-- ===== src/WorkerAdmin/Listings.antt =====
-- What the workers list: worker_ls_index, worker_ls, find_by_file and worker_delete of
-- src/worker_admin.c.
use pekar_drive.Common.{
  find_index, find_index-Found, find_index-some, Found, ℕ, zero, suc, ◌+◌, ◌<◌, ◌≤◌, ◌≡◌, ◌≢◌, refl,
  sym, ap, subst, ◌∙◌, Bool, true, false, Bool-cases, inl, inr, Option, some, List, [], ◌∷◌, ◌++◌,
  append_assoc, length, drop, length-append, take-append_length, ◌==◌, arith,
}
use pekar_drive.Result.{ok, >>=-eq-ok}
use pekar_drive.Memory.{Bytes, Memory, realloc}
use pekar_drive.Memory.Strings.{IsText, text, occurs, strstr, text-append, strlen-append}
use pekar_drive.Comm.Laws.{conn_read_lem}
use pekar_drive.Packet.{MsgType, ls, delete, IsValid, sizeof_packet}
use pekar_drive.Packet.Wire.{wire, length-wire, p_decode-wire}
use pekar_drive.Packet.Args.{packet_of}
use pekar_drive.ServerTable.{FileServer, Table, table, entry, getfs_index}
use pekar_drive.ServerTable.Search.{entry-middle}
use pekar_drive.WorkerAdmin.{
  Network, request, deref, worker_count, worker_ls_index, ls_from, worker_ls, find_from,
  find_by_file, worker_delete, sprintf,
}

module _ (net : Network) (message : Bytes) where
  -- The worker answers the message with a packet of at most 5040 bytes that holds the listing.
  pub record Lists (s : FileServer) (listing : Bytes) : Type 0 where
    pub seq_number : ℕ
    pub type : MsgType
    pub error : ℕ
    pub token : ℕ
    pub junk : Bytes
    pub answered : net s.ip s.port message ≡ record {
      sent = true;
      answer = some (wire (packet_of seq_number listing type error token) ++ junk);
    }
    pub valid : IsValid (packet_of seq_number listing type error token)
    pub fits : length (wire (packet_of seq_number listing type error token) ++ junk) ≤ 5040
    pub is_text : IsText listing

  -- Each worker has its listing.
  abbrev pub AllList : List FileServer → List Bytes → Type 0
  AllList [] [] = Unit {0}
  AllList [] (l ∷ listings) = ⊥
  AllList (x ∷ xs) [] = ⊥
  AllList (x ∷ xs) (l ∷ listings) = Lists x l × AllList xs listings

entry-lt : (xs : List FileServer) (i : ℕ) → i < length xs → (s : FileServer) × (entry xs i ≡ ok s)
unfolding entry
entry-lt [] i h = absurd (omega arith)
entry-lt (x ∷ xs) zero h = (x, refl)
entry-lt (x ∷ xs) (suc i) h = entry-lt xs i (omega arith)

module _ (net : Network) (message : Bytes) where
  length-AllList :
      (xs : List FileServer) (listings : List Bytes)
      → AllList net message xs listings
      → length xs ≡ length listings
  length-AllList [] [] h = refl
  length-AllList [] (l ∷ listings) h = elim h [ ]
  length-AllList (x ∷ xs) [] h = elim h [ ]
  length-AllList (x ∷ xs) (l ∷ listings) h = omega (arith, length-AllList xs listings h.1)

  -- A worker whose listing was found is in the table.
  entry-AllList :
      (test : Bytes → Bool) (xs : List FileServer) (listings : List Bytes) (i : ℕ)
      → AllList net message xs listings
      → find_index test listings 0 ≡ some i
      → (s : FileServer) × (entry xs i ≡ ok s)
  entry-AllList test xs listings i h e =
      let (pre, l, post, p, q, r, a) = find_index-some test listings 0 i e in
      let size : length listings ≡ length pre + length (l ∷ post) =
        ap length p ∙ length-append pre (l ∷ post) in
      entry-lt xs i (omega (arith, length-AllList xs listings h))

-- The table with some servers in front.
getfs_index-middle :
    (pre : List FileServer) (x : FileServer) (xs : List FileServer)
    → getfs_index (length pre) (table (pre ++ x ∷ xs))
      ≡ ok (some (length pre), table (pre ++ x ∷ xs))
unfolding getfs_index
getfs_index-middle pre x xs = ground (arith, length-append pre (x ∷ xs))

module _ (mem : Memory) (tkn : ℕ) (net : Network) (message : Bytes)
    (sent : request mem tkn (0 ∷ []) ls 41 ≡ ok message) where
  worker_ls_index-Lists :
      (pre : List FileServer) (x : FileServer) (xs : List FileServer) (l : Bytes)
      → Lists net message x l
      → worker_ls_index mem tkn net (length pre) (table (pre ++ x ∷ xs))
        ≡ ok (some l, table (pre ++ x ∷ xs))
  unfolding worker_ls_index deref
  worker_ls_index-Lists pre x xs l h =
      let p = packet_of h.seq_number l h.type h.error h.token in
      let r = wire p ++ h.junk in
      let bytes : (length r == 0) ≡ false =
        ground (arith, length-append (wire p) h.junk, length-wire p h.valid.arg) in
      let tail = drop (length r) (mem.malloc 5040) in
      rw (
        getfs_index-middle pre x xs,
        entry-middle pre x xs (length pre) refl,
        sent,
        h.answered,
        bytes,
        conn_read_lem (mem.malloc 5040) r 5040 h.fits (omega (arith, mem.length-malloc 5040)),
        append_assoc r tail mem.behind,
        append_assoc (wire p) h.junk (tail ++ mem.behind),
        p_decode-wire p (h.junk ++ (tail ++ mem.behind)) h.valid,
        take-append_length l (0 ∷ []),
      )

  module _ (more : Bytes) (nul : mem.behind ≡ 0 ∷ more) where
    -- A listing, read as a string.
    text-listing : (l : Bytes) → IsText l → text (l ++ mem.behind) ≡ ok l
    text-listing l h = subst (λ b. text (l ++ b) ≡ ok l) (sym nul) (text-append l more h)

    pub find_from-AllList :
        (file m : Bytes) (is_name : IsText file) (pre xs : List FileServer) (listings : List Bytes)
        → AllList net message xs listings
        → find_from mem tkn net (file ++ 0 ∷ m) (length xs) (length pre) (table (pre ++ xs))
          ≡ ok (find_index (occurs file) listings (length pre), table (pre ++ xs))
    unfolding find_from strstr
    find_from-AllList file m is_name pre [] [] h = refl
    find_from-AllList file m is_name pre [] (l ∷ listings) h = elim h [ ]
    find_from-AllList file m is_name pre (x ∷ xs) [] h = elim h [ ]
    find_from-AllList file m is_name pre (x ∷ xs) (l ∷ listings) h =
        let listed : worker_ls_index mem tkn net (length pre) (table (pre ++ x ∷ xs))
            ≡ ok (some l, table (pre ++ x ∷ xs)) =
          worker_ls_index-Lists pre x xs l h.0 in
        let rest = find_from-AllList file m is_name (pre ++ x ∷ []) xs listings h.1 in
        let step : length (pre ++ x ∷ []) ≡ length pre + 1 =
          omega (arith, length-append pre (x ∷ [])) in
        let t : (pre ++ x ∷ []) ++ xs ≡ pre ++ x ∷ xs = append_assoc pre (x ∷ []) xs in
        let rest' : find_from mem tkn net (file ++ 0 ∷ m) (length xs) (length pre + 1)
              (table (pre ++ x ∷ xs))
            ≡ ok (find_index (occurs file) listings (length pre + 1), table (pre ++ x ∷ xs)) =
          rw (step, t) at rest in
        rw (listed, text-listing l h.0.is_text, text-append file m is_name)
          (elim (Bool-cases (occurs file l)) [
            | inl found ↦ rw (found, getfs_index-middle pre x xs)
            | inr other ↦ rw (other, rest')
          ])

    -- Where each worker answers LS with a listing in a packet of at most 5040 bytes, find_by_file
    -- returns the first worker whose listing contains the name, or NULL if there is none, and
    -- leaves the table as it was. A NUL must stand behind each block.
    pub find_by_file-Found :
        (file m : Bytes) (xs : List FileServer) (listings : List Bytes)
        → IsText file
        → AllList net message xs listings
        → (o : Option ℕ) × (find_by_file mem tkn net (file ++ 0 ∷ m) (table xs) ≡ ok (o, table xs))
          × Found (occurs file) listings o
    unfolding find_by_file worker_count
    find_by_file-Found file m xs listings is_name h = (
      find_index (occurs file) listings 0,
      find_from-AllList file m is_name [] xs listings h,
      find_index-Found (occurs file) listings (find_index (occurs file) listings 0) refl,
    )

    -- The first worker that lists the name is sent the request.
    pub worker_delete-some :
        (file m : Bytes) (xs : List FileServer) (listings : List Bytes) (i : ℕ) (removal : Bytes)
        → IsText file
        → AllList net message xs listings
        → find_index (occurs file) listings 0 ≡ some i
        → request mem tkn (file ++ 0 ∷ m) delete (sizeof_packet + length file) ≡ ok removal
        → (s : FileServer) × (entry xs i ≡ ok s)
          × (worker_delete mem tkn net (file ++ 0 ∷ m) (table xs)
              ≡ ok (some (record { ip = s.ip; port = s.port; message = removal }), table xs))
    unfolding worker_delete find_by_file worker_count deref
    worker_delete-some file m xs listings i removal is_name h found e =
        let (s, at) = entry-AllList net message (occurs file) xs listings i h found in
        (
          s,
          at,
          rw (
            find_from-AllList file m is_name [] xs listings h,
            found,
            strlen-append file m is_name,
            at,
            e,
          ),
        )

-- worker_ls prints into a block from the same block, whatever the workers list.
sprintf-own : (block s r : Bytes) → sprintf true block s ≢ ok r
unfolding sprintf
sprintf-own block s r h = cc

pub worker_ls-undefined :
    (mem : Memory) (tkn : ℕ) (net : Network) (t : Table) (r : Bytes × Table)
    → worker_ls mem tkn net t ≢ ok r
unfolding worker_ls
worker_ls-undefined mem tkn net t r h =
    let ((result, t'), _, h1) =
      >>=-eq-ok (ls_from mem tkn net (mem.malloc 1) (worker_count t) 0 t) _ h in
    let (s, _, h2) = >>=-eq-ok (text (result ++ mem.behind)) _ h1 in
    let (b, printed, _) = >>=-eq-ok (sprintf true (realloc mem result (length s + 1)) s) _ h2 in
    sprintf-own _ s b printed
