-- ===== src/FileExec/Mutex.antt =====
-- Threads in f_exec of src/server/file_exec.c. An operation is two steps: the thread takes the mutex and
-- sees the files, and later its changes are made and it gives the mutex back. Steps of other threads may
-- stand between the two.
use pekar_drive.Common.{
  ◌≡◌, refl, sym, ap, subst, ◌∙◌, Bool, true, false, Bool-cases, inl, inr, All, Option, List, [],
  ◌∷◌, ◌++◌, append_assoc, if◌then◌else◌,
}
use mathlib.Core.List.{Perm, perm_middle}
use mathlib.Core.List.Perm
use pekar_drive.Result.{Result, ok, ok-injective, ◌>>=◌, >>=-eq-ok}
use pekar_drive.Memory.{Bytes, Memory}
use pekar_drive.Fs.{Disk, System}
use pekar_drive.FileExec.{FileOutput, FileOp, f_exec}

-- A thread with a call of f_exec: in front of the mutex, behind it with the files as it saw them, or at
-- the end.
pub data Caller : Type 0 where
  ready : FileOp → Bytes → Caller
  inside : FileOp → Bytes → Disk → Caller
  finished : FileOutput → Caller

-- The threads, the mutex and the files, and the calls that are finished with their outputs, in the order
-- in which they gave the mutex back.
pub record Calls : Type 0 where
  pub callers : List Caller
  pub locked : Bool
  pub disk : Disk
  pub done : List (FileOp × Bytes)
  pub outputs : List FileOutput

module _ (mem : Memory) (sys : System) (work_dir : Option Bytes) where
  pub data CallStep : Calls → Calls → Type 0 where
    enter :
        (s : Calls) (pre post : List Caller) (op : FileOp) (arg : Bytes)
        → s.callers ≡ pre ++ ready op arg ∷ post
        → s.locked ≡ false
        → CallStep s (record s { callers = pre ++ inside op arg s.disk ∷ post; locked = true })
    leave :
        (s : Calls) (pre post : List Caller) (op : FileOp) (arg : Bytes) (seen disk' : Disk)
        (output : FileOutput)
        → s.callers ≡ pre ++ inside op arg seen ∷ post
        → f_exec mem sys work_dir op arg seen ≡ ok (output, disk')
        → CallStep s (record {
          callers = pre ++ finished output ∷ post;
          locked = false;
          disk = disk';
          done = s.done ++ (op, arg) ∷ [];
          outputs = s.outputs ++ output ∷ [];
        })

  pub data CallRun (s : Calls) : Calls → Type 0 where
    here : CallRun s s
    more : (t u : Calls) → CallRun s t → CallStep t u → CallRun s u

  -- The calls one after the other: their outputs, and the files then.
  unfoldable pub sequential : List (FileOp × Bytes) → Disk → Result (List FileOutput × Disk)
  sequential [] disk = ok ([], disk)
  sequential ((op, arg) ∷ calls) disk = do
    (output, disk) ← f_exec mem sys work_dir op arg disk
    (outputs, disk) ← sequential calls disk
    ok (output ∷ outputs, disk)

-- What the threads behind the mutex saw.
pub insides : List Caller → List Disk
insides [] = []
insides (inside op arg seen ∷ callers) = seen ∷ insides callers
insides (ready op arg ∷ callers) = insides callers
insides (finished output ∷ callers) = insides callers

insides-append : (xs ys : List Caller) → insides (xs ++ ys) ≡ insides xs ++ insides ys
unfolding insides
insides-append [] ys = refl
insides-append (inside op arg seen ∷ xs) ys = ap (λ l. seen ∷ l) (insides-append xs ys)
insides-append (ready op arg ∷ xs) ys = insides-append xs ys
insides-append (finished output ∷ xs) ys = insides-append xs ys

-- The calls that are not finished.
abbrev pub unfinished : List Caller → List (FileOp × Bytes)
unfinished [] = []
unfinished (ready op arg ∷ callers) = (op, arg) ∷ unfinished callers
unfinished (inside op arg seen ∷ callers) = (op, arg) ∷ unfinished callers
unfinished (finished output ∷ callers) = unfinished callers

unfinished-append : (xs ys : List Caller) → unfinished (xs ++ ys) ≡ unfinished xs ++ unfinished ys
unfinished-append [] ys = refl
unfinished-append (ready op arg ∷ xs) ys = ap (λ l. (op, arg) ∷ l) (unfinished-append xs ys)
unfinished-append (inside op arg seen ∷ xs) ys = ap (λ l. (op, arg) ∷ l) (unfinished-append xs ys)
unfinished-append (finished output ∷ xs) ys = unfinished-append xs ys

-- A call that is taken out of the middle and put at the end.
moved :
    (done a b : List (FileOp × Bytes)) (call : FileOp × Bytes)
    → Perm ((done ++ call ∷ []) ++ (a ++ b)) (done ++ (a ++ call ∷ b))
moved done a b call =
    rw (append_assoc done (call ∷ []) (a ++ b))
      (Perm.append_left done (Perm.symm (perm_middle a b)))

-- A list of one entry has nothing around it.
only : {A : Type 0} (a b : List A) (x y : A) → a ++ x ∷ b ≡ y ∷ [] → (x ≡ y) × (a ++ b ≡ [])
only [] b x y e = (cc, cc)
only (z ∷ []) b x y e = cc
only (z ∷ w ∷ a) b x y e = cc

put_only : {A : Type 0} (a b : List A) (x : A) → a ++ b ≡ [] → a ++ x ∷ b ≡ x ∷ []
put_only [] b x e = ap (λ l. x ∷ l) e
put_only (z ∷ a) b x e = cc

nothing_inside : (a b : List Disk) (x : Disk) → a ++ x ∷ b ≡ [] → ⊥
nothing_inside [] b x e = cc
nothing_inside (z ∷ a) b x e = cc

-- A thread that has not taken the mutex.
abbrev pub IsReady : Caller → Type 0
IsReady (ready op arg) = Unit {0}
IsReady (inside op arg seen) = ⊥
IsReady (finished output) = ⊥

-- The threads with their calls in front of the free mutex.
abbrev pub begin : List Caller → Disk → Calls
begin callers disk = record {
  callers = callers;
  locked = false;
  disk = disk;
  done = [];
  outputs = [];
}

none_inside : (callers : List Caller) → All IsReady callers → insides callers ≡ []
unfolding insides
none_inside [] r = refl
none_inside (ready op arg ∷ callers) r = none_inside callers r.1
none_inside (inside op arg seen ∷ callers) r = absurd r.0
none_inside (finished output ∷ callers) r = absurd r.0

module _ (mem : Memory) (sys : System) (work_dir : Option Bytes) where
  sequential-append :
      (calls : List (FileOp × Bytes)) (op : FileOp) (arg : Bytes) (disk middle disk' : Disk)
      (outputs : List FileOutput) (output : FileOutput)
      → sequential mem sys work_dir calls disk ≡ ok (outputs, middle)
      → f_exec mem sys work_dir op arg middle ≡ ok (output, disk')
      → sequential mem sys work_dir (calls ++ (op, arg) ∷ []) disk
        ≡ ok (outputs ++ output ∷ [], disk')
  unfolding sequential
  sequential-append [] op arg disk middle disk' outputs output e h =
      let none_yet : [] ≡ outputs = ap (λ (x : List FileOutput × Disk). x.0) (ok-injective e) in
      let same : disk ≡ middle = ap (λ (x : List FileOutput × Disk). x.1) (ok-injective e) in
      let executed : f_exec mem sys work_dir op arg disk ≡ ok (output, disk') =
        subst (λ d. f_exec mem sys work_dir op arg d ≡ ok (output, disk')) (sym same) h in
      simp (executed, sym none_yet)
  sequential-append ((o, a) ∷ calls) op arg disk middle disk' outputs output e h =
      let ((out, d), executed, e1) = >>=-eq-ok (f_exec mem sys work_dir o a disk) _ e in
      let ((outs, d'), others, e2) = >>=-eq-ok (sequential mem sys work_dir calls d) _ e1 in
      let outputs_same : out ∷ outs ≡ outputs =
        ap (λ (x : List FileOutput × Disk). x.0) (ok-injective e2) in
      let same : d' ≡ middle = ap (λ (x : List FileOutput × Disk). x.1) (ok-injective e2) in
      let last : f_exec mem sys work_dir op arg d' ≡ ok (output, disk') =
        subst (λ d. f_exec mem sys work_dir op arg d ≡ ok (output, disk')) (sym same) h in
      let ih = sequential-append calls op arg d d' disk' outs output others last in
      simp (executed, ih, sym outputs_same)

  -- What the threads behind the mutex saw are the files as they are, and there is at most one.
  abbrev Exclusive : Calls → Type 0
  Exclusive s = insides s.callers ≡ (if s.locked then s.disk ∷ [] else [])

  module _ (start : Disk) (calls : List (FileOp × Bytes)) where
    abbrev Ordered : Calls → Type 0
    Ordered s =
        Exclusive s
        × (sequential mem sys work_dir s.done start ≡ ok (s.outputs, s.disk))
        × Perm (s.done ++ unfinished s.callers) calls

    CallStep-Ordered : (s s' : Calls) → Ordered s → CallStep mem sys work_dir s s' → Ordered s'
    unfolding insides
    CallStep-Ordered s s' (alone, ran, all) (enter s1 pre post op arg e free) =
        let nobody : insides s.callers ≡ [] = rw free at alone in
        let around : insides pre ++ insides post ≡ [] =
          sym (insides-append pre (ready op arg ∷ post)) ∙ ap insides (sym e) ∙ nobody in
        (
          insides-append pre (inside op arg s.disk ∷ post)
              ∙ put_only (insides pre) (insides post) s.disk around,
          ran,
          subst (λ l. Perm (s.done ++ l) calls)
              (ap unfinished e
                ∙ unfinished-append pre (ready op arg ∷ post)
                ∙ sym (unfinished-append pre (inside op arg s.disk ∷ post)))
              all,
        )
    CallStep-Ordered s s' (alone, ran, all) (leave s1 pre post op arg seen disk' output e h) =
        let at : insides pre ++ seen ∷ insides post ≡ (if s.locked then s.disk ∷ [] else []) =
          sym (insides-append pre (inside op arg seen ∷ post)) ∙ ap insides (sym e) ∙ alone in
        elim (Bool-cases s.locked) [
          | inr free ↦ absurd (nothing_inside (insides pre) (insides post) seen (rw free at at))
          | inl taken ↦
              let (fresh, around) =
                only (insides pre) (insides post) seen s.disk (rw taken at at) in
              (
                insides-append pre (finished output ∷ post) ∙ around,
                sequential-append s.done op arg start s.disk disk' s.outputs output ran
                    (subst (λ d. f_exec mem sys work_dir op arg d ≡ ok (output, disk')) fresh h),
                Perm.trans
                    (rw (unfinished-append pre (finished output ∷ post))
                      (moved s.done (unfinished pre) (unfinished post) (op, arg)))
                    (subst (λ l. Perm (s.done ++ l) calls)
                      (ap unfinished e ∙ unfinished-append pre (inside op arg seen ∷ post)) all),
              )
        ]

  -- For any threads that each call f_exec once, and any interleaving of their steps, what the
  -- threads behind the mutex saw is the files as they are, and there is at most one; the finished
  -- calls, one after the other in the order in which they gave the mutex back, give the same
  -- outputs and the same files; and these calls and the unfinished ones are together all calls.
  pub CallRun-sequential :
      (callers : List Caller) (start : Disk) (s : Calls)
      → All IsReady callers
      → CallRun mem sys work_dir (begin callers start) s
      → (insides s.callers ≡ (if s.locked then s.disk ∷ [] else []))
        × (sequential mem sys work_dir s.done start ≡ ok (s.outputs, s.disk))
        × Perm (s.done ++ unfinished s.callers) (unfinished callers)
  unfolding sequential
  CallRun-sequential callers start s r here = (none_inside callers r, refl, Perm.rfl)
  CallRun-sequential callers start s r (more t u run step) =
      CallStep-Ordered start (unfinished callers) t s (CallRun-sequential callers start t r run)
        step
