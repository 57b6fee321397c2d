-- ===== src/FileExec/Examples.antt =====
-- Runs of src/server/file_exec.c.
use pekar_drive.Common.{true, false, List, ◌≡◌, refl, some, [], ◌∷◌, ◌++◌, arith}
use mathlib.Core.List.{Perm}
use pekar_drive.FileExec.Mutex.{
  Caller, ready, inside, finished, Calls, enter, leave, CallRun, here, more, sequential, begin,
  insides, unfinished, CallRun-sequential,
}
use pekar_drive.Result.{ok, err, out_of_bounds}
use pekar_drive.Memory.{Bytes}
use pekar_drive.Memory.Strings.{codes, text}
use pekar_drive.Memory.Sample.{zeroed}
use pekar_drive.Fs.{Disk, fs_delete_file}
use pekar_drive.Fs.Writes.{IsPut}
use pekar_drive.Fs.Examples.{sys, sys-IsOpen, disk, note_path, note_located}
use pekar_drive.FileExec.{FileOutput, file_list, f_exec, delete_file, file_append, file_delete}
use pekar_drive.FileExec.Laws.{written, file_list-overflows, f_exec-append}

file_list-overflows_example :
    file_list zeroed (some (codes "." ∷ codes ".." ∷ [])) ≡ err out_of_bounds
file_list-overflows_example = file_list-overflows zeroed (codes ".") (codes ".." ∷ [])

f_exec-append_example :
    (disk' : Disk) × (f_exec zeroed sys
        (some (codes "data"))
        file_append
        (codes "note;hi" ++ 0 ∷ [])
        disk
      ≡ ok (written (codes "hi"), disk'))
    × IsPut note_path (codes "hellohi") disk disk'
f_exec-append_example =
    f_exec-append zeroed sys (some (codes "data")) (codes "note") (codes "hi") [] (0 ∷ []) note_path
      (ground arith) (ground arith) (ground arith) refl note_located sys-IsOpen (omega arith) disk
      (codes "hello") refl

abbrev removal : Bytes
removal = codes "note" ++ 0 ∷ []

abbrev removed : FileOutput
removed = record { error = false; out = 0 ∷ []; len = 0 }

-- Two deletions of one file, of which the second comes first.
abbrev callers : List Caller
callers = ready file_delete removal ∷ ready file_delete removal ∷ []

abbrev entered : Calls
entered = record (begin callers disk) {
  callers = ready file_delete removal ∷ inside file_delete removal disk ∷ [];
  locked = true;
}

abbrev disk_then : Disk
disk_then = fs_delete_file sys (some (codes "data")) (some (codes "note")) disk

abbrev left : Calls
left = record {
  callers = ready file_delete removal ∷ finished removed ∷ [];
  locked = false;
  disk = disk_then;
  done = (file_delete, removal) ∷ [];
  outputs = removed ∷ [];
}

left-CallRun : CallRun zeroed sys (some (codes "data")) (begin callers disk) left
unfolding f_exec delete_file text
left-CallRun =
    more entered left
      (more (begin callers disk) entered here (
        enter (begin callers disk) (ready file_delete removal ∷ []) [] file_delete removal refl
          refl))
      (leave entered (ready file_delete removal ∷ []) [] file_delete removal disk disk_then removed
        refl refl)

CallRun-sequential_example :
    (insides left.callers ≡ [])
    × (sequential zeroed sys (some (codes "data")) ((file_delete, removal) ∷ []) disk
        ≡ ok (removed ∷ [], disk_then))
    × Perm (left.done ++ unfinished left.callers) (unfinished callers)
CallRun-sequential_example =
    CallRun-sequential zeroed sys (some (codes "data")) callers disk left (tt, (tt, tt))
      left-CallRun
