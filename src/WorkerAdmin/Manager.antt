-- ===== src/WorkerAdmin/Manager.antt =====
-- The thread of the manager, manager_thread of src/worker_admin.c: its time, its rounds of pings, its start
-- and its end.
use pekar_drive.Common.{
  ℕ, ◌+◌, ◌%◌, ◌^◌, ◌<◌, ◌≡◌, Bool, true, false, not, Option, none, some, ltb, ◌==◌, if◌then◌else◌,
  arith,
}
use pekar_drive.Common.Int.{ℤ, negsuc}
use pekar_drive.Result.{Result, ok, err, uninitialised, ◌>>=◌}
use pekar_drive.Memory.{Memory}
use pekar_drive.ServerTable.{Table, for_each_server}
use pekar_drive.WorkerAdmin.{Network, ping_server}

-- The argument is an `unsigned`; the old value is dropped.
unfoldable pub set_admin_update_time : ℕ → ℕ → ℕ
set_admin_update_time time update_time = time % 2 ^ 32

unfoldable pub get_admin_update_time : ℕ → ℕ
get_admin_update_time update_time = update_time

-- What a look at the clock does, at the time `now` and with `start` the time of the last round: the
-- time of the last round then, and the table. The sum stands for a difference, which may be negative, and
-- the second read of the clock is taken to give the same time as the first.
unfoldable pub manager_tick : Memory → ℕ → Network → ℕ → ℕ → ℕ → Table → Result (ℕ × Table)
manager_tick mem master_tkn net update_time now start t =
    if ltb now (start + update_time)
    then ok (start, t)
    else do t' ← for_each_server (ping_server mem master_tkn net) t; ok (now, t')

-- `pthread_create`: the id of the new thread, or `none` where there is none. The id is returned whether it
-- was set or not.
unfoldable pub start_admin : Option ℕ → Result ℕ
start_admin none = err uninitialised
start_admin (some thread) = ok thread

-- `pthread_kill` of a thread and a signal number, as a change of the set of threads that run: its value,
-- and the threads that run then.
abbrev pub Kill : Type 0
Kill = ℕ → ℤ → (ℕ → Bool) → ℕ × (ℕ → Bool)

-- Whether it reports an error, and the threads that run then. The signal is -9.
unfoldable pub end_admin : Kill → ℕ → (ℕ → Bool) → Bool × (ℕ → Bool)
end_admin kill pid running =
    let (ret, running') = kill pid (negsuc 8) running in (not (ret == 0), running')

-- If a negative signal number is refused with an error, and no signal is sent then, as POSIX has it for a
-- number that is no signal, then end_admin stops no thread and reports an error.
pub end_admin-refused :
    (kill : Kill) (error : ℕ)
    → 0 < error
    → ((pid n : ℕ) (running : ℕ → Bool) → kill pid (negsuc n) running ≡ (error, running))
    → (pid : ℕ) (running : ℕ → Bool) → end_admin kill pid running ≡ (true, running)
unfolding end_admin
end_admin-refused kill error h refused pid running =
    let e : (error == 0) ≡ false = ground arith in rw (refused pid 8 running, e)
