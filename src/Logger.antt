-- ===== src/Logger.antt =====
-- The logger: src/util/logger.h and src/util/logger.c. Its global `log_msg` is the argument of that
-- name, `none` before the first call.
pub mod Messages
pub mod Examples
use pekar_drive.Common.{ℕ, ◌+◌, Bool, true, false, Option, none, some, List, [], ◌∷◌, ◌++◌, length}
use pekar_drive.Result.{Result, ok, err, ◌>>=◌}
use pekar_drive.Memory.{Bytes, Memory, store}
use pekar_drive.Memory.Strings.{codes, text, strlen}

-- `enum log_t`, and the other values of its type.
pub data LogType : Type 0 where
  error warning message ignore invalid : LogType

-- What a call returns, what it prints on the terminal, and `log_msg` then.
pub record Logged : Type 0 where
  pub returned : Bytes
  pub printed : Bytes
  pub log_msg : Option Bytes

abbrev pub log_size : ℕ
log_size = 1000

abbrev pub red : Bytes
red = 27 ∷ codes "[31m"

abbrev pub yellow : Bytes
yellow = 27 ∷ codes "[33m"

abbrev pub reset : Bytes
reset = 27 ∷ codes "[0m"

-- The buffer, made at the first call.
unfoldable pub log_buffer : Memory → Option Bytes → Bytes
log_buffer mem none = mem.malloc log_size
log_buffer mem (some buffer) = buffer

module _ (mem : Memory) where
  -- `component` and `msg` are what the two pointers show; the buffer with the message.
  unfoldable pub log_ignore : Bytes → Bytes → Bytes → Result Bytes
  log_ignore component msg buffer = do
    c ← text component
    m ← text msg
    store buffer 0 ((c ++ codes ": ") ++ (m ++ 0 ∷ []))

  -- The string of the buffer in a block of its own, between two escape sequences.
  unfoldable pub log_coloured : Bytes → Bytes → Result Bytes
  log_coloured colour buffer = do
    n ← strlen (buffer ++ mem.behind)
    s ← text (buffer ++ mem.behind)
    block ← store (mem.malloc (n + 10)) 0 ((colour ++ (s ++ reset)) ++ 0 ∷ [])
    text (block ++ mem.behind)

  unfoldable pub log_error : Bytes → Bytes → Bytes → Result Logged
  log_error component msg buffer = do
    buffer' ← log_ignore component msg buffer
    out ← log_coloured red buffer'
    ok (record { returned = buffer'; printed = out ++ b'\n' ∷ []; log_msg = some buffer' })

  unfoldable pub log_warning : Bytes → Bytes → Bytes → Result Logged
  log_warning component msg buffer = do
    buffer' ← log_ignore component msg buffer
    out ← log_coloured yellow buffer'
    ok (record { returned = buffer'; printed = out ++ b'\n' ∷ []; log_msg = some buffer' })

  unfoldable pub log_message : Bytes → Bytes → Bytes → Result Logged
  log_message component msg buffer = do
    buffer' ← log_ignore component msg buffer
    out ← text (buffer' ++ mem.behind)
    ok (record { returned = buffer'; printed = out ++ b'\n' ∷ []; log_msg = some buffer' })

  unfoldable pub logger : LogType → Bytes → Bytes → Option Bytes → Result Logged
  logger error component msg log_msg = log_error component msg (log_buffer mem log_msg)
  logger warning component msg log_msg = log_warning component msg (log_buffer mem log_msg)
  logger message component msg log_msg = log_message component msg (log_buffer mem log_msg)
  logger ignore component msg log_msg = do
    buffer' ← log_ignore component msg (log_buffer mem log_msg)
    ok (record { returned = buffer'; printed = []; log_msg = some buffer' })
  logger invalid component msg log_msg = ok (record {
    returned = codes "PekarDrive: Invalid logging type." ++ 0 ∷ [];
    printed = [];
    log_msg = some (log_buffer mem log_msg);
  })
