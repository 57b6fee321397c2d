-- ===== src/Logger/Messages.antt =====
-- What logger of src/util/logger.c prints and returns.
use pekar_drive.Common.{
  ◌+◌, ◌<◌, ◌≤◌, ◌≡◌, ◌≢◌, refl, ap, ◌∙◌, Bool-cases, inl, inr, false, Option, some, [], ◌∷◌, ◌++◌,
  append_assoc, length, length-append, drop, leb, All-append, if◌then◌else◌, arith,
}
use pekar_drive.Result.{ok, err, out_of_bounds}
use pekar_drive.Memory.{Bytes, Memory, store, store-append}
use pekar_drive.Memory.Strings.{codes, IsText, text, text-append, strlen-append}
use pekar_drive.Logger.{
  LogType, error, warning, message, ignore, invalid, log_size, red, yellow, reset, log_buffer,
  log_ignore, log_coloured, log_error, log_warning, log_message, logger,
}

-- What is printed for a line.
abbrev pub shown : LogType → Bytes → Bytes
shown error line = (red ++ (line ++ reset)) ++ b'\n' ∷ []
shown warning line = (yellow ++ (line ++ reset)) ++ b'\n' ∷ []
shown message line = line ++ b'\n' ∷ []
shown ignore line = []
shown invalid line = []

-- The line of a component and a message.
abbrev pub line : Bytes → Bytes → Bytes
line component msg = (component ++ codes ": ") ++ msg

-- A buffer with the line.
abbrev pub filled : Bytes → Bytes → Bytes → Bytes
filled component msg buffer =
    line component msg ++ 0 ∷ drop (length component + length msg + 3) buffer

module _ (mem : Memory) (c m c' m' : Bytes) (is_component : IsText c) (is_message : IsText m) where
  line-IsText : IsText (line c m)
  line-IsText =
      All-append _ (c ++ codes ": ") m
        (All-append _ c (codes ": ") is_component (omega arith, (omega arith, tt))) is_message

  length-line : length (line c m) ≡ length c + 2 + length m
  length-line = length-append (c ++ codes ": ") m ∙ omega (arith, length-append c (codes ": "))

  -- The message is stored with its NUL, if it fits.
  log_ignore-fits :
      (buffer : Bytes)
      → length c + length m + 3 ≤ length buffer
      → log_ignore mem (c ++ 0 ∷ c') (m ++ 0 ∷ m') buffer
        ≡ ok (line c m ++ 0 ∷ drop (length c + length m + 3) buffer)
  unfolding log_ignore
  log_ignore-fits buffer h =
      let whole : length ((c ++ codes ": ") ++ (m ++ 0 ∷ [])) ≡ length c + length m + 3 =
        length-append (c ++ codes ": ") (m ++ 0 ∷ [])
        ∙ omega (arith, length-append c (codes ": "), length-append m (0 ∷ [])) in
      rw
        (
          text-append c c' is_component,
          text-append m m' is_message,
          store-append [] buffer ((c ++ codes ": ") ++ (m ++ 0 ∷ [])) 0 refl (omega (arith, whole)),
          whole,
        )
        (ap ok (simp append_assoc))

  log_ignore-overflows :
      (buffer : Bytes)
      → length buffer < length c + length m + 3
      → log_ignore mem (c ++ 0 ∷ c') (m ++ 0 ∷ m') buffer ≡ err out_of_bounds
  unfolding log_ignore store
  log_ignore-overflows buffer h =
      let full : leb (0 + length ((c ++ codes ": ") ++ (m ++ 0 ∷ []))) (length buffer) ≡ false =
        ground (
          arith,
          length-append (c ++ codes ": ") (m ++ 0 ∷ []),
          length-append c (codes ": "),
          length-append m (0 ∷ []),
        ) in
      rw (text-append c c' is_component, text-append m m' is_message, full)

-- The block of ten more bytes than the string has room for the escape sequences and the NUL.
log_coloured-fits :
    (mem : Memory) (colour s rest : Bytes)
    → IsText s
    → IsText colour
    → length colour ≡ 5
    → log_coloured mem colour (s ++ 0 ∷ rest) ≡ ok (colour ++ (s ++ reset))
unfolding log_coloured
log_coloured-fits mem colour s rest h k e =
    let block = mem.malloc (length s + 10) in
    let out = (colour ++ (s ++ reset)) ++ 0 ∷ [] in
    let is_text : IsText (colour ++ (s ++ reset)) =
      All-append _ colour (s ++ reset) k
        (All-append _ s reset h (omega arith, (omega arith, (omega arith, (omega arith, tt))))) in
    let size : length out ≡ length s + 10 =
      length-append (colour ++ (s ++ reset)) (0 ∷ [])
      ∙ omega (arith, length-append colour (s ++ reset), length-append s reset) in
    let w = colour ++ (s ++ reset) in
    let behind = drop (length out) block in
    let regroup : ((w ++ 0 ∷ []) ++ behind) ++ mem.behind ≡ w ++ 0 ∷ (behind ++ mem.behind) =
      append_assoc (w ++ 0 ∷ []) behind mem.behind
      ∙ append_assoc w (0 ∷ []) (behind ++ mem.behind) in
    rw
      (
        append_assoc s (0 ∷ rest) mem.behind,
        strlen-append s (rest ++ mem.behind) h,
        text-append s (rest ++ mem.behind) h,
        store-append [] block out 0 refl (omega (arith, mem.length-malloc (length s + 10))),
      )
      (ap text regroup ∙ text-append w (behind ++ mem.behind) is_text)

red-IsText : IsText red
red-IsText = (omega arith, (omega arith, (omega arith, (omega arith, (omega arith, tt)))))

yellow-IsText : IsText yellow
yellow-IsText = (omega arith, (omega arith, (omega arith, (omega arith, (omega arith, tt)))))

module _ (mem : Memory) (c m c' m' : Bytes) (is_component : IsText c) (is_message : IsText m)
    (log_msg : Option Bytes) (made : length (log_buffer mem log_msg) ≡ log_size) where
  stored :
      length c + length m + 3 ≤ log_size
      → log_ignore mem (c ++ 0 ∷ c') (m ++ 0 ∷ m') (log_buffer mem log_msg)
        ≡ ok (filled c m (log_buffer mem log_msg))
  stored room =
      log_ignore-fits mem c m c' m' is_component is_message (log_buffer mem log_msg) (omega arith)

  is_line : IsText (line c m)
  is_line = line-IsText mem c m c' m' is_component is_message

  logger-fits :
      (lt : LogType)
      → lt ≢ invalid
      → length c + length m + 3 ≤ log_size
      → logger mem lt (c ++ 0 ∷ c') (m ++ 0 ∷ m') log_msg
        ≡ ok (record {
          returned = filled c m (log_buffer mem log_msg);
          printed = shown lt (line c m);
          log_msg = some (filled c m (log_buffer mem log_msg));
        })
  unfolding logger log_error log_warning log_message
  logger-fits error h room =
      rw (stored room, log_coloured-fits mem red (line c m) _ is_line red-IsText refl)
  logger-fits warning h room =
      rw (stored room, log_coloured-fits mem yellow (line c m) _ is_line yellow-IsText refl)
  logger-fits message h room =
      let behind = drop (length c + length m + 3) (log_buffer mem log_msg) in
      rw (
        stored room,
        append_assoc (line c m) (0 ∷ behind) mem.behind,
        text-append (line c m) (behind ++ mem.behind) is_line,
      )
  logger-fits ignore h room = rw (stored room)
  logger-fits invalid h room = absurd (h refl)

  logger-overflows :
      (lt : LogType)
      → lt ≢ invalid
      → log_size < length c + length m + 3
      → logger mem lt (c ++ 0 ∷ c') (m ++ 0 ∷ m') log_msg ≡ err out_of_bounds
  unfolding logger log_error log_warning log_message
  logger-overflows lt h long = overflows lt h
    where
      refused :
          log_ignore mem (c ++ 0 ∷ c') (m ++ 0 ∷ m') (log_buffer mem log_msg) ≡ err out_of_bounds
      refused =
          log_ignore-overflows mem c m c' m' is_component is_message (log_buffer mem log_msg)
            (omega arith)

      overflows :
          (lt : LogType)
          → lt ≢ invalid
          → logger mem lt (c ++ 0 ∷ c') (m ++ 0 ∷ m') log_msg ≡ err out_of_bounds
      overflows error h = rw refused
      overflows warning h = rw refused
      overflows message h = rw refused
      overflows ignore h = rw refused
      overflows invalid h = absurd (h refl)

  -- For each of the four log types, logger puts "component: message" into its buffer of 1000 bytes
  -- and returns it, and prints it as the type says, in red or yellow, plain or not at all, if the
  -- text and its NUL fit into 1000 bytes, and writes behind the buffer otherwise. The component and
  -- the message hold no NUL.
  pub logger_lem :
      (lt : LogType)
      → lt ≢ invalid
      → (logger mem lt (c ++ 0 ∷ c') (m ++ 0 ∷ m') log_msg ≡ (
          if leb (length c + length m + 3) log_size
          then ok (record {
            returned = filled c m (log_buffer mem log_msg);
            printed = shown lt (line c m);
            log_msg = some (filled c m (log_buffer mem log_msg));
          })
          else err out_of_bounds))
  logger_lem lt h = elim (Bool-cases (leb (length c + length m + 3) log_size)) [
    | inl room ↦ rw room (logger-fits lt h (ground arith))
    | inr long ↦ rw long (logger-overflows lt h (ground arith))
  ]
