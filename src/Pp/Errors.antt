-- ===== src/Pp/Errors.antt =====
-- Errors of lib/PP/pp.c and of the transmissions below it.
use pekar_drive.Common.{
  ℕ, ◌+◌, ◌<◌, ◌≡◌, ◌≢◌, sym, ap, ◌∙◌, Bool, true, false, Option, none, some, List, [], ◌∷◌, ◌++◌,
  length, leb, length-append, ◌&&◌, if◌then◌else◌, Bool-cases, inl, inr, arith,
}
use pekar_drive.Result.{ok, err, out_of_bounds, >>=-eq-ok, ok-injective}
use pekar_drive.Memory.{Bytes, Memory, load, store}
use pekar_drive.Comm.{Conn}
use pekar_drive.Transmission.{
  Transmission, serialized_size, is_some, fresh, init_transmission, trans_err, transmission_error,
}
use pekar_drive.Memory.Strings.{codes}
use pekar_drive.Transmission.Transmit.{send_all, transmit, transmit_data, refuse}
use pekar_drive.Pp.{Endpoint, Status, error_status, send_failed, send_message, pp_send, fine}

-- A block of the length of a string has no room for its NUL.
pub store_unterminated :
    (mem : Memory) (msg : Bytes)
    → store (mem.malloc (length msg)) 0 (msg ++ 0 ∷ []) ≡ err out_of_bounds
unfolding store
store_unterminated mem msg =
    let full : leb (0 + length (msg ++ 0 ∷ [])) (length (mem.malloc (length msg))) ≡ false =
      ground (arith, length-append msg (0 ∷ []), mem.length-malloc (length msg)) in
    rw full

pub trans_err-err :
    (mem : Memory) (t : Transmission) (msg : Bytes) → trans_err mem t msg ≡ err out_of_bounds
unfolding trans_err
trans_err-err mem t msg = rw (store_unterminated mem msg)

-- An error status is made only of a message that has room for its NUL, which none has.
pub error_status-err :
    (mem : Memory) (msg : Option Bytes) {status : Status} → error_status mem msg ≢ ok status
unfolding error_status
error_status-err mem none e = ground arith
error_status-err mem (some msg) e = absurd (ground (arith, store_unterminated mem msg))

send_failed-err :
    (mem : Memory) (message : Transmission) (messages : List Bytes) {r : Status × List Bytes}
    → send_failed mem message messages ≢ ok r
unfolding send_failed
send_failed-err mem message messages e =
    let (status, made, rest) =
      >>=-eq-ok (error_status mem (transmission_error message)) (λ status. ok (fine, messages)) e in
    error_status-err mem (transmission_error message) made

refuse-err : (mem : Memory) (t : Transmission) (msg : Bytes) → refuse mem t msg ≡ err out_of_bounds
unfolding refuse
refuse-err mem t msg = rw (trans_err-err mem t msg)

transmit_data-none :
    (mem : Memory) (chunk : ℕ) (t : Transmission)
    → transmit_data mem chunk t none ≡ err out_of_bounds
unfolding transmit_data
transmit_data-none mem chunk t = refuse-err mem t _

-- What transmit is refused for, and it never returns then.
transmit-content :
    (mem : Memory) (chunk : ℕ) (t : Transmission) {r : Bool × List Bytes × Transmission}
    → transmit mem chunk t ≡ ok r
    → t.content ≢ none
unfolding transmit
transmit-content mem chunk t {r} sent e =
    let refused : transmit_data mem chunk t t.content ≡ err out_of_bounds =
      ap (transmit_data mem chunk t) e ∙ transmit_data-none mem chunk t in
    grind (arith, refuse-err mem t, refused)

transmit_used :
    (mem : Memory) (chunk : ℕ) (t : Transmission)
    → t.write_used ≡ true
    → transmit mem chunk t ≡ err out_of_bounds
unfolding transmit
transmit_used mem chunk t h = grind (arith, refuse-err mem t, h)

transmit_data-used :
    (mem : Memory) (chunk : ℕ) (t : Transmission) (content : Option Bytes)
    (r : Bool × List Bytes × Transmission)
    → transmit_data mem chunk t content ≡ ok r
    → (r.0 ≡ true) × (r.2.write_used ≡ true)
unfolding transmit_data
transmit_data-used mem chunk t none r e =
    absurd (ground (arith, refuse-err mem t (codes "Data to transmit is NULL.")))
transmit_data-used mem chunk t (some d) r e =
    let (messages, sent, rest) = >>=-eq-ok (send_all mem chunk t d) _ e in
    let same = sym (ok-injective rest) in (ap (λ x. x.0) same, ap (λ x. x.2.write_used) same)

transmit_usable :
    (mem : Memory) (chunk : ℕ) (t : Transmission) (r : Bool × List Bytes × Transmission)
    → transmit mem chunk t ≡ ok r
    → (t.write_used ≡ false)
      × (t.error ≡ false)
      × (t.is_open ≡ true)
      × (transmit_data mem chunk t t.content ≡ ok r)
unfolding transmit
transmit_usable mem chunk t r e = (
  grind (arith, refuse-err mem t, e),
  grind (arith, refuse-err mem t, e),
  grind (arith, refuse-err mem t, e),
  grind (arith, refuse-err mem t, e),
)

-- Where transmit returns, it succeeds, the instance was open, without an error and not yet used for
-- writing, and had data; and another transmit of the instance that it leaves writes behind the
-- block of its error message.
pub transmit_once :
    (mem : Memory) (chunk : ℕ) (t t' : Transmission) (succeeded : Bool) (messages : List Bytes)
    → transmit mem chunk t ≡ ok (succeeded, messages, t')
    → (succeeded ≡ true)
      × (t.write_used ≡ false)
      × (t.error ≡ false)
      × (t.is_open ≡ true)
      × (t.content ≢ none)
      × (transmit mem chunk t' ≡ err out_of_bounds)
transmit_once mem chunk t t' succeeded messages e =
    let (unused, sound, opened, sent) = transmit_usable mem chunk t (succeeded, messages, t') e in
    let (done, used) = transmit_data-used mem chunk t t.content (succeeded, messages, t') sent in
    (done, unused, sound, opened, transmit-content mem chunk t e, transmit_used mem chunk t' used)

sent_status :
    (mem : Memory) (succeeded : Bool) (messages' : List Bytes) (message : Transmission)
    {status : Status} {messages : List Bytes}
    → (if succeeded then ok (fine, messages') else send_failed mem message messages')
      ≡ ok (status, messages)
    → status ≡ fine
sent_status mem true messages' message e = cc
sent_status mem false messages' message e = absurd (send_failed-err mem message messages' e)

-- A message that is sent has no error, and has data.
send_message-ok :
    (mem : Memory) (chunk : ℕ) (message : Transmission) {status : Status} {messages : List Bytes}
    → send_message mem chunk message ≡ ok (status, messages)
    → (status ≡ fine) × (message.error ≡ false) × (message.content ≢ none)
unfolding send_message
send_message-ok mem chunk message {status} {messages} sent = elim (Bool-cases message.error) [
  | inl failed ↦ absurd (send_failed-err mem message [] (simp failed at sent))
  | inr sound ↦
      let ((succeeded, messages', message'), e, f) =
        >>=-eq-ok (transmit mem chunk message) _ (simp sound at sent) in
      (sent_status mem succeeded messages' message' f, sound, transmit-content mem chunk message e)
]

init_transmission-fresh :
    (chunk : ℕ) (connection : Conn) (content : Option Bytes) (len : ℕ) (message : Transmission)
    → init_transmission chunk connection content len ≡ ok message
    → (d : Option Bytes) × (message ≡ fresh chunk connection d len) × (content ≡ none → d ≡ none)
unfolding init_transmission
init_transmission-fresh chunk connection none len message made =
    (none, sym (ok-injective made), λ e. e)
init_transmission-fresh chunk connection (some source) len message made =
    let (d, loaded, made') = >>=-eq-ok (load len source) _ made in
    (some d, sym (ok-injective made'), λ e. ground arith)

-- Where pp_send returns, its status says that there was no error, the connection had none that
-- comes with a message, the chunk size is above 72, and there was data to send.
pub pp_send_sound :
    (mem : Memory) (chunk : ℕ) (endpoint : Endpoint) (content : Option Bytes) (len : ℕ)
    (status : Status) (messages : List Bytes)
    → pp_send mem chunk endpoint content len ≡ ok (status, messages)
    → (status ≡ fine)
      × ((endpoint.connection.error && is_some endpoint.connection.error_msg) ≡ false)
      × (serialized_size < chunk)
      × (content ≢ none)
unfolding pp_send
pp_send_sound mem chunk endpoint content len status messages sent =
    let (message, made, sent') =
      >>=-eq-ok (init_transmission chunk endpoint.connection content len) _ sent in
    let (d, message_fresh, some_content) =
      init_transmission-fresh chunk endpoint.connection content len message made in
    let (same, sound, some_data) = send_message-ok mem chunk message sent' in
    let sound' : (fresh chunk endpoint.connection d len).error ≡ false =
      ap (λ m. m.error) (sym message_fresh) ∙ sound in
    (
      same,
      ground (arith, sound'),
      ground (arith, sound'),
      λ e. some_data (ap (λ m. m.content) message_fresh ∙ some_content e),
    )
