-- ===== src/WorkerAdmin/Requests.antt =====
-- The packets that src/worker_admin.c sends to the workers.
use pekar_drive.Common.{
  ℕ, ◌+◌, ◌-◌, ◌^◌, ◌<◌, ◌≤◌, ◌≡◌, ap, ◌∙◌, [], ◌∷◌, ◌++◌, append_assoc, length, take, drop,
  length-append, length-drop, take-append_ge, take-append_length, arith,
}
use pekar_drive.Result.{ok, err, out_of_bounds}
use pekar_drive.Memory.{Bytes, Memory, load-take, load_short}
use pekar_drive.Memory.Strings.{IsText}
use pekar_drive.Comm.{conn_write}
use pekar_drive.Packet.{MsgType, Packet, attach_token, p_decode, IsType, IsValid, header_size}
use pekar_drive.Packet.Wire.{wire, length-wire, p_encode-wire, p_decode-wire, block_size}
use pekar_drive.Packet.Args.{packet_of, p_init_lem, packet_of-IsValid}
use pekar_drive.WorkerAdmin.{request}

module _ (mem : Memory) (tkn : ℕ) (s m : Bytes) (t : MsgType) (len : ℕ) (is_text : IsText s)
    (short : length s + 1 < 2 ^ 32) (token : tkn < 2 ^ 64) (type : IsType t) where
  abbrev packet : Packet
  packet = packet_of 0 s t 0 tkn

  packet-IsValid : IsValid packet
  packet-IsValid = packet_of-IsValid 0 s t 0 tkn (omega arith) short (omega arith) token type

  -- The block that is encoded, and what is read behind it.
  abbrev pub memory : Bytes
  memory =
      (wire packet ++ drop (header_size + length s) (mem.malloc (block_size packet))) ++ mem.behind

  length-memory : length memory ≡ header_size + length s + 1 + length mem.behind
  length-memory =
      let w = wire packet in
      let d = drop (header_size + length s) (mem.malloc (block_size packet)) in
      omega (
        arith,
        length-append (w ++ d) mem.behind,
        length-append w d,
        length-wire packet packet-IsValid.arg,
        length-drop (header_size + length s) (mem.malloc (block_size packet)),
        mem.length-malloc (block_size packet),
      )

  pub request_lem :
      request mem tkn (s ++ 0 ∷ m) t len
      ≡ conn_write mem
          (wire packet ++ drop (header_size + length s) (mem.malloc (block_size packet)))
          len
  unfolding request attach_token
  request_lem = rw (p_init_lem 0 s m t is_text short, p_encode-wire mem packet packet-IsValid)

  -- A request is sent if the length that is passed to `send` stays within the block of the packet and
  -- what can be read behind it.
  pub request-sent :
      len ≤ header_size + length s + 1 + length mem.behind
      → request mem tkn (s ++ 0 ∷ m) t len ≡ ok (take len memory)
  unfolding conn_write
  request-sent h = request_lem ∙ load-take len memory (omega (arith, length-memory))

  pub request-short :
      header_size + length s + 1 + length mem.behind < len
      → request mem tkn (s ++ 0 ∷ m) t len ≡ err out_of_bounds
  unfolding conn_write
  request-short h = request_lem ∙ load_short len memory (omega (arith, length-memory))

  -- A request that covers the packet is decoded by its receiver to the argument, type and token, with
  -- any bytes behind it.
  pub decode-request :
      (more : Bytes)
      → header_size + length s ≤ len
      → len ≤ header_size + length s + 1 + length mem.behind
      → (message : Bytes) × (request mem tkn (s ++ 0 ∷ m) t len ≡ ok message)
        × (p_decode (message ++ more) ≡ ok (record packet { arg = s }))
  decode-request more covers h = (take len memory, request-sent h, decoded)
    where
      rest : Bytes
      rest = drop (header_size + length s) (mem.malloc (block_size packet)) ++ mem.behind

      split : take len memory ≡ wire packet ++ take (len - length (wire packet)) rest
      split =
          ap (take len) (append_assoc (wire packet) _ mem.behind)
          ∙ take-append_ge len (wire packet) rest
              (omega (arith, length-wire packet packet-IsValid.arg))

      decoded : p_decode (take len memory ++ more) ≡ ok (record packet { arg = s })
      decoded = rw (
        split,
        append_assoc (wire packet) (take (len - length (wire packet)) rest) more,
        p_decode-wire packet _ packet-IsValid,
        take-append_length s (0 ∷ []),
      )
