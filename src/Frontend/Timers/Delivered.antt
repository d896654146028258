-- ===== src/Frontend/Timers/Delivered.antt =====
-- A character that is typed for the shell reaches the serial queue as a frame of its own.
use sw_tos.Adapter.Decoder
use sw_tos.Adapter
use sw_tos.Base.{ℕ, ◌≤◌, [], ◌∷◌, ◌++◌, some, true, ◌≡◌, refl, ◌∙◌, ap, arith, Bytes, length}
use sw_tos.Frontend.Requests.Delivery.{push-expect_encoded, expect_encoded_short}
use sw_tos.Frontend.Requests.{queue_serial}
use sw_tos.Frontend.Sending.{send, send_encoded}
use sw_tos.Frontend.Session.{Session}
use sw_tos.Frontend.Timers.{is_framed, inject, inject_from}
use sw_tos.Protocol.{Frame, FrameType, frame_bytes, code_of}

-- A character that is typed, as a frame.
abbrev pub key_frame : ℕ → Frame
key_frame byte = record { kind = FrameType.tty_input; channel = 0; payload = byte ∷ [] }

pub length-key_frame : (byte : ℕ) → length (frame_bytes (key_frame byte)) ≡ 9
unfolding frame_bytes
length-key_frame byte = refl

queued :
    (out frame : Bytes)
    → length out ≤ 65527
    → length frame ≡ 9
    → (queue_serial out frame).0 ≡ out ++ frame
unfolding queue_serial
queued out frame room size = ground arith

inject_from-sent :
    (s : Session) (byte : ℕ) (bytes : Bytes)
    → is_framed s.connection.mode ≡ true
    → length s.serial_output ≤ 65527
    → (frame : Bytes) × (t : Session) × (inject_from (byte ∷ bytes) s ≡ some t)
      × (t.injected ≡ bytes)
      × (t.serial_output ≡ s.serial_output ++ frame)
      × (Adapter.Decoder.push Adapter.Decoder.fresh frame ≡ (
        Adapter.Decoder.fresh,
        record { kind = Adapter.tty_input; channel = 0; payload = byte ∷ [] } ∷ [],
      ))
unfolding send_encoded send code_of
inject_from-sent s byte bytes framed room =
    let (frame, encoded, read) = push-expect_encoded (key_frame byte) (omega arith) in
    let same : frame ≡ frame_bytes (key_frame byte) =
      cc (encoded, expect_encoded_short (key_frame byte) (omega arith)) in
    let size = ap length same ∙ length-key_frame byte in
    (
      frame,
      send frame (record s { injected = bytes }),
      rw (framed, encoded, send_encoded) refl,
      refl,
      queued s.serial_output frame room size,
      read,
    )

-- The same, with the frame written out and the mode kept.
pub inject-queued :
    (s : Session) (byte : ℕ) (bytes : Bytes)
    → s.injected ≡ byte ∷ bytes
    → is_framed s.connection.mode ≡ true
    → length s.serial_output ≤ 65527
    → (t : Session) × (inject s ≡ some t)
      × (t.injected ≡ bytes)
      × (t.connection ≡ s.connection)
      × (t.serial_output ≡ s.serial_output ++ frame_bytes (key_frame byte))
unfolding inject send_encoded send
inject-queued s byte bytes e framed room =
    let frame = frame_bytes (key_frame byte) in
    let encoded = expect_encoded_short (key_frame byte) (omega arith) in
    (
      send frame (record s { injected = bytes }),
      ap (λ xs. inject_from xs s) e ∙ rw (framed, encoded, send_encoded) refl,
      refl,
      refl,
      queued s.serial_output frame room (length-key_frame byte),
    )

-- A framed session has a character to type for the shell, and nine bytes of room or more in its
-- serial queue: then that character alone is removed, and what is put behind the queue is read by
-- the adapter as that character, typed on channel 0.
pub inject-sent :
    (s : Session) (byte : ℕ) (bytes : Bytes)
    → s.injected ≡ byte ∷ bytes
    → is_framed s.connection.mode ≡ true
    → length s.serial_output ≤ 65527
    → (frame : Bytes) × (t : Session) × (inject s ≡ some t)
      × (t.injected ≡ bytes)
      × (t.serial_output ≡ s.serial_output ++ frame)
      × (Adapter.Decoder.push Adapter.Decoder.fresh frame ≡ (
        Adapter.Decoder.fresh,
        record { kind = Adapter.tty_input; channel = 0; payload = byte ∷ [] } ∷ [],
      ))
unfolding inject
inject-sent s byte bytes e framed room =
    let (frame, t, done, left, queue, read) = inject_from-sent s byte bytes framed room in
    (frame, t, ap (λ xs. inject_from xs s) e ∙ done, left, queue, read)
