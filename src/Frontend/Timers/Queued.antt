-- ===== src/Frontend/Timers/Queued.antt =====
-- What the steps of a pass of `run_windows` in tools/te-rs/src/main.rs, but for the one that types,
-- put into the serial queue.
use mathlib.Core.Option
use sw_tos.Base.{
  ℕ, ◌+◌, ◌≤◌, List, [], ◌∷◌, ◌++◌, append_assoc, append-nil, Option, none, some, true, not, ◌&&◌,
  leb, ltb, Bool-cases, inl, inr, ◌≡◌, refl, sym, ◌∙◌, ap, arith, Bytes, length, length-append,
}
use sw_tos.Debugger.{identity_request}
use sw_tos.Frontend.Requests.Delivery.{expect_encoded_short}
use sw_tos.Frontend.Requests.{
  TimeMode, time_kind, tick_bytes, active, any, expect_encoded, queue_serial, scheduler_heartbeat,
  max_windows_serial_backlog,
}
use sw_tos.Frontend.Sending.{send, send_encoded, then_do}
use sw_tos.Frontend.Session.{Session}
use sw_tos.Frontend.Timers.{
  Clocks, is_framed, prompt_due, request_resources, beat, retry_hello, send_times, time_frames,
  send_identity, report_stall, tick_of,
}
use sw_tos.Protocol.Negotiator.{hello}
use sw_tos.Protocol.{Frame, FrameType, frame_bytes}

-- It does not panic, leaves the mode and what is still to be typed, and puts a number of bytes at
-- most behind the queue.
abbrev pub Extends : ℕ → Session → Option Session → Type 0
Extends n s none = ⊥
Extends n s (some t) =
    (t.connection ≡ s.connection)
    × (t.injected ≡ s.injected)
    × (out : Bytes) × (t.serial_output ≡ s.serial_output ++ out)
    × (length out ≤ n)

stays :
    (n : ℕ) (s t : Session)
    → t.connection ≡ s.connection
    → t.injected ≡ s.injected
    → t.serial_output ≡ s.serial_output
    → Extends n s (some t)
stays n s t c i o = (c, i, [], o ∙ sym (append-nil s.serial_output), omega arith)

send-Extends :
    (n : ℕ) (bytes : Bytes) (s : Session) → length bytes ≤ n → Extends n s (some (send bytes s))
unfolding send queue_serial
send-Extends n bytes s h =
    elim (Bool-cases (ltb max_windows_serial_backlog (length s.serial_output + length bytes))) [
      | inl full ↦ (refl, refl, [], rw full (sym (append-nil s.serial_output)), omega arith)
      | inr room ↦ (refl, refl, bytes, rw room refl, h)
    ]

length-frame_bytes : (f : Frame) → length (frame_bytes f) ≡ 8 + length f.payload
unfolding frame_bytes
length-frame_bytes f = omega (arith, length-append f.payload)

send_encoded-Extends :
    (f : Frame) (s : Session)
    → length f.payload ≤ 8
    → Extends 16 s (send_encoded (expect_encoded f) s)
unfolding send_encoded
send_encoded-Extends f s h =
    rw (expect_encoded_short f (omega (arith, h)))
      (send-Extends 16 (frame_bytes f) s (omega (arith, length-frame_bytes f, h)))

pub map-Extends :
    (n : ℕ) (s : Session) (g : Session → Session) (o : Option Session)
    → ((t : Session)
        → ((g t).connection ≡ t.connection)
          × ((g t).injected ≡ t.injected)
          × ((g t).serial_output ≡ t.serial_output))
    → Extends n s o
    → Extends n s (Option.map g o)
map-Extends n s g none keeps h = h
map-Extends n s g (some t) keeps (c, i, out, e, few) =
    ((keeps t).0 ∙ c, (keeps t).1 ∙ i, out, (keeps t).2 ∙ e, few)

then_do-Extends :
    (n m : ℕ) (s : Session) (o : Option Session) (next : Session → Option Session)
    → Extends n s o
    → ((t : Session) → Extends m t (next t))
    → Extends (n + m) s (then_do o next)
then_do-Extends n m s none next h k = h
then_do-Extends n m s (some t) next (c, i, out, e, few) k = again (next t) (k t)
  where
    again : (o : Option Session) → Extends m t o → Extends (n + m) s o
    again none h = h
    again (some u) (d, j, more, f, less) = (
      d ∙ c,
      j ∙ i,
      out ++ more,
      f ∙ ap (λ q. q ++ more) e ∙ append_assoc s.serial_output out more,
      omega (arith, length-append out more, few, less),
    )

pub prompt_due-Extends : (c : Clocks) (s : Session) → Extends 0 s (some (prompt_due c s))
unfolding prompt_due
prompt_due-Extends c s = stays 0 s (prompt_due c s) (ground arith) (ground arith) (ground arith)

pub report_stall-Keeps :
    (s : Session)
    → ((report_stall s).connection ≡ s.connection)
      × ((report_stall s).injected ≡ s.injected)
      × ((report_stall s).serial_output ≡ s.serial_output)
unfolding report_stall
report_stall-Keeps s = ground arith

abbrev resource_frame : Frame
resource_frame = record { kind = FrameType.resource_snapshot; channel = 0; payload = [] }

pub request_resources-Extends : (c : Clocks) (s : Session) → Extends 16 s (request_resources c s)
unfolding request_resources
request_resources-Extends c s =
    elim (Bool-cases (is_framed s.connection.mode && leb s.next_resource_request c.now)) [
      | inl e ↦ rw e (
          map-Extends 16 s (λ t. record t { next_resource_request = c.now + 250 })
            (send_encoded (expect_encoded resource_frame) s) (λ t. (refl, refl, refl))
            (send_encoded-Extends resource_frame s (omega arith)))
      | inr n ↦ rw n (stays 16 s s refl refl refl)
    ]

pub beat-Extends : (c : Clocks) (s : Session) → Extends 16 s (some (beat c s))
unfolding beat
beat-Extends c s = elim (Bool-cases (leb s.next_scheduler_heartbeat c.now)) [
  | inl e ↦ rw e (send-Extends 16 (scheduler_heartbeat _) s (omega arith))
  | inr n ↦ rw n (stays 16 s s refl refl refl)
]

pub retry_hello-Extends : (c : Clocks) (s : Session) → Extends 16 s (retry_hello c s)
unfolding retry_hello
retry_hello-Extends c s =
    elim (Bool-cases (not (is_framed s.connection.mode) && leb s.next_hello_retry c.now)) [
      | inl e ↦ rw e (
          map-Extends 16 s (λ t. record t { next_hello_retry = c.now + 250 })
            (send_encoded (expect_encoded hello) s) (λ t. (refl, refl, refl))
            (send_encoded-Extends hello s (omega arith)))
      | inr n ↦ rw n (stays 16 s s refl refl refl)
    ]

abbrev identity_frame : Frame
identity_frame = record { kind = FrameType.debug_request; channel = 0; payload = identity_request }

pub send_identity-Extends : (s : Session) → Extends 16 s (send_identity s)
unfolding send_identity
send_identity-Extends s =
    elim (Bool-cases (is_framed s.connection.mode && not s.debug_identity_sent)) [
      | inl e ↦ rw e (
          map-Extends 16 s (λ t. record t { debug_identity_sent = true })
            (send_encoded (expect_encoded identity_frame) s) (λ t. (refl, refl, refl))
            (send_encoded-Extends identity_frame s (omega arith)))
      | inr n ↦ rw n (stays 16 s s refl refl refl)
    ]

abbrev time_frame_of : TimeMode → ℕ → Frame
time_frame_of mode tick = record { kind = time_kind mode; channel = 0; payload = tick_bytes tick }

abbrev sixteen_each : List TimeMode → ℕ
sixteen_each [] = 0
sixteen_each (mode ∷ modes) = 16 + sixteen_each modes

send_times-Extends :
    (c : Clocks) (modes : List TimeMode) (s : Session)
    → Extends (sixteen_each modes) s (send_times c modes s)
unfolding send_times
send_times-Extends c [] s = stays 0 s s refl refl refl
send_times-Extends c (mode ∷ modes) s =
    then_do-Extends 16 (sixteen_each modes) s _ (send_times c modes)
      (send_encoded-Extends (time_frame_of mode (tick_of c mode)) s (omega arith))
      (send_times-Extends c modes)

widened : (n m : ℕ) (s : Session) (o : Option Session) → n ≤ m → Extends n s o → Extends m s o
widened n m s none h e = e
widened n m s (some t) h (c, i, out, e, few) = (c, i, out, e, omega (arith, few, h))

pub time_frames-Extends : (c : Clocks) (s : Session) → Extends 32 s (time_frames c s)
unfolding time_frames
time_frames-Extends c s =
    elim (Bool-cases
      (is_framed s.connection.mode && (any s.time_modes && leb s.next_time_frames c.now))) [
        | inl e ↦ rw e (
            map-Extends 32 s (λ t. record t { next_time_frames = c.now + 1000 })
              (send_times c (active s.time_modes) s) (λ t. (refl, refl, refl))
              (widened (sixteen_each (active s.time_modes)) 32 s _ (unfold active in ground arith)
                (send_times-Extends c (active s.time_modes) s)))
        | inr n ↦ rw n (stays 32 s s refl refl refl)
      ]
