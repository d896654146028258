-- ===== src/Adapter/Emulator/Frames.antt =====
-- The frames that the adapter of tools/cor24-debug-adapter/src/main.rs passes on to the program.
use sw_tos.Adapter.{Frame, raw_uart, encoded_frame, target_frame}
use sw_tos.Adapter.Decoder.Stream.{Message, frame, beat, received, bytes_of, stream_of}
use sw_tos.Protocol.{
  FrameType, tty_input, tty_output, channel_open, channel_close, channel_title, uptime, wall_clock,
  resource_snapshot, debug_request, debug_response, protocol_error, hello, hello_ack, code_of,
  frame_bytes,
}
use sw_tos.Base.{
  List, [], ◌∷◌, ◌++◌, append_assoc, map, Bool, true, false, ◌==◌, ◌&&◌, ◌||◌, ◌≡◌, refl, sym,
  arith, Bytes, codes, bytes_eq, All, if◌then◌else◌,
}

-- The frames that are meant for the program, and the bytes that it receives for one.
unfoldable pub is_transparent : Frame → Bool
unfolding target_frame bytes_eq
is_transparent f =
    f.kind == raw_uart || (f.kind == 12 && bytes_eq f.payload (codes "SWT1") || target_frame f.kind)

unfoldable pub fed_bytes : Frame → Bytes
unfolding encoded_frame
fed_bytes f = if f.kind == raw_uart then f.payload else encoded_frame f.kind f.channel f.payload

pub not_debug : (f : Frame) → is_transparent f ≡ true → (f.kind == 9) ≡ false
unfolding is_transparent target_frame
not_debug f h = ground (arith, h)

right_of : (a b : Bool) → (a || b) ≡ true → a ≡ false → b ≡ true
right_of true b h n = absurd (grind (arith, n))
right_of false b h n = h

pub is_target :
    (f : Frame)
    → is_transparent f ≡ true
    → (f.kind == raw_uart) ≡ false
    → (f.kind == 12 && bytes_eq f.payload (codes "SWT1") || target_frame f.kind) ≡ true
unfolding is_transparent
is_target f h n =
    right_of (f.kind == raw_uart)
      (f.kind == 12 && bytes_eq f.payload (codes "SWT1") || target_frame f.kind) h n

abbrev pub fed_each : List Frame → Bytes
fed_each [] = []
fed_each (f ∷ fs) = fed_bytes f ++ fed_each fs

pub fed_each-append : (fs gs : List Frame) → fed_each (fs ++ gs) ≡ fed_each fs ++ fed_each gs
fed_each-append [] gs = refl
fed_each-append (f ∷ fs) gs =
    rw (fed_each-append fs gs) (sym (append_assoc (fed_bytes f) (fed_each fs) (fed_each gs)))

abbrev pub AreTransparent : List Frame → Type 0
AreTransparent fs = All (λ f. is_transparent f ≡ true) fs

code_of-raw_uart : (k : FrameType) → (code_of k == raw_uart) ≡ false
unfolding code_of
code_of-raw_uart tty_input = refl
code_of-raw_uart tty_output = refl
code_of-raw_uart channel_open = refl
code_of-raw_uart channel_close = refl
code_of-raw_uart channel_title = refl
code_of-raw_uart uptime = refl
code_of-raw_uart wall_clock = refl
code_of-raw_uart resource_snapshot = refl
code_of-raw_uart debug_request = refl
code_of-raw_uart debug_response = refl
code_of-raw_uart protocol_error = refl
code_of-raw_uart hello = refl
code_of-raw_uart hello_ack = refl

fed_bytes-received : (m : Message) → fed_bytes (received m) ≡ bytes_of m
unfolding fed_bytes encoded_frame frame_bytes
fed_bytes-received (frame f) = rw (code_of-raw_uart f.kind) refl
fed_bytes-received (beat a b c) = refl

pub fed_each-received : (ms : List Message) → fed_each (map received ms) ≡ stream_of ms
fed_each-received [] = refl
fed_each-received (m ∷ ms) = rw (fed_bytes-received m, fed_each-received ms) refl
