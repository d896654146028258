-- ===== src/Frontend/Requests/Delivery.antt =====
-- How what the frontend sends is read: by the adapter's decoder, and by a target that undoes the
-- escapes of a tick.
use sw_tos.Adapter.Decoder.Stream.{push-whole}
use sw_tos.Adapter.Decoder
use sw_tos.Adapter.{encoded_frame}
use sw_tos.Adapter
use sw_tos.Base.{
  ℕ, ◌<◌, ◌≤◌, ◌≢◌, [], ◌∷◌, ◌++◌, some, false, ◌≡◌, refl, inl, inr, arith, ◌==◌, if◌then◌else◌,
  Bool-cases, Bytes, length, length-append, All,
}
use sw_tos.Frontend.Requests.{
  escaped, passthrough, passthrough_frame, expect_encoded, queue_serial, max_windows_serial_backlog,
}
use sw_tos.Protocol.{Frame, max_payload, code_of, encode_short, frame_bytes}

-- A passthrough request of the frontend is a frame of the adapter's kind for raw bytes.
passthrough_frame-encoded :
    (payload : Bytes) → passthrough_frame payload ≡ encoded_frame passthrough 0 payload
unfolding passthrough_frame encoded_frame
passthrough_frame-encoded payload = refl

-- Bytes that the frontend sends as a passthrough frame, at most 65535 of them, reach the adapter as
-- one frame of raw bytes for the target, unchanged.
pub push-passthrough_frame :
    (payload : Bytes)
    → length payload < 65536
    → Adapter.Decoder.push Adapter.Decoder.fresh (passthrough_frame payload) ≡ (
      Adapter.Decoder.fresh,
      record { kind = Adapter.raw_uart; channel = 0; payload = payload } ∷ [],
    )
push-passthrough_frame payload h = rw passthrough_frame-encoded (push-whole passthrough 0 payload h)

pub expect_encoded_short :
    (f : Frame) → length f.payload ≤ max_payload → expect_encoded f ≡ some (frame_bytes f)
unfolding expect_encoded
expect_encoded_short f h = rw (encode_short f h, expect_encoded)

frame_bytes-encoded :
    (f : Frame) → frame_bytes f ≡ encoded_frame (code_of f.kind) f.channel f.payload
unfolding frame_bytes encoded_frame
frame_bytes-encoded f = refl

-- A frame that the frontend expects to encode is encoded, if its payload is within the limit,
-- and the adapter reads it alone, with its code for a kind.
pub push-expect_encoded :
    (f : Frame)
    → length f.payload ≤ max_payload
    → (bytes : Bytes) × (expect_encoded f ≡ some bytes)
      × (Adapter.Decoder.push Adapter.Decoder.fresh bytes ≡ (
        Adapter.Decoder.fresh,
        record { kind = code_of f.kind; channel = f.channel; payload = f.payload } ∷ [],
      ))
push-expect_encoded f h = (
  frame_bytes f,
  expect_encoded_short f h,
  rw frame_bytes-encoded (push-whole (code_of f.kind) f.channel f.payload (omega arith)),
)

-- What undoes the escapes, as docs/hw-testing-status.md documents them: after a byte of all ones,
-- 0 stands for that byte and 3 for 0x1d; any other code is a command, and no byte of a payload.
pub unescaped : Bytes → Bytes
unescaped [] = []
unescaped (byte ∷ []) = byte ∷ []
unescaped (byte ∷ next ∷ bytes) =
    let rest = unescaped bytes in
    let later = unescaped (next ∷ bytes) in
    if byte == 0xff
    then (if next == 0 then 0xff ∷ rest else if next == 3 then 0x1d ∷ rest else rest)
    else byte ∷ later

unescaped_plain :
    (byte : ℕ) (bytes : Bytes)
    → (byte == 0xff) ≡ false
    → unescaped (byte ∷ bytes) ≡ byte ∷ unescaped bytes
unfolding unescaped
unescaped_plain byte [] h = refl
unescaped_plain byte (b ∷ bytes) h = rw h

-- A target that undoes the documented escapes, FF 00 for FF and FF 03 for 1D, and takes any other
-- code for a command, reads from the escaped bytes of a time frame the bytes themselves, and no
-- byte of the escaped ones is 0x1d, the Escape key's.
pub unescaped-escaped :
    (bytes : Bytes) → (unescaped (escaped bytes) ≡ bytes) × All (λ b. b ≢ 0x1d) (escaped bytes)
unfolding escaped unescaped
unescaped-escaped [] = (refl, tt)
unescaped-escaped (byte ∷ bytes) =
    let (back, clean) = unescaped-escaped bytes in
    elim (Bool-cases (byte == 0xff)) [
      | inl full ↦ ground (arith, back, clean)
      | inr other ↦ elim (Bool-cases (byte == 0x1d)) [
        | inl escape ↦ ground (arith, back, clean)
        | inr plain ↦ ground (arith, back, clean, unescaped_plain byte (escaped bytes) other)
      ]
    ]

-- A queue within its limit in front of the serial port stays within it: bytes that it accepts are
-- put behind those that wait, and when it refuses bytes it is as it was.
pub queue_serial-cases :
    (output bytes : Bytes)
    → length output ≤ max_windows_serial_backlog
    → (length (queue_serial output bytes).0 ≤ max_windows_serial_backlog)
      × ((queue_serial output bytes).0
          ≡ (if (queue_serial output bytes).1 then output ++ bytes else output))
unfolding queue_serial
queue_serial-cases output bytes h = ground (arith, length-append output bytes)
