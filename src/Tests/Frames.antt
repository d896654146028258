-- ===== src/Tests/Frames.antt =====
-- Runs of the frame protocol of tools/te-rs/src/protocol.rs.
use sw_tos.Base.{
  ◌+◌, ◌<◌, ◌≤◌, List, [], ◌∷◌, map, ◌≡◌, refl, concat, arith, ok, Bytes, IsBytes, length, take,
  drop, All, take-append-drop, append-nil,
}
use sw_tos.Protocol.Decoder.{fresh, push}
use sw_tos.Protocol.Decoder.Stream.{
  push_all, stream_of, push_all-stream_of, push_all-concat, fresh-IsSettled,
}
use sw_tos.Protocol.Decoder.Frames.{StandsIn}
use sw_tos.Protocol.Decoder.Sound.{push-StandsIn}
use sw_tos.Protocol.Decoder.Bounds.{length-push}
use sw_tos.Protocol.{
  FrameType, Frame, frame_bytes, encode, checksum-lt, max_payload, version, code_of, checksum,
}

abbrev pub output : Frame
output = record { kind = FrameType.tty_output; channel = 1; payload = 104 ∷ 105 ∷ 0xa5 ∷ 0x5a ∷ [] }

abbrev pub closing : Frame
closing = record { kind = FrameType.channel_close; channel = 2; payload = [] }

abbrev pub two_frames : List Frame
two_frames = output ∷ closing ∷ []

pub two_frames_short : All (λ (f : Frame). length f.payload ≤ max_payload) two_frames
two_frames_short = (omega arith, (omega arith, tt))

-- A cut inside the first frame's payload, between the bytes of a sync.
abbrev reads : List Bytes
reads = take 10 (stream_of two_frames) ∷ drop 10 (stream_of two_frames) ∷ []

cut : concat reads ≡ stream_of two_frames
cut = rw (append-nil (drop 10 (stream_of two_frames))) (take-append-drop 10 (stream_of two_frames))

push_all-stream_of_example : push_all fresh reads ≡ (fresh, map ok two_frames)
push_all-stream_of_example = push_all-stream_of two_frames reads two_frames_short cut

push_all-concat_example : push_all fresh reads ≡ push fresh (concat reads)
push_all-concat_example = push_all-concat fresh reads fresh-IsSettled

closing-IsBytes : IsBytes (frame_bytes closing)
unfolding frame_bytes
closing-IsBytes =
    ground (arith, checksum-lt (version ∷ code_of FrameType.channel_close ∷ 2 ∷ 0 ∷ 0 ∷ []))

push-StandsIn_example : All (StandsIn (frame_bytes closing)) (push fresh (frame_bytes closing)).1
push-StandsIn_example = push-StandsIn fresh (frame_bytes closing) closing-IsBytes

length-push_example : length (push fresh (frame_bytes output)).0.buffer < 8 + max_payload
length-push_example = length-push fresh (frame_bytes output)

closing_encoded : encode closing ≡ ok (0xa5 ∷ 0x5a ∷ 1 ∷ 4 ∷ 2 ∷ 0 ∷ 0 ∷ 7 ∷ [])
unfolding encode frame_bytes code_of checksum
closing_encoded = refl
