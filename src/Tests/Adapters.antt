-- ===== src/Tests/Adapters.antt =====
-- Runs of the adapter of tools/cor24-debug-adapter/src/main.rs.
use sw_tos.Base.{
  ℕ, zero, suc, min, List, [], ◌∷◌, ◌++◌, map, true, ◌≡◌, refl, concat, arith, ok, Bytes, length,
  take, drop, All, append-nil, take-append-drop,
}
use sw_tos.Adapter.Decoder.Stream.{
  Message, frame, beat, received, Fits, push_all, stream_of, push_all-messages, push-encoded_frame,
}
use sw_tos.Adapter.Decoder.{fresh}
use sw_tos.Adapter.Output.{
  Written, wrote, again, write_all_retrying, Honest, Ended, write_all_retrying-Ended,
}
use sw_tos.Adapter.{encoded_frame, target_frame, tty_input}
use sw_tos.Protocol.Decoder
use sw_tos.Protocol.{FrameType, code_of}
use sw_tos.Tests.Frames.{output, closing}

abbrev messages : List Message
messages = frame output ∷ beat 0x34 0x12 0 ∷ frame closing ∷ []

messages_fit : All Fits messages
messages_fit = (omega arith, (tt, (omega arith, tt)))

-- The cut is after the first byte of the heartbeat.
abbrev reads : List Bytes
reads = take 13 (stream_of messages) ∷ drop 13 (stream_of messages) ∷ []

cut : concat reads ≡ stream_of messages
cut = rw (append-nil (drop 13 (stream_of messages))) (take-append-drop 13 (stream_of messages))

push_all-messages_example : push_all fresh reads ≡ (fresh, map received messages)
push_all-messages_example = push_all-messages messages reads messages_fit cut

push-encoded_frame_example :
    Decoder.push Decoder.fresh (encoded_frame (code_of FrameType.debug_response) 0 (12 ∷ [])) ≡ (
      Decoder.fresh,
      ok (record { kind = FrameType.debug_response; channel = 0; payload = 12 ∷ [] }) ∷ [],
    )
push-encoded_frame_example = push-encoded_frame FrameType.debug_response 0 (12 ∷ []) (omega arith)

-- A pseudo-terminal that refuses some calls, and then takes seven bytes a call.
abbrev Sink : Type 0
Sink = ℕ × Bytes

abbrev sink_write : Sink → Bytes → Sink × Written ℕ
sink_write (suc refusals, held) b = ((refusals, held), again)
sink_write (zero, held) b = ((zero, held ++ take (min 7 (length b)) b), wrote (min 7 (length b)))

abbrev held : Sink → Bytes
held (refusals, bytes) = bytes

abbrev refusals_left : Sink → ℕ
refusals_left (refusals, bytes) = refusals

sink_write-Honest :
    (s : Sink) (b : Bytes) → Honest sink_write held refusals_left s b (sink_write s b)
sink_write-Honest (suc refusals, bytes) b = (refl, omega arith)
sink_write-Honest (zero, bytes) b = (omega arith, refl, omega arith)

write_all_retrying-Ended_example :
    Ended sink_write held refusals_left
      (3, [])
      (1 ∷ 2 ∷ 3 ∷ [])
      (write_all_retrying sink_write 6 (3, []) (1 ∷ 2 ∷ 3 ∷ []))
write_all_retrying-Ended_example =
    write_all_retrying-Ended sink_write held refusals_left sink_write-Honest 6 (3, [])
      (1 ∷ 2 ∷ 3 ∷ []) (omega arith)

tty_input_is_for_target : target_frame tty_input ≡ true
unfolding target_frame
tty_input_is_for_target = refl
