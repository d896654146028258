-- ===== src/Tests/Connections.antt =====
-- Runs of a connection of tools/te-rs/src/protocol.rs: the handshake and what follows it.
use sw_tos.Base.{
  ◌<◌, [], ◌∷◌, ◌++◌, map, none, some, ◌≡◌, refl, Bytes, length, starts_with, find_window, bytes_eq,
}
use sw_tos.Protocol.Connection.{
  fresh, ack, push, push_in, suffix_from, push_plain, disconnect, longest_suffix_prefix,
}
use sw_tos.Protocol.Connection.Wire.{
  tokens, seen, settle, got_byte, got_frame, push_plain-settle, ack_bytes,
}
use sw_tos.Protocol.Connection.Chunks.{followed_by, push-append_seen}
use sw_tos.Protocol.Connection.Session.{push_session, push_plain_disconnect}
use sw_tos.Protocol.Decoder
use sw_tos.Protocol.Decoder.Stream.{stream_of}
use sw_tos.Protocol.Negotiator.{Mode, Observes, initial, observe, hello_ack, observe-Observes}
use sw_tos.Tests.Frames.{two_frames, two_frames_short}

-- "ok" and the start of an acknowledgement that never comes.
abbrev text : Bytes
text = 111 ∷ 107 ∷ 0xa5 ∷ []

push-append_seen_example :
    followed_by (seen (push fresh text)) (λ c. seen (push c (0x5a ∷ 1 ∷ [])))
    ≡ seen (push fresh (text ++ (0x5a ∷ 1 ∷ [])))
push-append_seen_example = push-append_seen fresh text (0x5a ∷ 1 ∷ [])

push_plain-settle_example : seen (push_plain fresh text) ≡ settle fresh text
push_plain-settle_example = push_plain-settle fresh text

no_ack : find_window text ack ≡ none
no_ack = rw ack_bytes (unfold find_window starts_with in refl)

ack_after : find_window (text ++ ack) ack ≡ some (length text)
ack_after = rw ack_bytes (unfold find_window starts_with in refl)

push_session_example : seen (push fresh (text ++ (ack ++ stream_of two_frames))) ≡ (
  record { mode = Mode.framed; pending = []; framed = Decoder.fresh },
  map got_byte text ++ (got_frame hello_ack ∷ map got_frame two_frames),
)
push_session_example = push_session text two_frames ack_after two_frames_short

text_stays_plain : (push fresh text).0.mode ≡ Mode.plain
unfolding push push_in push_plain find_window starts_with longest_suffix_prefix suffix_from bytes_eq
    ack
text_stays_plain = refl

push_plain_disconnect_example :
    (length (push fresh text).0.pending < length ack)
    × (tokens (push fresh text).1 ++ tokens (disconnect (push fresh text).0).1
        ≡ map got_byte (fresh.pending ++ text))
push_plain_disconnect_example = push_plain_disconnect fresh text refl text_stays_plain

observe-Observes_example : Observes initial hello_ack (observe initial hello_ack)
observe-Observes_example = observe-Observes initial hello_ack
