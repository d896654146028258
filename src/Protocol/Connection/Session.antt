-- ===== src/Protocol/Connection/Session.antt =====
-- A connection from the first byte to its end: what is kept, what a disconnect gives back, and
-- what the host sees of a target that boots, acknowledges and sends frames.
use sw_tos.Base.{
  ◌+◌, ◌≤◌, ◌<◌, List, [], ◌∷◌, ◌++◌, map, map-append, some, ok, false, ◌≡◌, refl, sym, ap, ◌∙◌,
  inl, inr, arith, Bool-cases, Bytes, All, dec_lt, length, take, drop, starts_with, append_assoc,
  drop-length, take-length, drop-add, take-append-drop, drop_all, find_window, find_window-append,
  starts_with_self,
}
use sw_tos.Protocol.Connection.{
  ConnectionDecoder, ack, fresh, stream_item, push_framed, push, disconnect,
}
use sw_tos.Protocol.Connection.Opening.{opening, opening_at, agrees_long, opening-find_window}
use sw_tos.Protocol.Connection.Wire.{
  Token, got_byte, got_frame, tokens, seen, acknowledged, settle, settle_hit, settle_miss,
  push_mode_plain, push_framed_mode, ack-pos, tokens-plain_item,
}
use sw_tos.Protocol.Decoder.{Decoder}
use sw_tos.Protocol.Decoder
use sw_tos.Protocol.Decoder.Stream.{stream_of, push_frames}
use sw_tos.Protocol.Negotiator.{Mode, hello_ack}
use sw_tos.Protocol.{Frame, max_payload}

-- What a read in plain mode leaves there.
acknowledged_mode : (c : ConnectionDecoder) (b : Bytes) → (acknowledged c b).0.mode ≡ Mode.framed
unfolding acknowledged
acknowledged_mode c b = push_framed_mode (record c { pending = []; mode = Mode.framed }) b

settle_kept :
    (c : ConnectionDecoder) (b : Bytes)
    → (settle c b).0.mode ≡ Mode.plain
    → (settle c b
        ≡ (record c { pending = drop (opening b ack) b }, map got_byte (take (opening b ack) b)))
      × (starts_with (drop (opening b ack) b) ack ≡ false)
settle_kept c b e = elim (Bool-cases (starts_with (drop (opening b ack) b) ack)) [
  | inl hit ↦
      cc (rw (settle_hit c b hit) at e, acknowledged_mode c (drop (opening b ack + length ack) b))
  | inr miss ↦ (settle_miss c b miss, miss)
]

kept_short :
    (b : Bytes)
    → starts_with (drop (opening b ack) b) ack ≡ false
    → length (drop (opening b ack) b) < length ack
kept_short b miss = elim (dec_lt (opening b ack) (length b)) [
  | no ge ↦ rw (drop_all (opening b ack) b (omega arith)) ack-pos
  | yes lt ↦ elim (dec_lt (length (drop (opening b ack) b)) (length ack)) [
    | yes short ↦ short
    | no long ↦
        cc (opening_at b ack lt, agrees_long (drop (opening b ack) b) ack (omega arith), miss)
  ]
]

-- While a plain connection stays plain it keeps less than an acknowledgement, and what a read puts
-- out and what a disconnect then puts out are together what was kept before and the bytes of the
-- read, in order.
pub push_plain_disconnect :
    (c : ConnectionDecoder) (input : Bytes)
    → c.mode ≡ Mode.plain
    → (push c input).0.mode ≡ Mode.plain
    → (length (push c input).0.pending < length ack)
      × (tokens (push c input).1 ++ tokens (disconnect (push c input).0).1
          ≡ map got_byte (c.pending ++ input))
push_plain_disconnect c input e f =
    let read = push_mode_plain c input e in
    let (settled, miss) =
      settle_kept c b (sym (ap (λ (r : ConnectionDecoder × List Token). r.0.mode) read) ∙ f) in
    let left = ap (λ (r : ConnectionDecoder × List Token). r.0.pending) (read ∙ settled) in
    let out = ap (λ (r : ConnectionDecoder × List Token). r.1) (read ∙ settled) in
    (
      rw left (kept_short b miss),
      rw (tokens-plain_item, left, out)
          (sym (map-append got_byte (take (opening b ack) b) (drop (opening b ack) b))
            ∙ ap (map got_byte) (take-append-drop (opening b ack) b)),
    )
  where
    b : Bytes
    b = c.pending ++ input

tokens_frames : (fs : List Frame) → tokens (map stream_item (map ok fs)) ≡ map got_frame fs
unfolding tokens stream_item
tokens_frames [] = refl
tokens_frames (f ∷ fs) = ap (◌∷◌ (got_frame f)) (tokens_frames fs)

acknowledged_frames :
    (fs : List Frame)
    → All (λ (f : Frame). length f.payload ≤ max_payload) fs
    → acknowledged fresh (stream_of fs) ≡ (
      record { mode = Mode.framed; pending = []; framed = Decoder.fresh },
      got_frame hello_ack ∷ map got_frame fs,
    )
unfolding acknowledged push_framed
acknowledged_frames fs h = rw (push_frames fs h) (rw tokens_frames)

-- A target that prints a text, acknowledges and sends frames with payloads within the limit: a new
-- connection puts out the text's bytes, the acknowledgement and the frames, and is then in framed
-- mode with nothing kept. The text is any in which, with the acknowledgement behind it, no
-- acknowledgement stands earlier.
pub push_session :
    (text : Bytes) (fs : List Frame)
    → find_window (text ++ ack) ack ≡ some (length text)
    → All (λ (f : Frame). length f.payload ≤ max_payload) fs
    → seen (push fresh (text ++ (ack ++ stream_of fs))) ≡ (
      record { mode = Mode.framed; pending = []; framed = Decoder.fresh },
      map got_byte text ++ (got_frame hello_ack ∷ map got_frame fs),
    )
push_session text fs e h =
    push_mode_plain fresh b refl
    ∙ settle_hit fresh b (rw (place, drop-length) (starts_with_self ack (stream_of fs)))
    ∙ rw (place, take-length, past, acknowledged_frames fs h)
  where
    b : Bytes
    b = text ++ (ack ++ stream_of fs)

    place : opening b ack ≡ length text
    place = opening-find_window b ack (
        rw (append_assoc text ack (stream_of fs)) at
          (find_window-append (text ++ ack) (stream_of fs) ack e))

    past : drop (length text + length ack) b ≡ stream_of fs
    past =
        drop-add (length text) (length ack) b
        ∙ ap (drop (length ack)) (drop-length text (ack ++ stream_of fs))
        ∙ drop-length ack (stream_of fs)
