-- ===== src/Protocol/Decoder/Stream.antt =====
-- What the framed receiver makes of a stream: whole frames come out as they went in, however the
-- stream is cut into reads.
use sw_tos.Base.{
  ℕ, ◌+◌, ◌*◌, ◌%◌, ◌/◌, ◌≤◌, List, [], ◌∷◌, ◌++◌, append_assoc, append-nil, map, ◌≡◌, refl, sym,
  ◌∙◌, concat, arith, ok, Bytes, length, length-append, take-length, get_or-length, drop-suc-length,
  starts_with, find_window, All,
}
use sw_tos.Protocol.Decoder.{Item, at_sync, turn, Decoder, fresh, kept_tail, push}
use sw_tos.Protocol.Decoder.Turns.{turn-IsScanner, turn_here}
use sw_tos.Protocol.{
  version, max_payload, FrameType, Frame, frame_bytes, checksum, code_of, try_from-code_of,
}
use sw_tos.Scanner.{stop, next}
use sw_tos.Scanner.Laws.{scan-append, scan_next, scan_stop, scan_settles}

-- A header, a payload of the length that it gives, and their checksum are read as a frame.
at_sync_frame :
    (kind : FrameType) (channel l0 l1 : ℕ) (payload rest : Bytes)
    → l0 + l1 * 256 ≡ length payload
    → length payload ≤ max_payload
    → at_sync (
        0xa5
        ∷ 0x5a
        ∷ version
        ∷ code_of kind
        ∷ channel
        ∷ l0
        ∷ l1
        ∷ (payload ++ (checksum (version ∷ code_of kind ∷ channel ∷ l0 ∷ l1 ∷ payload) ∷ rest)))
      ≡ next (ok (record { kind = kind; channel = channel; payload = payload }) ∷ []) rest
unfolding at_sync
at_sync_frame kind channel l0 l1 payload rest size short = rw size (
    ground (
      arith,
      take-length payload (checksum (version ∷ code_of kind ∷ channel ∷ l0 ∷ l1 ∷ payload) ∷ rest),
      get_or-length payload rest (checksum (version ∷ code_of kind ∷ channel ∷ l0 ∷ l1 ∷ payload))
          0,
      drop-suc-length payload rest
          (checksum (version ∷ code_of kind ∷ channel ∷ l0 ∷ l1 ∷ payload)),
      length-append payload
          (checksum (version ∷ code_of kind ∷ channel ∷ l0 ∷ l1 ∷ payload) ∷ rest),
      try_from-code_of kind,
    ))

-- The turn reads a frame that stands at the front of the buffer, and drains it whole.
pub turn-frame_bytes :
    (f : Frame) (rest : Bytes)
    → length f.payload ≤ max_payload
    → turn (frame_bytes f ++ rest) ≡ next (ok f ∷ []) rest
unfolding frame_bytes
turn-frame_bytes f rest short =
    turn_here (frame_bytes f ++ rest) (unfold starts_with in refl)
    ∙ rw append_assoc (
        at_sync_frame f.kind f.channel (length f.payload % 65536 % 256)
          (length f.payload % 65536 / 256 % 256) f.payload rest (omega arith) short)

-- The reads of a connection, one after another.
unfoldable pub push_all : Decoder → List Bytes → Decoder × List Item
push_all d [] = (d, [])
push_all d (input ∷ inputs) =
    let (d', items) = push d input in let (d'', later) = push_all d' inputs in (d'', items ++ later)

-- The bytes of several frames, as they are sent.
abbrev pub stream_of : List Frame → Bytes
stream_of [] = []
stream_of (f ∷ fs) = frame_bytes f ++ stream_of fs

-- The decoder has nothing left to do until more bytes come. Every decoder in use is such.
abbrev pub IsSettled : Decoder → Type 0
IsSettled d = turn d.buffer ≡ stop d.buffer

-- A new decoder is settled, and so is one after a read, whatever it was before.
pub fresh-IsSettled : IsSettled fresh
fresh-IsSettled = unfold turn find_window kept_tail in refl

pub push-IsSettled : (d : Decoder) (input : Bytes) → IsSettled (push d input).0
unfolding push
push-IsSettled d input = scan_settles turn-IsScanner (d.buffer ++ input)

push_nil : (d : Decoder) → IsSettled d → push d [] ≡ (d, [])
unfolding push
push_nil d settled = rw (append-nil d.buffer, scan_stop turn-IsScanner d.buffer settled)

pub push-append :
    (d : Decoder) (input more : Bytes)
    → (let (d', items) = push d input in
        let (d'', later) = push d' more in
        let whole : Decoder × List Item = (d'', items ++ later) in whole)
      ≡ push d (input ++ more)
unfolding push
push-append d input more =
    rw (← append_assoc d.buffer input more, scan-append turn-IsScanner (d.buffer ++ input) more)

-- However a stream is cut into reads, the reads leave a decoder that has nothing left to do in the
-- same state, and put out the same items, as one read of the whole stream.
pub push_all-concat :
    (d : Decoder) (inputs : List Bytes) → IsSettled d → push_all d inputs ≡ push d (concat inputs)
unfolding push_all
push_all-concat d [] settled = sym (push_nil d settled)
push_all-concat d (input ∷ inputs) settled =
    rw (push_all-concat (push d input).0 inputs (push-IsSettled d input))
      (push-append d input (concat inputs))

push_frame :
    (f : Frame) (rest : Bytes)
    → length f.payload ≤ max_payload
    → push fresh (frame_bytes f ++ rest) ≡ (
        let (d, items) = push fresh rest in
        let read : Decoder × List Item = (d, ok f ∷ items) in read)
unfolding push
push_frame f rest short = rw (scan_next turn-IsScanner _ (turn-frame_bytes f rest short))

pub push_frames :
    (fs : List Frame)
    → All (λ (f : Frame). length f.payload ≤ max_payload) fs
    → push fresh (stream_of fs) ≡ (fresh, map ok fs)
push_frames [] h = push_nil fresh fresh-IsSettled
push_frames (f ∷ fs) h = push_frame f (stream_of fs) h.0 ∙ rw (push_frames fs h.1)

-- Frames with payloads within the limit that are sent one after another, cut into reads at any
-- places, come out of a new decoder as they were sent, in order and with nothing else, and the
-- decoder keeps no byte of them.
pub push_all-stream_of :
    (fs : List Frame) (inputs : List Bytes)
    → All (λ (f : Frame). length f.payload ≤ max_payload) fs
    → concat inputs ≡ stream_of fs
    → push_all fresh inputs ≡ (fresh, map ok fs)
push_all-stream_of fs inputs h cut =
    push_all-concat fresh inputs fresh-IsSettled ∙ rw cut (push_frames fs h)
