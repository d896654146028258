-- ===== src/Adapter/Decoder/Stream.antt =====
-- What the adapter's receiver makes of a stream of frames and heartbeats.
use sw_tos.Base.{
  ℕ, ◌+◌, ◌*◌, ◌%◌, ◌/◌, ◌<◌, ◌≤◌, List, [], ◌∷◌, ◌++◌, append_assoc, append-nil, map, ◌≡◌, refl,
  sym, ◌∙◌, concat, arith, ok, Bytes, length, length-append, take-length, get_or-length,
  drop-suc-length, starts_with, find_window, All,
}
use sw_tos.Adapter.Decoder.Turns.{turn-IsScanner, turn_here}
use sw_tos.Adapter.Decoder.{at_heartbeat, at_frame, at_mark, turn, Decoder, fresh, push, kept_tail}
use sw_tos.Adapter.{Frame, raw_uart, encoded_frame}
use sw_tos.Protocol.Decoder
use sw_tos.Protocol.Decoder.Stream.{push_frames}
use sw_tos.Protocol.{FrameType, max_payload, checksum, code_of, frame_bytes}
use sw_tos.Protocol
use sw_tos.Scanner.Laws.{scan-append, scan_next, scan_stop, scan_settles}
use sw_tos.Scanner.{stop, next}

-- What is written to the adapter: a frame of the frontend, or a heartbeat of three further bytes.
pub data Message : Type 0 where
  frame : Protocol.Frame → Message
  beat : ℕ → ℕ → ℕ → Message

abbrev pub bytes_of : Message → Bytes
bytes_of (frame f) = frame_bytes f
bytes_of (beat a b c) = 0xff ∷ 1 ∷ a ∷ b ∷ c ∷ []

-- The frame that the adapter reads for it.
abbrev pub received : Message → Frame
received (frame f) = record { kind = code_of f.kind; channel = f.channel; payload = f.payload }
received (beat a b c) = record { kind = raw_uart; channel = 0; payload = 0xff ∷ 1 ∷ a ∷ b ∷ c ∷ [] }

-- The payload's length is a `u16`.
abbrev pub Fits : Message → Type 0
Fits (frame f) = length f.payload < 65536
Fits (beat a b c) = Unit

at_frame_whole :
    (kind channel l0 l1 : ℕ) (payload rest : Bytes)
    → l0 + l1 * 256 ≡ length payload
    → at_frame (
        0xa5
        ∷ 0x5a
        ∷ 1
        ∷ kind
        ∷ channel
        ∷ l0
        ∷ l1
        ∷ (payload ++ (checksum (1 ∷ kind ∷ channel ∷ l0 ∷ l1 ∷ payload) ∷ rest)))
      ≡ next (record { kind = kind; channel = channel; payload = payload } ∷ []) rest
unfolding at_frame
at_frame_whole kind channel l0 l1 payload rest size = rw size (
    ground (
      arith,
      take-length payload (checksum (1 ∷ kind ∷ channel ∷ l0 ∷ l1 ∷ payload) ∷ rest),
      get_or-length payload rest (checksum (1 ∷ kind ∷ channel ∷ l0 ∷ l1 ∷ payload)) 0,
      drop-suc-length payload rest (checksum (1 ∷ kind ∷ channel ∷ l0 ∷ l1 ∷ payload)),
      length-append payload (checksum (1 ∷ kind ∷ channel ∷ l0 ∷ l1 ∷ payload) ∷ rest),
    ))

turn-bytes_of :
    (m : Message) (rest : Bytes) → Fits m → turn (bytes_of m ++ rest) ≡ next (received m ∷ []) rest
turn-bytes_of (beat a b c) rest h =
    turn_here (bytes_of (beat a b c) ++ rest) (unfold starts_with in refl)
    ∙ unfold at_mark starts_with at_heartbeat in refl
turn-bytes_of (frame f) rest h =
    turn_here (frame_bytes f ++ rest) (unfold frame_bytes starts_with in refl)
    ∙ unfold frame_bytes at_mark starts_with in
      (rw append_assoc (
        at_frame_whole (code_of f.kind) f.channel (length f.payload % 65536 % 256)
          (length f.payload % 65536 / 256 % 256) f.payload rest (omega arith)))

-- The reads of the pseudo-terminal, one after another.
unfoldable pub push_all : Decoder → List Bytes → Decoder × List Frame
push_all d [] = (d, [])
push_all d (input ∷ inputs) =
    let (d', items) = push d input in let (d'', later) = push_all d' inputs in (d'', items ++ later)

abbrev pub IsSettled : Decoder → Type 0
IsSettled d = turn d.bytes ≡ stop d.bytes

pub fresh-IsSettled : IsSettled fresh
fresh-IsSettled = unfold turn starts_with find_window kept_tail in refl

push-IsSettled : (d : Decoder) (input : Bytes) → IsSettled (push d input).0
unfolding push
push-IsSettled d input = scan_settles turn-IsScanner (d.bytes ++ input)

push_nil : (d : Decoder) → IsSettled d → push d [] ≡ (d, [])
unfolding push
push_nil d settled = rw (append-nil d.bytes, scan_stop turn-IsScanner d.bytes settled)

push-append :
    (d : Decoder) (input more : Bytes)
    → (let (d', items) = push d input in
        let (d'', later) = push d' more in
        let whole : Decoder × List Frame = (d'', items ++ later) in whole)
      ≡ push d (input ++ more)
unfolding push
push-append d input more =
    rw (← append_assoc d.bytes input more, scan-append turn-IsScanner (d.bytes ++ input) more)

push_all-concat :
    (d : Decoder) (inputs : List Bytes) → IsSettled d → push_all d inputs ≡ push d (concat inputs)
unfolding push_all
push_all-concat d [] settled = sym (push_nil d settled)
push_all-concat d (input ∷ inputs) settled =
    rw (push_all-concat (push d input).0 inputs (push-IsSettled d input))
      (push-append d input (concat inputs))

-- The bytes of several messages, as they are written.
abbrev pub stream_of : List Message → Bytes
stream_of [] = []
stream_of (m ∷ ms) = bytes_of m ++ stream_of ms

push_message :
    (m : Message) (rest : Bytes)
    → Fits m
    → push fresh (bytes_of m ++ rest) ≡ (
        let (d, items) = push fresh rest in
        let read : Decoder × List Frame = (d, received m ∷ items) in read)
unfolding push
push_message m rest h = rw (scan_next turn-IsScanner _ (turn-bytes_of m rest h))

push_messages :
    (ms : List Message) → All Fits ms → push fresh (stream_of ms) ≡ (fresh, map received ms)
push_messages [] h = push_nil fresh fresh-IsSettled
push_messages (m ∷ ms) h = push_message m (stream_of ms) h.0 ∙ rw (push_messages ms h.1)

-- Frames that the frontend encodes, with payloads of less than 65536 bytes, and raw heartbeats,
-- written in any order and cut into reads at any places, reach a new decoder of the adapter as
-- they were written, in order and with nothing else.
pub push_all-messages :
    (ms : List Message) (inputs : List Bytes)
    → All Fits ms
    → concat inputs ≡ stream_of ms
    → push_all fresh inputs ≡ (fresh, map received ms)
push_all-messages ms inputs h cut =
    push_all-concat fresh inputs fresh-IsSettled ∙ rw cut (push_messages ms h)

-- A frame of any kind that `encoded_frame` writes is read alone.
pub push-whole :
    (kind channel : ℕ) (payload : Bytes)
    → length payload < 65536
    → push fresh (encoded_frame kind channel payload)
      ≡ (fresh, record { kind = kind; channel = channel; payload = payload } ∷ [])
unfolding push
push-whole kind channel payload h = rw (scan_next turn-IsScanner _ whole)
  where
    whole :
        turn (encoded_frame kind channel payload)
        ≡ next (record { kind = kind; channel = channel; payload = payload } ∷ []) []
    whole =
        turn_here (encoded_frame kind channel payload) (unfold encoded_frame starts_with in refl)
        ∙ unfold encoded_frame at_mark starts_with in
          (at_frame_whole kind channel (length payload % 65536 % 256)
            (length payload % 65536 / 256 % 256) payload [] (omega arith))

-- The frontend reads what the adapter writes: a frame of any of its kinds, with a payload within
-- the protocol's limit, comes out of a new frontend decoder alone and as it was.
pub push-encoded_frame :
    (kind : FrameType) (channel : ℕ) (payload : Bytes)
    → length payload ≤ max_payload
    → Protocol.Decoder.push Protocol.Decoder.fresh (encoded_frame (code_of kind) channel payload)
      ≡ (
        Protocol.Decoder.fresh,
        ok (record { kind = kind; channel = channel; payload = payload }) ∷ [],
      )
push-encoded_frame kind channel payload h =
    let f : Protocol.Frame = record { kind = kind; channel = channel; payload = payload } in
    let same : encoded_frame (code_of kind) channel payload ≡ frame_bytes f ++ [] =
      unfold encoded_frame frame_bytes in (sym (append-nil _)) in
    rw same (push_frames (f ∷ []) (h, tt))
