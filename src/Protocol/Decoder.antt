-- ===== src/Protocol/Decoder.antt =====
-- The framed receiver of tools/te-rs/src/protocol.rs: `Decoder` and its loop.
pub mod Turns
pub mod Stream
pub mod Frames
pub mod Sound
pub mod Bounds
use sw_tos.Base.{
  ℕ, suc, ◌+◌, ◌-◌, ◌*◌, List, [], ◌∷◌, ◌++◌, Option, none, some, Bool, true, false, not, ltb, ◌==◌,
  if◌then◌else◌, Result, ok, err, Bytes, length, get_or, take, drop, get_last?, find_window,
}
use sw_tos.Protocol.{
  sync, version, max_payload, FrameType, DecodeError, bad_version, bad_checksum, Frame, try_from,
  checksum,
}
use sw_tos.Scanner.{Turn, stop, next, Scanned, scan}

abbrev pub Item : Type 0
Item = Result Frame DecodeError

-- `self.buffer.last() == Some(&SYNC[0])`.
abbrev last_is_sync : Bytes → Bool
last_is_sync b = elim (get_last? b) [ none ↦ false | some byte ↦ byte == 0xa5 ]

-- The buffer that is kept when no SYNC was found in it.
pub kept_tail : Bytes → Bytes
kept_tail b = if last_is_sync b then drop (length b - 1) b else []

-- What the match on `FrameType::try_from` puts out.
pub typed_frame : ℕ → ℕ → Bytes → Item
unfolding try_from
typed_frame code channel payload = elim (try_from code) [
  | ok kind ↦ ok (record { kind = kind; channel = channel; payload = payload })
  | err error ↦ err error
]

-- One turn on a buffer whose first two bytes are SYNC. The clause names the seven bytes of the
-- header; a shorter buffer waits. The two length bytes are disjoint parts of their `|`, a sum.
unfoldable pub at_sync : Bytes → Turn Item
unfolding typed_frame checksum
at_sync (s0 ∷ s1 ∷ v ∷ code ∷ channel ∷ l0 ∷ l1 ∷ body) =
    let buffer = s0 ∷ s1 ∷ v ∷ code ∷ channel ∷ l0 ∷ l1 ∷ body in
    let drained = s1 ∷ v ∷ code ∷ channel ∷ l0 ∷ l1 ∷ body in
    let size = l0 + l1 * 256 in
    let expected = checksum (v ∷ code ∷ channel ∷ l0 ∷ l1 ∷ take size body) in
    if not (v == version)
    then next (err (bad_version v) ∷ []) drained
    else if ltb max_payload size
    then next (err (DecodeError.payload_too_long size) ∷ []) drained
    else if ltb (length buffer) (8 + size)
    then stop buffer
    else if not (get_or body size 0 == expected)
    then next (err bad_checksum ∷ []) drained
    else next (typed_frame code channel (take size body) ∷ []) (drop (suc size) body)
at_sync short = stop short

-- One turn of the loop.
unfoldable pub turn : Bytes → Turn Item
unfolding kept_tail at_sync
turn buffer = elim (find_window buffer sync) [
  | none ↦ stop (kept_tail buffer)
  | some at ↦ at_sync (drop at buffer)
]

pub record Decoder : Type 0 where
  pub buffer : Bytes

-- `Decoder::new`, and what `clear` leaves.
abbrev pub fresh : Decoder
fresh = record { buffer = [] }

abbrev pub clear : Decoder → Decoder
clear d = record d { buffer = [] }

-- `Decoder::push`: the state after it, and its output.
unfoldable pub push : Decoder → Bytes → Decoder × List Item
unfolding scan turn
push d input =
    let done = scan turn (d.buffer ++ input) in (record { buffer = done.rest }, done.items)
