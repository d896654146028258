-- ===== src/Protocol/Connection.antt =====
-- `ConnectionDecoder` of tools/te-rs/src/protocol.rs: recovery-terminal bytes until the target
-- acknowledges framed mode, then frames.
pub mod Opening
pub mod Wire
pub mod Chunks
pub mod Session
use sw_tos.Base.{
  ℕ, zero, suc, ◌+◌, ◌-◌, min, List, [], ◌∷◌, ◌++◌, map, none, some, ok, err, ◌==◌, if◌then◌else◌,
  Bytes, length, take, drop, bytes_eq, find_window,
}
use sw_tos.Protocol.Decoder.{Item, Decoder}
use sw_tos.Protocol.Decoder
use sw_tos.Protocol.Negotiator.{Mode, hello_ack}
use sw_tos.Protocol.{DecodeError, Frame, encode}

pub data StreamItem : Type 0 where
  plain : Bytes → StreamItem
  frame : Frame → StreamItem
  error : DecodeError → StreamItem

pub record ConnectionDecoder : Type 0 where
  pub mode : Mode
  pub pending : Bytes
  pub framed : Decoder

-- `ConnectionDecoder::default()`.
abbrev pub fresh : ConnectionDecoder
fresh = record { mode = Mode.plain; pending = []; framed = Decoder.fresh }

-- `hello_ack().encode().expect(…)`, which `Wire.ack_bytes` shows not to fail.
unfoldable pub ack : Bytes
unfolding encode
ack = elim (encode hello_ack) [ ok bytes ↦ bytes | err e ↦ [] ]

-- The search of `longest_suffix_prefix` from `limit` down to 1.
unfoldable pub suffix_from : Bytes → Bytes → ℕ → ℕ
unfolding bytes_eq
suffix_from bytes prefix zero = 0
suffix_from bytes prefix (suc n) =
    if bytes_eq (drop (length bytes - suc n) bytes) (take (suc n) prefix)
    then suc n
    else suffix_from bytes prefix n

unfoldable pub longest_suffix_prefix : Bytes → Bytes → ℕ
unfolding suffix_from
longest_suffix_prefix bytes prefix =
    suffix_from bytes prefix (min (length bytes) (length prefix - 1))

-- The closure that `push` maps over the framed results.
unfoldable pub stream_item : Item → StreamItem
stream_item (ok f) = frame f
stream_item (err e) = error e

-- A `Plain` item, if there are bytes for it.
abbrev pub plain_item : Bytes → List StreamItem
plain_item [] = []
plain_item (b ∷ bs) = plain (b ∷ bs) ∷ []

-- `push` in framed mode.
unfoldable pub push_framed : ConnectionDecoder → Bytes → ConnectionDecoder × List StreamItem
push_framed c input =
    let (d, items) = Decoder.push c.framed input in (record c { framed = d }, map stream_item items)

-- `push` in plain mode, on `pending` with the input appended. Its call of `push` on the trailing
-- bytes is made in framed mode.
unfoldable pub push_plain : ConnectionDecoder → Bytes → ConnectionDecoder × List StreamItem
unfolding push_framed longest_suffix_prefix find_window ack
push_plain c pending = elim (find_window pending ack) [
  | some position ↦
      let trailing = drop (position + length ack) pending in
      let (c', items) = push_framed (record c { pending = []; mode = Mode.framed }) trailing in
      (c', plain_item (take position pending) ++ (frame hello_ack ∷ items))
  | none ↦
      let plain_length = length pending - longest_suffix_prefix pending ack in
      (record c { pending = drop plain_length pending }, plain_item (take plain_length pending))
]

-- `ConnectionDecoder::push`.
unfoldable pub push_in : Mode → ConnectionDecoder → Bytes → ConnectionDecoder × List StreamItem
push_in Mode.framed c input = push_framed c input
push_in Mode.plain c input = push_plain c (c.pending ++ input)

unfoldable pub push : ConnectionDecoder → Bytes → ConnectionDecoder × List StreamItem
unfolding push_in push_plain
push c input = push_in c.mode c input

-- `resynchronize` and `disconnect`.
abbrev pub resynchronize : ConnectionDecoder → ConnectionDecoder
resynchronize c = record c { pending = []; framed = Decoder.clear c.framed }

abbrev pub disconnect : ConnectionDecoder → ConnectionDecoder × List StreamItem
disconnect c = (
  record { mode = Mode.plain; pending = []; framed = Decoder.clear c.framed },
  plain_item c.pending,
)
