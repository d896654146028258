-- ===== src/Protocol/Connection/Wire.antt =====
-- What the plain mode puts out, byte by byte: all that stands before the place where the
-- acknowledgement may begin.
use sw_tos.Base.{
  ℕ, ◌+◌, ◌-◌, ◌<◌, List, [], ◌∷◌, ◌++◌, map, none, some, true, false, ◌≡◌, refl, sym, ap, ◌∙◌, inl,
  inr, arith, Bool-cases, if◌then◌else◌, Bytes, length, take, drop, starts_with, find_window,
  append-nil, append_assoc,
}
use sw_tos.Protocol.Connection.{
  StreamItem, plain, frame, error, ConnectionDecoder, ack, longest_suffix_prefix, plain_item,
  push_framed, push_plain, push_in, push,
}
use sw_tos.Protocol.Connection.Opening.{
  opening, opening-le, find_window-opening, longest_suffix_prefix-opening,
}
use sw_tos.Protocol.Negotiator.{Mode, hello_ack}
use sw_tos.Protocol.{DecodeError, Frame}

-- What a reader of the items sees: single bytes, frames and errors.
pub data Token : Type 0 where
  got_byte : ℕ → Token
  got_frame : Frame → Token
  got_error : DecodeError → Token

unfoldable pub tokens : List StreamItem → List Token
tokens [] = []
tokens (plain bs ∷ items) = map got_byte bs ++ tokens items
tokens (frame f ∷ items) = got_frame f ∷ tokens items
tokens (error e ∷ items) = got_error e ∷ tokens items

pub tokens-append : (xs ys : List StreamItem) → tokens (xs ++ ys) ≡ tokens xs ++ tokens ys
unfolding tokens
tokens-append [] ys = refl
tokens-append (plain bs ∷ xs) ys =
    ap (◌++◌ (map got_byte bs)) (tokens-append xs ys)
    ∙ sym (append_assoc (map got_byte bs) (tokens xs) (tokens ys))
tokens-append (frame f ∷ xs) ys = ap (◌∷◌ (got_frame f)) (tokens-append xs ys)
tokens-append (error e ∷ xs) ys = ap (◌∷◌ (got_error e)) (tokens-append xs ys)

pub tokens-plain_item : (bs : Bytes) → tokens (plain_item bs) ≡ map got_byte bs
unfolding tokens
tokens-plain_item [] = refl
tokens-plain_item (b ∷ bs) = append-nil (map got_byte (b ∷ bs))

-- The acknowledgement's bytes.
pub ack_bytes : ack ≡ 0xa5 ∷ 0x5a ∷ 1 ∷ 13 ∷ 0 ∷ 4 ∷ 0 ∷ b'S' ∷ b'W' ∷ b'T' ∷ b'1' ∷ 0x41 ∷ []
unfolding ack
ack_bytes = refl

abbrev pub seen : ConnectionDecoder × List StreamItem → ConnectionDecoder × List Token
seen (c, items) = (c, tokens items)

-- From the acknowledgement on, the stream is framed.
unfoldable pub acknowledged : ConnectionDecoder → Bytes → ConnectionDecoder × List Token
acknowledged c trailing =
    let (c', items) = seen (push_framed (record c { pending = []; mode = Mode.framed }) trailing) in
    (c', got_frame hello_ack ∷ items)

-- The plain mode in one sentence: the bytes before the place where the acknowledgement may begin
-- are plain; if it stands there, what follows is framed, and if not, the rest is kept.
unfoldable pub settle : ConnectionDecoder → Bytes → ConnectionDecoder × List Token
unfolding acknowledged
settle c b =
    let n = opening b ack in
    let (c', items) = acknowledged c (drop (n + length ack) b) in
    if starts_with (drop n b) ack
    then (c', map got_byte (take n b) ++ items)
    else (record c { pending = drop n b }, map got_byte (take n b))

pub ack-pos : 0 < length ack
ack-pos = rw ack_bytes (omega arith)

push_plain-some :
    (c : ConnectionDecoder) (b : Bytes) (position : ℕ)
    → find_window b ack ≡ some position
    → push_plain c b ≡ (
        let (c', items) =
          push_framed
            (record c { pending = []; mode = Mode.framed })
            (drop (position + length ack) b) in
        let out : ConnectionDecoder × List StreamItem =
          (c', plain_item (take position b) ++ (frame hello_ack ∷ items)) in
        out)
unfolding push_plain
push_plain-some c b position e = rw (e, push_plain)

push_plain-none :
    (c : ConnectionDecoder) (b : Bytes) (n : ℕ)
    → find_window b ack ≡ none
    → length b - longest_suffix_prefix b ack ≡ n
    → push_plain c b ≡ (record c { pending = drop n b }, plain_item (take n b))
unfolding push_plain
push_plain-none c b n e size = rw (e, push_plain) (rw size)

-- What `push` does to a plain stream is what the first place says at which the rest of the stream
-- agrees with the acknowledgement: the bytes before it are put out, and the rest is kept, or, when
-- the whole acknowledgement stands there, the stream is framed behind it.
pub push_plain-settle : (c : ConnectionDecoder) (b : Bytes) → seen (push_plain c b) ≡ settle c b
unfolding settle
push_plain-settle c b = elim (Bool-cases (starts_with (drop (opening b ack) b) ack)) [
  | inl hit ↦
      let found : find_window b ack ≡ some (opening b ack) =
        find_window-opening b ack ack-pos ∙ (rw hit) in
      rw (push_plain-some c b (opening b ack) found, hit)
        (rw (tokens-append, tokens-plain_item) (unfold tokens in refl))
  | inr miss ↦
      let gone : find_window b ack ≡ none = find_window-opening b ack ack-pos ∙ (rw miss) in
      let size : length b - longest_suffix_prefix b ack ≡ opening b ack =
        omega (arith, longest_suffix_prefix-opening b ack ack-pos gone, opening-le b ack) in
      rw (push_plain-none c b (opening b ack) gone size, miss) (rw tokens-plain_item)
]

pub settle_hit :
    (c : ConnectionDecoder) (b : Bytes)
    → starts_with (drop (opening b ack) b) ack ≡ true
    → settle c b ≡ (
        let (c', items) = acknowledged c (drop (opening b ack + length ack) b) in
        let out : ConnectionDecoder × List Token =
          (c', map got_byte (take (opening b ack) b) ++ items) in
        out)
unfolding settle
settle_hit c b h = rw h

pub settle_miss :
    (c : ConnectionDecoder) (b : Bytes)
    → starts_with (drop (opening b ack) b) ack ≡ false
    → settle c b
      ≡ (record c { pending = drop (opening b ack) b }, map got_byte (take (opening b ack) b))
unfolding settle
settle_miss c b h = rw h

-- A read in each mode.
pub push_mode_plain :
    (c : ConnectionDecoder) (input : Bytes)
    → c.mode ≡ Mode.plain
    → seen (push c input) ≡ settle c (c.pending ++ input)
unfolding push
push_mode_plain c input e = go c.mode e
  where
    go : (m : Mode) → m ≡ Mode.plain → seen (push_in m c input) ≡ settle c (c.pending ++ input)
    go Mode.plain e = push_plain-settle c (c.pending ++ input)
    go Mode.framed e = cc e

pub push_mode_framed :
    (c : ConnectionDecoder) (input : Bytes)
    → c.mode ≡ Mode.framed
    → push c input ≡ push_framed c input
unfolding push
push_mode_framed c input e = go c.mode e
  where
    go : (m : Mode) → m ≡ Mode.framed → push_in m c input ≡ push_framed c input
    go Mode.framed e = refl
    go Mode.plain e = cc e

pub push_framed_mode :
    (c : ConnectionDecoder) (input : Bytes) → (push_framed c input).0.mode ≡ c.mode
unfolding push_framed
push_framed_mode c input = refl
