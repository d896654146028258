-- ===== src/Protocol/Connection/Chunks.antt =====
-- However the serial stream is cut into reads, the same bytes, frames and errors come out, also
-- where a read ends within the acknowledgement.
use sw_tos.Base.{
  ℕ, ◌+◌, ◌≤◌, List, [], ◌∷◌, ◌++◌, map, map-append, true, false, ◌≡◌, refl, sym, ap, ◌∙◌, inl, inr,
  ◌⊎◌, arith, Bool-cases, Bytes, length, take, drop, starts_with, append_assoc, drop-add, take-add,
  take-append, drop-append, starts_with-append, starts_with-length, length-drop,
}
use sw_tos.Protocol.Connection.{ConnectionDecoder, ack, push_framed, push}
use sw_tos.Protocol.Connection.Opening.{opening, opening-le, opening-append, opening_starts}
use sw_tos.Protocol.Connection.Wire.{
  Token, got_byte, got_frame, seen, acknowledged, settle, settle_hit, settle_miss, push_mode_plain,
  push_mode_framed, push_framed_mode, tokens-append,
}
use sw_tos.Protocol.Decoder.Stream.{push-append}
use sw_tos.Protocol.Negotiator.{Mode, hello_ack}

-- One read after another, each seen token by token.
abbrev pub followed_by :
    ConnectionDecoder × List Token
    → (ConnectionDecoder → ConnectionDecoder × List Token)
    → ConnectionDecoder × List Token
followed_by (c, items) k = let (c', later) = k c in (c', items ++ later)

abbrev after : List Token → ConnectionDecoder × List Token → ConnectionDecoder × List Token
after before (c, items) = (c, before ++ items)

push_framed-append :
    (c : ConnectionDecoder) (input more : Bytes)
    → followed_by (seen (push_framed c input)) (λ c'. seen (push_framed c' more))
      ≡ seen (push_framed c (input ++ more))
unfolding push_framed
push_framed-append c input more =
    rw (← push-append c.framed input more) (rw (map-append, tokens-append))

acknowledged-append :
    (c : ConnectionDecoder) (trailing more : Bytes)
    → followed_by (acknowledged c trailing) (λ c'. seen (push c' more))
      ≡ acknowledged c (trailing ++ more)
unfolding acknowledged
acknowledged-append c trailing more =
    let start = record c { pending = []; mode = Mode.framed } in
    rw (push_mode_framed (push_framed start trailing).0 more (push_framed_mode start trailing)) (
      ap (λ (r : ConnectionDecoder × List Token). after (got_frame hello_ack ∷ []) r)
        (push_framed-append start trailing more))

settle-append_hit :
    (c : ConnectionDecoder) (b more : Bytes)
    → starts_with (drop (opening b ack) b) ack ≡ true
    → followed_by (settle c b) (λ c'. seen (push c' more)) ≡ settle c (b ++ more)
settle-append_hit c b more hit =
    rw (settle_hit c b hit, settle_hit c (b ++ more) still)
      (rw place (
        rw
          (
            take-append (opening b ack) b more fits,
            drop-append (opening b ack + length ack) b more room,
          )
          (rw append_assoc (
            ap (after (map got_byte (take (opening b ack) b)))
              (acknowledged-append c (drop (opening b ack + length ack) b) more)))))
  where
    place : opening (b ++ more) ack ≡ opening b ack
    place =
        opening-append b more ack
        ∙ omega (
          arith,
          opening_starts (drop (opening b ack) b ++ more) ack
              (starts_with-append (drop (opening b ack) b) more ack hit),
        )

    room : opening b ack + length ack ≤ length b
    room = omega (
      arith,
      starts_with-length (drop (opening b ack) b) ack hit,
      length-drop (opening b ack) b,
      opening-le b ack,
    )

    fits : opening b ack ≤ length b
    fits = opening-le b ack

    still : starts_with (drop (opening (b ++ more) ack) (b ++ more)) ack ≡ true
    still =
        rw (place, drop-append (opening b ack) b more fits)
          (starts_with-append (drop (opening b ack) b) more ack hit)

-- Bytes before the place go out as they are, and the rest is settled by itself.
settle_after :
    (c : ConnectionDecoder) (b more : Bytes) (kept : Bytes)
    → settle c (b ++ more)
      ≡ after
          (map got_byte (take (opening b ack) b))
          (settle (record c { pending = kept }) (drop (opening b ack) b ++ more))
settle_after c b more kept = elim (Bool-cases (starts_with (drop (opening rest ack) rest) ack)) [
  | inl hit ↦
      rw (settle_hit (record c { pending = kept }) rest hit, settle_hit c (b ++ more) (rw same hit))
        (rw (taken, past_ack, map-append, append_assoc) (unfold acknowledged in refl))
  | inr miss ↦
      rw
        (
          settle_miss (record c { pending = kept }) rest miss,
          settle_miss c (b ++ more) (rw same miss),
        )
        (rw (same, taken, map-append))
]
  where
    n : ℕ
    n = opening b ack

    rest : Bytes
    rest = drop n b ++ more

    at_rest : (k : ℕ) → drop (n + k) (b ++ more) ≡ drop k rest
    at_rest k = drop-add n k (b ++ more) ∙ ap (drop k) (drop-append n b more (opening-le b ack))

    same : drop (opening (b ++ more) ack) (b ++ more) ≡ drop (opening rest ack) rest
    same =
        ap (λ (k : ℕ). drop k (b ++ more)) (opening-append b more ack) ∙ at_rest (opening rest ack)

    past_ack :
        drop (opening (b ++ more) ack + length ack) (b ++ more)
        ≡ drop (opening rest ack + length ack) rest
    past_ack =
        let sum : opening (b ++ more) ack + length ack ≡ n + (opening rest ack + length ack) =
          omega (arith, opening-append b more ack) in
        ap (λ (k : ℕ). drop k (b ++ more)) sum ∙ at_rest (opening rest ack + length ack)

    taken : take (opening (b ++ more) ack) (b ++ more) ≡ take n b ++ take (opening rest ack) rest
    taken =
        ap (λ (k : ℕ). take k (b ++ more)) (opening-append b more ack)
        ∙ take-add n (opening rest ack) (b ++ more)
        ∙ rw (take-append n b more (opening-le b ack), drop-append n b more (opening-le b ack))

settle-append_miss :
    (c : ConnectionDecoder) (b more : Bytes)
    → c.mode ≡ Mode.plain
    → starts_with (drop (opening b ack) b) ack ≡ false
    → followed_by (settle c b) (λ c'. seen (push c' more)) ≡ settle c (b ++ more)
settle-append_miss c b more e miss =
    let kept = drop (opening b ack) b in
    rw (settle_miss c b miss) (
      ap (after (map got_byte (take (opening b ack) b)))
        (push_mode_plain (record c { pending = kept }) more e)
      ∙ sym (settle_after c b more kept))

push-append_plain :
    (c : ConnectionDecoder) (input more : Bytes)
    → c.mode ≡ Mode.plain
    → followed_by (seen (push c input)) (λ c'. seen (push c' more)) ≡ seen (push c (input ++ more))
push-append_plain c input more e =
    ap (λ (r : ConnectionDecoder × List Token). followed_by r (λ c'. seen (push c' more)))
      (push_mode_plain c input e)
    ∙ settle-append (Bool-cases (starts_with (drop (opening b ack) b) ack))
    ∙ ap (settle c) (append_assoc c.pending input more)
    ∙ sym (push_mode_plain c (input ++ more) e)
  where
    b : Bytes
    b = c.pending ++ input

    settle-append :
        (starts_with (drop (opening b ack) b) ack ≡ true)
          ⊎ (starts_with (drop (opening b ack) b) ack ≡ false)
        → followed_by (settle c b) (λ c'. seen (push c' more)) ≡ settle c (b ++ more)
    settle-append (inl hit) = settle-append_hit c b more hit
    settle-append (inr miss) = settle-append_miss c b more e miss

push-append_framed :
    (c : ConnectionDecoder) (input more : Bytes)
    → c.mode ≡ Mode.framed
    → followed_by (seen (push c input)) (λ c'. seen (push c' more)) ≡ seen (push c (input ++ more))
push-append_framed c input more e =
    rw
      (
        push_mode_framed c input e,
        push_mode_framed (push_framed c input).0 more (push_framed_mode c input ∙ e),
        push_mode_framed c (input ++ more) e,
      )
      (push_framed-append c input more)

-- Two reads leave the decoder in the state of one read of both, and put out the same bytes,
-- frames and errors, in either mode and across the change of mode.
pub push-append_seen :
    (c : ConnectionDecoder) (input more : Bytes)
    → followed_by (seen (push c input)) (λ c'. seen (push c' more)) ≡ seen (push c (input ++ more))
push-append_seen c input more = go c.mode refl
  where
    go :
        (m : Mode)
        → c.mode ≡ m
        → followed_by (seen (push c input)) (λ c'. seen (push c' more))
          ≡ seen (push c (input ++ more))
    go Mode.plain e = push-append_plain c input more e
    go Mode.framed e = push-append_framed c input more e
