-- ===== src/Protocol/Decoder/Bounds.antt =====
-- What the framed receiver keeps between reads.
use sw_tos.Base.{
  ◌+◌, ◌<◌, ◌≤◌, ◌-◌, ◌∷◌, ◌++◌, ◌≡◌, sym, ap, ◌∙◌, inl, inr, arith, Bytes, length, drop,
  length-drop, Option-cases, find_window,
}
use sw_tos.Protocol.Decoder.{kept_tail, at_sync, turn, Decoder, push}
use sw_tos.Protocol.Decoder.Turns.{turn-IsScanner, at_sync_stop, turn-none, turn-some}
use sw_tos.Protocol.{sync, max_payload}
use sw_tos.Scanner.{stop}
use sw_tos.Scanner.Laws.{scan_settles}

kept_tail-length : (b : Bytes) → length (kept_tail b) ≤ 1
unfolding kept_tail
kept_tail-length b = ground (arith, length-drop (length b - 1) b)

at_sync_stop_length : (b : Bytes) {r : Bytes} → at_sync b ≡ stop r → length b < 8 + max_payload
unfolding at_sync
at_sync_stop_length (s0 ∷ s1 ∷ v ∷ code ∷ channel ∷ l0 ∷ l1 ∷ body) e = ground arith
at_sync_stop_length _ e = omega arith

-- Between reads a decoder holds less than one frame of the greatest size.
pub length-push : (d : Decoder) (input : Bytes) → length (push d input).0.buffer < 8 + max_payload
unfolding push
length-push d input = settled_length _ (scan_settles turn-IsScanner (d.buffer ++ input))
  where
    settled_length : (b : Bytes) → turn b ≡ stop b → length b < 8 + max_payload
    settled_length b e = elim (Option-cases (find_window b sync)) [
      | inl gone ↦
          let same : kept_tail b ≡ b = cc (turn-none b gone) in
          omega (arith, kept_tail-length b, ap length same)
      | inr (at, found) ↦
          let stuck = sym (turn-some b at found) ∙ e in
          omega (
            arith,
            at_sync_stop_length (drop at b) stuck,
            ap length (at_sync_stop (drop at b) stuck),
          )
    ]
