-- ===== src/Protocol/Decoder/Sound.antt =====
-- What the framed receiver puts out, whatever bytes arrive.
use sw_tos.Base.{
  ◌<◌, true, List, [], ◌∷◌, ◌++◌, append_assoc, ◌≡◌, sym, ap, ◌∙◌, inl, inr, subst, ok, err, Bytes,
  IsBytes, take, drop, take-append-drop, All, All-append, All-split, Option-cases, starts_with,
  find_window, find_window-starts_with,
}
use sw_tos.Protocol.Decoder.{Item, at_sync, turn, Decoder, push}
use sw_tos.Protocol.Decoder.Frames.{
  StandsIn, Stands-append, Accounts, at_sync-cases, Reads-Accounts,
}
use sw_tos.Protocol.Decoder.Turns.{turn-IsScanner, turn-none, turn-some}
use sw_tos.Protocol.{sync}
use sw_tos.Scanner.{next, scan}
use sw_tos.Scanner.Laws.{scan_induction, scan_next, scan_stop}

at_sync-Accounts :
    (b : Bytes) {os : List Item} {r : Bytes}
    → starts_with b sync ≡ true
    → IsBytes b
    → at_sync b ≡ next os r
    → Accounts b os r
at_sync-Accounts b s h e = elim (at_sync-cases b e) [
  | inl (error, x, out, drained) ↦ (subst (All (StandsIn b)) (sym out) (tt, tt), (x ∷ [], drained))
  | inr reads ↦ Reads-Accounts reads s h
]

StandsIn-append : (x b : Bytes) (o : Item) → StandsIn b o → StandsIn (x ++ b) o
StandsIn-append x b (ok f) s = Stands-append x b s
StandsIn-append x b (err e) s = tt

All-StandsIn-append :
    (x b : Bytes) (os : List Item) → All (StandsIn b) os → All (StandsIn (x ++ b)) os
All-StandsIn-append x b [] s = tt
All-StandsIn-append x b (o ∷ os) s = (StandsIn-append x b o s.0, All-StandsIn-append x b os s.1)

turn-Accounts :
    (b : Bytes) {os : List Item} {r : Bytes} → IsBytes b → turn b ≡ next os r → Accounts b os r
turn-Accounts b {os} {r} h e = elim (Option-cases (find_window b sync)) [
  | inl gone ↦ cc (turn-none b gone)
  | inr (at, found) ↦
      let whole : take at b ++ drop at b ≡ b = take-append-drop at b in
      let later = (All-split (λ n. n < 256) (take at b) (drop at b) (rw whole h)).1 in
      let (stand, (x, split)) =
        at_sync-Accounts (drop at b) (find_window-starts_with b sync found).0 later
          (sym (turn-some b at found) ∙ e) in
      (
        rw whole at (All-StandsIn-append (take at b) (drop at b) os stand),
        (
          take at b ++ x,
          sym whole ∙ ap (◌++◌ (take at b)) split ∙ sym (append_assoc (take at b) x r),
        ),
      )
]

scan-StandsIn : (b : Bytes) → IsBytes b → All (StandsIn b) (scan turn b).items
scan-StandsIn =
    scan_induction turn-IsScanner (λ b. IsBytes b → All (StandsIn b) (scan turn b).items)
      (λ b r e h. rw (scan_stop turn-IsScanner b e) tt)
      (λ b os r e ih h. after b os r e ih h (turn-Accounts b h e))
  where
    after :
        (b : Bytes) (os : List Item) (r : Bytes)
        → turn b ≡ next os r
        → (IsBytes r → All (StandsIn r) (scan turn r).items)
        → IsBytes b
        → Accounts b os r
        → All (StandsIn b) (scan turn b).items
    after b os r e ih h (stand, (x, split)) =
        let tail = ih (All-split (λ n. n < 256) x r (subst IsBytes split h)).1 in
        rw (scan_next turn-IsScanner b e) (
          All-append (StandsIn b) os (scan turn r).items stand (
            subst (λ (c : Bytes). All (StandsIn c) (scan turn r).items) (sym split)
              (All-StandsIn-append x r (scan turn r).items tail)))

-- Every frame that a read of bytes puts out stood in what had come, byte for byte as `encode`
-- writes it, and its fields are in range.
pub push-StandsIn :
    (d : Decoder) (input : Bytes)
    → IsBytes (d.buffer ++ input)
    → All (StandsIn (d.buffer ++ input)) (push d input).1
unfolding push
push-StandsIn d input h = scan-StandsIn (d.buffer ++ input) h
