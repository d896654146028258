-- ===== src/Protocol/Decoder/Turns.antt =====
-- The decoder's turn is one that the receive loop can use: it shrinks the buffer, and bytes that
-- come later do not change what it put out.
use sw_tos.Base.{
  ℕ, suc, ◌+◌, ◌-◌, ◌*◌, ◌<◌, List, [], ◌∷◌, ◌++◌, none, some, true, false, ◌≡◌, refl, sym, ap, ◌∙◌,
  inl, inr, arith, Bool-cases, Option-cases, ◌==◌, if◌then◌else◌, Bytes, length, drop,
  length-append, length-drop, drop-append, take-append, get_or-append, starts_with, find_window,
  find_window_here, find_window_later, find_window-starts_with, find_window-append,
  starts_with-append, starts_with-append_false,
}
use mathlib.Core.Option
use sw_tos.Protocol.Decoder.{Item, kept_tail, at_sync, turn}
use sw_tos.Protocol.{sync}
use sw_tos.Scanner.Laws.{IsScanner}
use sw_tos.Scanner.{stop, next}

-- A break at a SYNC leaves the whole of the buffer.
pub at_sync_stop : (b : Bytes) {r : Bytes} → at_sync b ≡ stop r → r ≡ b
unfolding at_sync
at_sync_stop (s0 ∷ s1 ∷ v ∷ code ∷ channel ∷ l0 ∷ l1 ∷ body) e = ground arith
at_sync_stop _ e = ground arith

at_sync_shrinks :
    (b : Bytes) {os : List Item} {r : Bytes} → at_sync b ≡ next os r → length r < length b
unfolding at_sync
at_sync_shrinks (s0 ∷ s1 ∷ v ∷ code ∷ channel ∷ l0 ∷ l1 ∷ body) e =
    ground (arith, length-drop (suc (l0 + l1 * 256)) body)
at_sync_shrinks _ e = ground arith

at_sync-append :
    (b more : Bytes) {os : List Item} {r : Bytes}
    → at_sync b ≡ next os r
    → at_sync (b ++ more) ≡ next os (r ++ more)
unfolding at_sync
at_sync-append (s0 ∷ s1 ∷ v ∷ code ∷ channel ∷ l0 ∷ l1 ∷ body) more e = ground (
  arith,
  length-append body more,
  take-append (l0 + l1 * 256) body more,
  drop-append (suc (l0 + l1 * 256)) body more,
  get_or-append body more (l0 + l1 * 256) 0,
)
at_sync-append _ more e = ground arith

-- The turn, from what the search finds.
pub turn-none : (b : Bytes) → find_window b sync ≡ none → turn b ≡ stop (kept_tail b)
unfolding turn
turn-none b e = rw (e, turn)

pub turn-some : (b : Bytes) (at : ℕ) → find_window b sync ≡ some at → turn b ≡ at_sync (drop at b)
unfolding turn
turn-some b at e = rw (e, turn)

pub turn_here : (b : Bytes) → starts_with b sync ≡ true → turn b ≡ at_sync b
turn_here [] h = unfold starts_with in cc
turn_here (x ∷ bs) h = turn-some (x ∷ bs) 0 (find_window_here x bs sync h)

kept_tail_cons : (x y : ℕ) (bs : Bytes) → kept_tail (x ∷ y ∷ bs) ≡ kept_tail (y ∷ bs)
unfolding kept_tail
kept_tail_cons x y bs =
    let outer : length (x ∷ y ∷ bs) - 1 ≡ suc (length bs) = omega arith in
    let inner : length (y ∷ bs) - 1 ≡ length bs = omega arith in rw (outer, inner)

kept_tail_one : (x : ℕ) → kept_tail (x ∷ []) ≡ (if x == 0xa5 then x ∷ [] else [])
unfolding kept_tail
kept_tail_one x = refl

-- A byte at which no SYNC starts is passed over, if another byte follows it.
turn_skip :
    (x y : ℕ) (bs : Bytes)
    → starts_with (x ∷ y ∷ bs) sync ≡ false
    → turn (x ∷ y ∷ bs) ≡ turn (y ∷ bs)
turn_skip x y bs miss = elim (Option-cases (find_window (y ∷ bs) sync)) [
  | inl gone ↦
      turn-none (x ∷ y ∷ bs) (later ∙ (rw gone))
      ∙ ap stop (kept_tail_cons x y bs)
      ∙ sym (turn-none (y ∷ bs) gone)
  | inr (at, found) ↦
      turn-some (x ∷ y ∷ bs) (suc at) (later ∙ (rw found)) ∙ sym (turn-some (y ∷ bs) at found)
]
  where
    later : find_window (x ∷ y ∷ bs) sync ≡ Option.map suc (find_window (y ∷ bs) sync)
    later = find_window_later x (y ∷ bs) sync miss

turn_skip_one : (x : ℕ) (more : Bytes) → (x == 0xa5) ≡ false → turn (x ∷ more) ≡ turn more
unfolding starts_with
turn_skip_one x [] h =
    turn-none (x ∷ []) (find_window_later x [] sync (rw h) ∙ (rw nothing))
    ∙ ap stop (kept_tail_one x ∙ (rw h nothing_kept))
    ∙ sym (turn-none [] nothing)
  where
    nothing : find_window [] sync ≡ none
    nothing = unfold find_window in refl

    nothing_kept : [] ≡ kept_tail []
    nothing_kept = unfold kept_tail in refl
turn_skip_one x (y ∷ more) h = turn_skip x y more (rw h)

-- What is kept where no SYNC was found serves every later turn as well as the whole buffer.
turn-kept_tail :
    (b more : Bytes) → find_window b sync ≡ none → turn (b ++ more) ≡ turn (kept_tail b ++ more)
turn-kept_tail [] more e = unfold kept_tail in refl
turn-kept_tail (x ∷ []) more e = elim (Bool-cases (x == 0xa5)) [
  | inl first ↦ rw (kept_tail_one x, first)
  | inr other ↦ rw (kept_tail_one x, other) (turn_skip_one x more other)
]
turn-kept_tail (x ∷ y ∷ b) more e = elim (Bool-cases (starts_with (x ∷ y ∷ b) sync)) [
  | inl here ↦ cc (find_window_here x (y ∷ b) sync here)
  | inr miss ↦
      turn_skip x y (b ++ more) (starts_with-append_false (x ∷ y ∷ b) more sync (omega arith) miss)
      ∙ turn-kept_tail (y ∷ b) more (ground (arith, find_window_later x (y ∷ b) sync miss))
      ∙ rw kept_tail_cons
]

turn_shrinks : (b : Bytes) {os : List Item} {r : Bytes} → turn b ≡ next os r → length r < length b
turn_shrinks b {os} {r} e = elim (Option-cases (find_window b sync)) [
  | inl gone ↦ cc (turn-none b gone)
  | inr (at, found) ↦
      omega (arith, at_sync_shrinks (drop at b) (sym (turn-some b at found) ∙ e), length-drop at b)
]

turn_next_extends :
    (b more : Bytes) {os : List Item} {r : Bytes}
    → turn b ≡ next os r
    → turn (b ++ more) ≡ next os (r ++ more)
turn_next_extends b more e = elim (Option-cases (find_window b sync)) [
  | inl gone ↦ cc (turn-none b gone)
  | inr (at, found) ↦
      let inside = find_window-starts_with b sync found in
      turn-some (b ++ more) at (find_window-append b more sync found)
      ∙ rw (drop-append at b more (omega arith))
          (at_sync-append (drop at b) more (sym (turn-some b at found) ∙ e))
]

turn_stop_extends :
    (b more : Bytes) {r : Bytes} → turn b ≡ stop r → turn (b ++ more) ≡ turn (r ++ more)
turn_stop_extends b more {r} e = elim (Option-cases (find_window b sync)) [
  | inl gone ↦
      let same : kept_tail b ≡ r = cc (turn-none b gone) in turn-kept_tail b more gone ∙ rw same
  | inr (at, found) ↦
      let inside = find_window-starts_with b sync found in
      let same : r ≡ drop at b = at_sync_stop (drop at b) (sym (turn-some b at found) ∙ e) in
      turn-some (b ++ more) at (find_window-append b more sync found)
      ∙ rw (drop-append at b more (omega arith), same)
          (sym (turn_here (drop at b ++ more) (starts_with-append (drop at b) more sync inside.0)))
]

pub turn-IsScanner : IsScanner turn
turn-IsScanner = record {
  shrinks = turn_shrinks;
  next_extends = turn_next_extends;
  stop_extends = turn_stop_extends;
}
