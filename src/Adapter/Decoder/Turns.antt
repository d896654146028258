-- ===== src/Adapter/Decoder/Turns.antt =====
-- The adapter's turn is one that the receive loop can use.
use sw_tos.Base.{
  ℕ, suc, ◌+◌, ◌-◌, ◌*◌, ◌<◌, List, [], ◌∷◌, ◌++◌, none, some, Option, true, false, ◌≡◌, refl, sym,
  ap, ◌∙◌, ◌||◌, inl, inr, arith, Bool-cases, Option-cases, ◌==◌, Bytes, length, drop,
  length-append, length-drop, drop-append, take-append, get_or-append, starts_with,
}
use sw_tos.Adapter.Decoder.{heartbeat, at_heartbeat, at_frame, at_mark, kept_tail, turn}
use sw_tos.Adapter.{Frame}
use sw_tos.Scanner.Laws.{IsScanner}
use sw_tos.Scanner.{Turn, stop, next}
use sw_tos.Adapter.Decoder.Marks.{
  is_mark, find_mark, find_mark_lem, is_mark-append, is_mark-append_false, find_mark_here,
  find_mark_later, find_mark-is_mark, find_mark-append,
}

at_mark_stop : (b : Bytes) {r : Bytes} → at_mark b ≡ stop r → r ≡ b
unfolding at_mark at_heartbeat at_frame
at_mark_stop (s0 ∷ s1 ∷ v ∷ code ∷ channel ∷ l0 ∷ l1 ∷ body) e = ground arith
at_mark_stop _ e = ground arith

at_mark_shrinks :
    (b : Bytes) {os : List Frame} {r : Bytes} → at_mark b ≡ next os r → length r < length b
unfolding at_mark at_heartbeat at_frame
at_mark_shrinks (s0 ∷ s1 ∷ v ∷ code ∷ channel ∷ l0 ∷ l1 ∷ body) e =
    ground (arith, length-drop (suc (l0 + l1 * 256)) body)
at_mark_shrinks _ e = ground arith

at_mark-append :
    (b more : Bytes) {os : List Frame} {r : Bytes}
    → at_mark b ≡ next os r
    → at_mark (b ++ more) ≡ next os (r ++ more)
unfolding at_mark at_heartbeat at_frame starts_with
at_mark-append (s0 ∷ s1 ∷ v ∷ code ∷ channel ∷ l0 ∷ l1 ∷ body) more e = ground (
  arith,
  length-append body more,
  take-append (l0 + l1 * 256) body more,
  drop-append (suc (l0 + l1 * 256)) body more,
  get_or-append body more (l0 + l1 * 256) 0,
)
at_mark-append _ more e = ground arith

-- The turn, from the first mark.
pub turn_of : Option ℕ → Bytes → Turn Frame
turn_of none b = stop (kept_tail b)
turn_of (some at) b = at_mark (drop at b)

turn_lem : (b : Bytes) → turn b ≡ turn_of (find_mark b) b
unfolding turn turn_of
turn_lem b = elim (Bool-cases (starts_with b heartbeat)) [
  | inl here ↦ rw (here, starts_at b here) (unfold at_mark in (rw here))
  | inr other ↦ rw (other, find_mark_lem b) (go (find_mark b))
]
  where
    starts_at : (b : Bytes) → starts_with b heartbeat ≡ true → find_mark b ≡ some 0
    starts_at [] h = unfold starts_with in cc h
    starts_at (x ∷ b) h = find_mark_here x b (rw h)

    go :
        (m : Option ℕ)
        → elim m [ none ↦ stop (kept_tail b) | some at ↦ at_mark (drop at b) ] ≡ turn_of m b
    go none = refl
    go (some at) = refl

turn-none : (b : Bytes) → find_mark b ≡ none → turn b ≡ stop (kept_tail b)
unfolding turn_of
turn-none b e = turn_lem b ∙ rw e

turn-some : (b : Bytes) (at : ℕ) → find_mark b ≡ some at → turn b ≡ at_mark (drop at b)
unfolding turn_of
turn-some b at e = turn_lem b ∙ rw e

pub turn_here : (b : Bytes) → is_mark b ≡ true → turn b ≡ at_mark b
turn_here [] h = unfold starts_with in cc h
turn_here (x ∷ b) h = turn-some (x ∷ b) 0 (find_mark_here x b h)

kept_tail_cons : (x y : ℕ) (b : Bytes) → kept_tail (x ∷ y ∷ b) ≡ kept_tail (y ∷ b)
unfolding kept_tail
kept_tail_cons x y b =
    let outer : length (x ∷ y ∷ b) - 1 ≡ suc (length b) = omega arith in
    let inner : length (y ∷ b) - 1 ≡ length b = omega arith in rw (outer, inner)

-- A byte at which no mark starts is passed over, if another byte follows it.
turn_skip : (x y : ℕ) (b : Bytes) → is_mark (x ∷ y ∷ b) ≡ false → turn (x ∷ y ∷ b) ≡ turn (y ∷ b)
turn_skip x y b miss = elim (Option-cases (find_mark (y ∷ b))) [
  | inl gone ↦
      turn-none (x ∷ y ∷ b) (find_mark_later x (y ∷ b) miss ∙ (rw gone))
      ∙ ap stop (kept_tail_cons x y b)
      ∙ sym (turn-none (y ∷ b) gone)
  | inr (at, found) ↦
      turn-some (x ∷ y ∷ b) (suc at) (find_mark_later x (y ∷ b) miss ∙ (rw found))
      ∙ sym (turn-some (y ∷ b) at found)
]

turn_skip_one :
    (x : ℕ) (more : Bytes) → (x == 0xa5 || x == 0xff) ≡ false → turn (x ∷ more) ≡ turn more
turn_skip_one x [] h =
    turn-none (x ∷ []) (unfold find_mark starts_with in ground arith)
    ∙ unfold kept_tail in (rw h) ∙ sym (turn-none [] (unfold find_mark in refl))
turn_skip_one x (y ∷ more) h = turn_skip x y more (unfold starts_with in ground arith)

-- What is kept where no mark was found serves every later turn as well as the whole buffer.
turn-kept_tail :
    (b more : Bytes) → find_mark b ≡ none → turn (b ++ more) ≡ turn (kept_tail b ++ more)
turn-kept_tail [] more e = unfold kept_tail in refl
turn-kept_tail (x ∷ []) more e = elim (Bool-cases (x == 0xa5 || x == 0xff)) [
  | inl first ↦ unfold kept_tail in (rw first)
  | inr other ↦
      let none_kept : kept_tail (x ∷ []) ≡ [] = unfold kept_tail in (rw other) in
      rw none_kept (turn_skip_one x more other)
]
turn-kept_tail (x ∷ y ∷ b) more e = elim (Bool-cases (is_mark (x ∷ y ∷ b))) [
  | inl here ↦ cc (find_mark_here x (y ∷ b) here)
  | inr miss ↦
      turn_skip x y (b ++ more) (is_mark-append_false x y b more miss)
      ∙ turn-kept_tail (y ∷ b) more (ground (arith, find_mark_later x (y ∷ b) miss))
      ∙ rw kept_tail_cons
]

turn_shrinks : (b : Bytes) {os : List Frame} {r : Bytes} → turn b ≡ next os r → length r < length b
turn_shrinks b {os} {r} e = elim (Option-cases (find_mark b)) [
  | inl gone ↦ cc (turn-none b gone)
  | inr (at, found) ↦
      omega (arith, at_mark_shrinks (drop at b) (sym (turn-some b at found) ∙ e), length-drop at b)
]

turn_next_extends :
    (b more : Bytes) {os : List Frame} {r : Bytes}
    → turn b ≡ next os r
    → turn (b ++ more) ≡ next os (r ++ more)
turn_next_extends b more e = elim (Option-cases (find_mark b)) [
  | inl gone ↦ cc (turn-none b gone)
  | inr (at, found) ↦
      let inside = find_mark-is_mark b found in
      turn-some (b ++ more) at (find_mark-append b more found)
      ∙ rw (drop-append at b more (omega arith))
          (at_mark-append (drop at b) more (sym (turn-some b at found) ∙ e))
]

turn_stop_extends :
    (b more : Bytes) {r : Bytes} → turn b ≡ stop r → turn (b ++ more) ≡ turn (r ++ more)
turn_stop_extends b more {r} e = elim (Option-cases (find_mark b)) [
  | inl gone ↦
      let same : kept_tail b ≡ r = cc (turn-none b gone) in turn-kept_tail b more gone ∙ rw same
  | inr (at, found) ↦
      let inside = find_mark-is_mark b found in
      let same : r ≡ drop at b = at_mark_stop (drop at b) (sym (turn-some b at found) ∙ e) in
      turn-some (b ++ more) at (find_mark-append b more found)
      ∙ rw (drop-append at b more (omega arith), same)
          (sym (turn_here (drop at b ++ more) (is_mark-append (drop at b) more inside.0)))
]

pub turn-IsScanner : IsScanner turn
turn-IsScanner = record {
  shrinks = turn_shrinks;
  next_extends = turn_next_extends;
  stop_extends = turn_stop_extends;
}
