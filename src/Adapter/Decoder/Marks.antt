-- ===== src/Adapter/Decoder/Marks.antt =====
-- Where the adapter finds the first mark, of a frame or of a heartbeat.
use sw_tos.Base.{
  ℕ, suc, ◌<◌, [], ◌∷◌, ◌++◌, none, some, Option, Bool, true, false, ◌≡◌, refl, sym, ap, ◌∙◌, ◌||◌,
  inl, inr, arith, Bool-cases, Option-cases, if◌then◌else◌, Bytes, length, drop, starts_with,
  find_window,
}
use mathlib.Core.Option
use sw_tos.Adapter.Decoder.{heartbeat, earlier}
use sw_tos.Protocol.{sync}

-- A frame or a heartbeat may start here.
abbrev pub is_mark : Bytes → Bool
is_mark b = starts_with b heartbeat || starts_with b sync

unfoldable pub find_mark : Bytes → Option ℕ
find_mark [] = none
find_mark (b ∷ bs) = if is_mark (b ∷ bs) then some 0 else Option.map suc (find_mark bs)

earlier_step :
    (p q : Bool) (a b : Option ℕ)
    → earlier (if p then some 0 else Option.map suc a) (if q then some 0 else Option.map suc b)
      ≡ (if q || p then some 0 else Option.map suc (earlier a b))
earlier_step true true a b = refl
earlier_step true false a none = refl
earlier_step true false a (some n) = ap some (omega arith)
earlier_step false true none b = refl
earlier_step false true (some n) b = ap some (omega arith)
earlier_step false false none b = refl
earlier_step false false (some n) none = refl
earlier_step false false (some n) (some k) = ap some (omega arith)

-- The two searches together find the first mark.
pub find_mark_lem :
    (b : Bytes) → earlier (find_window b sync) (find_window b heartbeat) ≡ find_mark b
unfolding find_mark find_window
find_mark_lem [] = unfold starts_with in refl
find_mark_lem (b ∷ bs) =
    earlier_step (starts_with (b ∷ bs) sync) (starts_with (b ∷ bs) heartbeat) (find_window bs sync)
      (find_window bs heartbeat)
    ∙ rw (find_mark_lem bs)

pub is_mark-append : (b more : Bytes) → is_mark b ≡ true → is_mark (b ++ more) ≡ true
unfolding starts_with
is_mark-append (x ∷ y ∷ b) more h = h
is_mark-append (x ∷ []) more h = ground arith
is_mark-append [] more h = cc h

-- Later bytes make no mark of two bytes that are none.
pub is_mark-append_false :
    (x y : ℕ) (b more : Bytes) → is_mark (x ∷ y ∷ b) ≡ false → is_mark (x ∷ y ∷ (b ++ more)) ≡ false
unfolding starts_with
is_mark-append_false x y b more h = h

pub find_mark_here : (x : ℕ) (b : Bytes) → is_mark (x ∷ b) ≡ true → find_mark (x ∷ b) ≡ some 0
unfolding find_mark
find_mark_here x b h = rw h

pub find_mark_later :
    (x : ℕ) (b : Bytes) → is_mark (x ∷ b) ≡ false → find_mark (x ∷ b) ≡ Option.map suc (find_mark b)
unfolding find_mark
find_mark_later x b h = rw h

pub find_mark-is_mark :
    (b : Bytes) {at : ℕ} → find_mark b ≡ some at → (is_mark (drop at b) ≡ true) × (at < length b)
find_mark-is_mark [] e = unfold find_mark in cc e
find_mark-is_mark (x ∷ b) {at} e = elim (Bool-cases (is_mark (x ∷ b))) [
  | inl here ↦ ground (arith, here, find_mark_here x b here)
  | inr miss ↦ elim (Option-cases (find_mark b)) [
    | inl gone ↦ ground (arith, find_mark_later x b miss)
    | inr (k, found) ↦ ground (arith, find_mark_later x b miss, find_mark-is_mark b found)
  ]
]

pub find_mark-append :
    (b more : Bytes) {at : ℕ} → find_mark b ≡ some at → find_mark (b ++ more) ≡ some at
find_mark-append [] more e = unfold find_mark in cc e
find_mark-append (x ∷ []) more {at} e = elim (Bool-cases (is_mark (x ∷ []))) [
  | inl here ↦ unfold starts_with in ground arith
  | inr miss ↦ unfold find_mark in cc (e, find_mark_later x [] miss)
]
find_mark-append (x ∷ y ∷ b) more {at} e = elim (Bool-cases (is_mark (x ∷ y ∷ b))) [
  | inl here ↦
      find_mark_here x (y ∷ (b ++ more)) (is_mark-append (x ∷ y ∷ b) more here)
      ∙ sym (find_mark_here x (y ∷ b) here)
      ∙ e
  | inr miss ↦ elim (Option-cases (find_mark (y ∷ b))) [
    | inl gone ↦ ground (arith, find_mark_later x (y ∷ b) miss)
    | inr (k, found) ↦
        find_mark_later x (y ∷ (b ++ more)) (is_mark-append_false x y b more miss)
        ∙ ap (Option.map suc) (find_mark-append (y ∷ b) more found ∙ sym found)
        ∙ sym (find_mark_later x (y ∷ b) miss)
        ∙ e
  ]
]
