-- ===== src/Base/Windows.antt =====
-- The search for a window in a byte string: where it is found, and what later bytes change.
use Prim.Native.Nat.{ℕ, zero, suc, ◌+◌, ◌<◌, ◌≤◌}
use mathlib.Core.Path.{◌≡◌, refl, sym, ap, ◌∙◌}
use mathlib.Core.Bool.{true, false}
use mathlib.Core.List.{[], ◌∷◌, ◌++◌}
use mathlib.Core.Logic.{inl, inr}
use mathlib.Core.Option
use mathlib.Core.Option.{Option, none, some}
use native.Mathlib.Omega.{arith}
use sw_tos.Base.Lists.{length, drop}
use sw_tos.Base.Slices.{Bytes, starts_with, find_window}
use sw_tos.Base.Tests.{Bool-cases, Option-cases}

pub starts_with-append :
    (b more needle : Bytes) → starts_with b needle ≡ true → starts_with (b ++ more) needle ≡ true
unfolding starts_with
starts_with-append b more [] h = ground arith
starts_with-append [] more (n ∷ ns) h = cc
starts_with-append (b ∷ bs) more (n ∷ ns) h = ground (arith, starts_with-append bs more ns)

pub starts_with-eq_append :
    (b needle : Bytes) → starts_with b needle ≡ true → b ≡ needle ++ drop (length needle) b
unfolding starts_with
starts_with-eq_append b [] h = refl
starts_with-eq_append [] (n ∷ ns) h = cc
starts_with-eq_append (b ∷ bs) (n ∷ ns) h = ground (arith, starts_with-eq_append bs ns)

pub starts_with_self : (needle more : Bytes) → starts_with (needle ++ more) needle ≡ true
unfolding starts_with
starts_with_self [] more = ground arith
starts_with_self (n ∷ ns) more = ground (arith, starts_with_self ns more)

pub find_window_here :
    (b : ℕ) (bs needle : Bytes)
    → starts_with (b ∷ bs) needle ≡ true
    → find_window (b ∷ bs) needle ≡ some 0
unfolding find_window
find_window_here b bs needle h = rw h

pub find_window_later :
    (b : ℕ) (bs needle : Bytes)
    → starts_with (b ∷ bs) needle ≡ false
    → find_window (b ∷ bs) needle ≡ Option.map suc (find_window bs needle)
unfolding find_window
find_window_later b bs needle h = rw h

pub starts_with-length : (b needle : Bytes) → starts_with b needle ≡ true → length needle ≤ length b
unfolding starts_with
starts_with-length b [] h = omega arith
starts_with-length [] (n ∷ ns) h = cc
starts_with-length (b ∷ bs) (n ∷ ns) h = ground (arith, starts_with-length bs ns)

-- Later bytes cannot complete a window for which there was room.
pub starts_with-append_false :
    (b more needle : Bytes)
    → length needle ≤ length b
    → starts_with b needle ≡ false
    → starts_with (b ++ more) needle ≡ false
unfolding starts_with
starts_with-append_false [] more [] h e = cc e
starts_with-append_false (b ∷ bs) more [] h e = cc e
starts_with-append_false [] more (n ∷ ns) h e = absurd (omega arith)
starts_with-append_false (b ∷ bs) more (n ∷ ns) h e =
    ground (arith, starts_with-append_false bs more ns (omega arith))

-- A window that was found is there.
pub find_window-starts_with :
    (b needle : Bytes) {at : ℕ}
    → find_window b needle ≡ some at
    → (starts_with (drop at b) needle ≡ true) × (at < length b) × (at + length needle ≤ length b)
find_window-starts_with [] needle e = unfold find_window in cc
find_window-starts_with (b ∷ bs) needle {at} e = elim (Bool-cases (starts_with (b ∷ bs) needle)) [
  | inl here ↦
      ground
        (arith, here, find_window_here b bs needle here, starts_with-length (b ∷ bs) needle here)
  | inr miss ↦ elim (Option-cases (find_window bs needle)) [
    | inl gone ↦ ground (arith, find_window_later b bs needle miss)
    | inr (k, found) ↦
        let ih = find_window-starts_with bs needle found in
        ground (arith, find_window_later b bs needle miss, ih)
  ]
]

pub find_window-append :
    (b more needle : Bytes) {at : ℕ}
    → find_window b needle ≡ some at
    → find_window (b ++ more) needle ≡ some at
find_window-append [] more needle e = unfold find_window in cc
find_window-append (b ∷ bs) more needle {at} e = elim (Bool-cases (starts_with (b ∷ bs) needle)) [
  | inl here ↦
      find_window_here b (bs ++ more) needle (starts_with-append (b ∷ bs) more needle here)
      ∙ sym (find_window_here b bs needle here)
      ∙ e
  | inr miss ↦ elim (Option-cases (find_window bs needle)) [
    | inl gone ↦ ground (arith, find_window_later b bs needle miss)
    | inr (k, found) ↦
        let room = find_window-starts_with (b ∷ bs) needle e in
        find_window_later b (bs ++ more) needle
          (starts_with-append_false (b ∷ bs) more needle (omega arith) miss)
        ∙ ap (Option.map suc) (find_window-append bs more needle found ∙ sym found)
        ∙ sym (find_window_later b bs needle miss)
        ∙ e
  ]
]

-- The first occurrence is the first: no window starts before it.
pub find_window_first :
    (b needle : Bytes) (k : ℕ) {at : ℕ}
    → find_window b needle ≡ some at
    → k < at
    → starts_with (drop k b) needle ≡ false
find_window_first [] needle k e h = unfold find_window in cc
find_window_first (b ∷ bs) needle k {at} e h = elim (Bool-cases (starts_with (b ∷ bs) needle)) [
  | inl here ↦ ground (arith, find_window_here b bs needle here)
  | inr miss ↦ elim (Option-cases (find_window bs needle)) [
    | inl gone ↦ ground (arith, find_window_later b bs needle miss)
    | inr (j, found) ↦
        let shifted : suc j ≡ at = ground (arith, find_window_later b bs needle miss) in
        earlier k j miss shifted h (λ i lt. find_window_first bs needle i found lt)
  ]
]
  where
    earlier :
        (k j : ℕ)
        → starts_with (b ∷ bs) needle ≡ false
        → suc j ≡ at
        → k < at
        → ((i : ℕ) → i < j → starts_with (drop i bs) needle ≡ false)
        → starts_with (drop k (b ∷ bs)) needle ≡ false
    earlier zero j miss s lt ih = miss
    earlier (suc i) j miss s lt ih = ih i (omega arith)

-- Where no window is found, none starts anywhere.
pub find_window-none :
    (b needle : Bytes) (k : ℕ)
    → find_window b needle ≡ none
    → k < length b
    → starts_with (drop k b) needle ≡ false
find_window-none [] needle k e h = absurd (omega arith)
find_window-none (b ∷ bs) needle k e h = elim (Bool-cases (starts_with (b ∷ bs) needle)) [
  | inl here ↦ ground (arith, find_window_here b bs needle here)
  | inr miss ↦ elim (Option-cases (find_window bs needle)) [
    | inl gone ↦ at_each k miss gone h (λ i lt. find_window-none bs needle i gone lt)
    | inr (j, found) ↦ ground (arith, find_window_later b bs needle miss)
  ]
]
  where
    at_each :
        (k : ℕ)
        → starts_with (b ∷ bs) needle ≡ false
        → find_window bs needle ≡ none
        → k < length (b ∷ bs)
        → ((i : ℕ) → i < length bs → starts_with (drop i bs) needle ≡ false)
        → starts_with (drop k (b ∷ bs)) needle ≡ false
    at_each zero miss gone h ih = miss
    at_each (suc i) miss gone h ih = ih i (omega arith)
