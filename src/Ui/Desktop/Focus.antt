-- ===== src/Ui/Desktop/Focus.antt =====
-- The focus names a pane: every operation keeps it so, and with that none of them panics.
use sw_tos.Base.{
  ℕ, zero, suc, ◌+◌, ◌<◌, min, List, [], ◌∷◌, none, some, ◌≡◌, refl, ap, arith, length, get_elem?,
  subst, sym, ltb, ◌≤◌, ◌⊎◌, ◌≢◌, false, set, insert_at, remove_at, ◌==◌, ◌||◌, Bool-cases, inl,
  inr, Option, Bool, Option-cases,
}
use sw_tos.Ui.Desktop.{Desktop, on_focused, focused_channel, position, any_pane, retain, on_channel}
use sw_tos.Ui.Desktop.Closing.{
  restore_pane, restore_system_panes, is_open, close_panes, close_ended, clear, close_focused,
}
use sw_tos.Ui.Desktop.Command.{CommandOutcome, closed, pane_key, command, settled, disarmed}
use sw_tos.Ui.Pane.{
  Pane, PaneKind, shell, application, debugger, new_pane, default_channel, kind_title,
  default_scrollback,
}

abbrev pub IsFocused : Desktop → Type 0
IsFocused d = d.focus < length d.panes

module _ {ℓ} {A : Type ℓ} where
  length-set : (xs : List A) (i : ℕ) (v : A) → length (set xs i v) ≡ length xs
  length-set [] i v = refl
  length-set (x ∷ xs) zero v = refl
  length-set (x ∷ xs) (suc i) v = ap suc (length-set xs i v)

  length-insert_at : (i : ℕ) (v : A) (xs : List A) → length (insert_at i v xs) ≡ suc (length xs)
  length-insert_at zero v xs = refl
  length-insert_at (suc i) v [] = refl
  length-insert_at (suc i) v (x ∷ xs) = ap suc (length-insert_at i v xs)

  length-remove_at : (i : ℕ) (xs : List A) → i < length xs → length (remove_at i xs) + 1 ≡ length xs
  length-remove_at i [] h = elim h [ ]
  length-remove_at zero (x ∷ xs) h = omega arith
  length-remove_at (suc i) (x ∷ xs) h = omega (arith, length-remove_at i xs (omega arith))

  get_elem?-some : (xs : List A) (i : ℕ) → i < length xs → (a : A) × (get_elem? xs i ≡ some a)
  get_elem?-some [] i h = elim h [ ]
  get_elem?-some (x ∷ xs) zero h = (x, refl)
  get_elem?-some (x ∷ xs) (suc i) h = get_elem?-some xs i (omega arith)

-- The operation does not panic, and the focus of what it leaves names a pane.
abbrev pub Keeps : Option Desktop → Type 0
Keeps none = ⊥
Keeps (some d) = IsFocused d

abbrev pub CommandKeeps : Option (Desktop × CommandOutcome) → Type 0
CommandKeeps none = ⊥
CommandKeeps (some (d, outcome)) = IsFocused d

position-lt :
    (test : Pane → Bool) (panes : List Pane) {i : ℕ}
    → position test panes ≡ some i
    → i < length panes
unfolding position
position-lt test [] e = cc e
position-lt test (pane ∷ panes) e = elim (Option-cases (position test panes)) [
  | inl gone ↦ ground arith
  | inr (k, found) ↦ ground (arith, position-lt test panes found)
]

pub on_focused-Keeps :
    (write : Pane → Pane) (d : Desktop) → IsFocused d → Keeps (on_focused write d)
on_focused-Keeps write d h =
    let (pane, e) = get_elem?-some d.panes d.focus h in
    rw e (omega (arith, length-set d.panes d.focus (write pane)))

restore_pane-IsFocused :
    (place : ℕ) (kind : PaneKind) (d : Desktop) (n : ℕ)
    → IsFocused d
    → IsFocused (restore_pane place kind (d, n)).0
unfolding restore_pane
restore_pane-IsFocused place kind d n h = ground (
  arith,
  length-insert_at (min place (length d.panes))
      (new_pane kind (default_channel kind) (kind_title kind) default_scrollback) d.panes,
)

pub restore_system_panes-IsFocused :
    (d : Desktop) → IsFocused d → IsFocused (restore_system_panes d).0
unfolding restore_system_panes
restore_system_panes-IsFocused d h =
    let first = restore_pane 0 shell (d, 0) in
    let second = restore_pane 1 application first in
    restore_pane-IsFocused 2 debugger second.0 second.1
      (restore_pane-IsFocused 1 application first.0 first.1 (restore_pane-IsFocused 0 shell d 0 h))

-- A grid of no panes gets all three back.
restore_from_none : (d : Desktop) → d.panes ≡ [] → 0 < length (restore_system_panes d).0.panes
unfolding restore_system_panes restore_pane any_pane
restore_from_none d e = rw e (omega arith)

close_focused-Keeps : (d : Desktop) → IsFocused d → Keeps (close_focused d)
unfolding close_focused
close_focused-Keeps d h = ground (arith, length-remove_at d.focus d.panes h)

clear-IsFocused : (index : ℕ) (d : Desktop) → IsFocused d → IsFocused (clear index d)
clear-IsFocused index d h = elim (Option-cases (get_elem? d.panes index)) [
  | inl gone ↦ rw (gone, clear) h
  | inr (pane, found) ↦ rw (found, clear) (omega (arith, length-set d.panes index _))
]

close_panes-some : (d : Desktop) → 0 < length (close_panes d).panes
unfolding close_panes
close_panes-some d =
    let kept = record d { panes = retain is_open d.panes } in
    elim (Bool-cases (length kept.panes == 0)) [
      | inl e ↦ ground (arith, restore_from_none kept)
      | inr e ↦ ground arith
    ]

pub close_ended-IsFocused : (d : Desktop) → IsFocused (close_ended d).0
unfolding close_ended
close_ended-IsFocused d = elim (Option-cases (focused_channel d)) [
  | inl gone ↦ rw (gone, close_ended) (close_panes-some d)
  | inr (channel, e) ↦ elim (Option-cases (position (on_channel channel) (close_panes d).panes)) [
    | inl lost ↦ rw (e, lost, close_ended) (close_panes-some d)
    | inr (at, found) ↦
        rw (e, found, close_ended) (position-lt (on_channel channel) (close_panes d).panes found)
  ]
]

-- A pane whose program has not ended, or no fewer panes than the system has.
abbrev pub HasRoom : List Pane → Type 0
HasRoom panes =
    ((i : ℕ) × (pane : Pane) × (get_elem? panes i ≡ some pane) × (pane.ended ≡ false))
    ⊎ (3 ≤ length panes)

length-retain : (test : Pane → Bool) (xs : List Pane) → length (retain test xs) ≤ length xs
unfolding retain
length-retain test [] = omega arith
length-retain test (x ∷ xs) = ground (arith, length-retain test xs)

open_retained :
    (xs : List Pane) (i : ℕ) (pane : Pane)
    → get_elem? xs i ≡ some pane
    → pane.ended ≡ false
    → 0 < length (retain is_open xs)
unfolding retain
open_retained [] i pane at e = absurd (grind (arith, at))
open_retained (x ∷ xs) zero pane at e = ground (arith, at, e)
open_retained (x ∷ xs) (suc i) pane at e = ground (arith, open_retained xs i pane at e)

-- A grid of no panes gets no more than three.
restore_three : (d : Desktop) → d.panes ≡ [] → length (restore_system_panes d).0.panes ≤ 3
unfolding restore_system_panes restore_pane any_pane
restore_three d e = rw e (omega arith)

length-close_panes : (d : Desktop) → HasRoom d.panes → length (close_panes d).panes ≤ length d.panes
unfolding close_panes
length-close_panes d room =
    let kept = record d { panes = retain is_open d.panes } in
    let fewer = length-retain is_open d.panes in
    elim (Bool-cases (length kept.panes == 0)) [
      | inr e ↦ rw e fewer
      | inl e ↦ elim room [
        | inl (i, pane, at, alive) ↦
            absurd (ground (arith, e, open_retained d.panes i pane at alive))
        | inr three ↦
            rw e (omega (arith, three, restore_three kept (none_left kept.panes (ground arith))))
      ]
    ]
  where
    none_left : (xs : List Pane) → length xs ≡ 0 → xs ≡ []
    none_left [] h = refl
    none_left (x ∷ xs) h = absurd (omega (arith, h))

closed-Keeps : (d : Desktop) → HasRoom d.panes → Keeps (closed (close_ended d))
closed-Keeps d room =
    let counts : ltb (length d.panes) (length (close_panes d).panes) ≡ false =
      ground (arith, length-close_panes d room) in
    let focus = close_ended-IsFocused d in unfold close_ended in ground (arith, counts, focus)

pane_key-Keeps :
    (byte : ℕ) (d : Desktop)
    → IsFocused d
    → (byte ≢ b'c') ⊎ HasRoom d.panes
    → Keeps (pane_key byte d)
unfolding pane_key
pane_key-Keeps byte d h (inl other) = ground (
  arith,
  other,
  close_focused-Keeps d h,
  clear-IsFocused d.focus d h,
  restore_system_panes-IsFocused d h,
)
pane_key-Keeps byte d h (inr room) = ground (
  arith,
  close_focused-Keeps d h,
  clear-IsFocused d.focus d h,
  restore_system_panes-IsFocused d h,
  closed-Keeps d room,
)

settled-Keeps : (d : Option Desktop) → Keeps d → CommandKeeps (settled d)
settled-Keeps none h = h
settled-Keeps (some d) h =
    let (pane, e) = get_elem?-some d.panes d.focus h in
    rw (e, CommandKeeps, settled) (omega (arith, length-set d.panes d.focus _))

disarmed-IsFocused : (byte : ℕ) (d : Desktop) → IsFocused d → IsFocused (disarmed byte d)
disarmed-IsFocused byte d h = ground arith

disarmed-panes : (byte : ℕ) (d : Desktop) → (disarmed byte d).panes ≡ d.panes
disarmed-panes byte d = ground arith

-- If the focus names a pane, then whatever key is pressed the command does not panic, and the
-- focus names a pane after it; but for `c`, which closes the panes that have ended, where one pane
-- must not have ended or there must be three.
pub command-Keeps :
    (byte : ℕ) (d : Desktop)
    → IsFocused d
    → (byte ≢ b'c') ⊎ HasRoom d.panes
    → CommandKeeps (command byte d)
unfolding command
command-Keeps byte d h room =
    let h' = disarmed-IsFocused byte d h in
    let room' : (byte ≢ b'c') ⊎ HasRoom (disarmed byte d).panes = elim room [
      | inl other ↦ inl other
      | inr has ↦ inr (subst HasRoom (sym (disarmed-panes byte d)) has)
    ] in
    elim (Bool-cases (byte == b'w')) [
      | inl e ↦ rw e h'
      | inr n ↦ elim (Bool-cases (byte == b'd' || byte == 0x04)) [
        | inl e ↦ rw (n, e) h'
        | inr m ↦
            rw (n, m)
              (settled-Keeps (pane_key byte (disarmed byte d))
                (pane_key-Keeps byte (disarmed byte d) h' room'))
      ]
    ]
