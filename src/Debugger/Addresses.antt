-- ===== src/Debugger/Addresses.antt =====
-- Addresses that the console prints can be typed back.
use mathlib.Core.Option
use sw_tos.Base.{
  ℕ, suc, ◌-◌, ◌≤◌, ◌==◌, [], ◌∷◌, ◌++◌, none, some, ◌≡◌, refl, sym, ◌∙◌, ap, arith, ok, Text,
  codes, length, starts_with, inl, inr, Bool-cases, ==_iff,
}
use sw_tos.Debugger.Steps.{parse_address}
use sw_tos.Format.Numbers.{parse_digits-hex}
use sw_tos.Format.{
  hex, repeat, digits, digit_value, parse_digits, without_plus, from_str_radix, strip_prefix,
}

no_sign : (text : Text) → parse_digits 16 (b'+' ∷ text) 0 ≡ none
unfolding parse_digits digit_value
no_sign text = refl

no_prefix : (text : Text) → parse_digits 16 (b'0' ∷ b'x' ∷ text) 0 ≡ none
unfolding parse_digits digit_value
no_prefix text = refl

-- A text that is read as digits has no sign.
without_plus-digits :
    (text : Text) {n : ℕ} → parse_digits 16 text 0 ≡ some n → without_plus text ≡ text
without_plus-digits [] h = refl
without_plus-digits (c ∷ []) h = refl
without_plus-digits (c ∷ d ∷ cs) h = elim (Bool-cases (c == b'+')) [
  | inl e ↦
      let same = (==_iff c b'+').0 e in
      cc (ap (λ x. parse_digits 16 (x ∷ d ∷ cs) 0) same, no_sign (d ∷ cs), h)
  | inr e ↦ rw e refl
]

-- Nor does it begin with `0x`.
strip_prefix-digits :
    (text : Text) {n : ℕ} → parse_digits 16 text 0 ≡ some n → strip_prefix text (codes "0x") ≡ none
unfolding strip_prefix starts_with
strip_prefix-digits [] h = refl
strip_prefix-digits (c ∷ []) h = elim (Bool-cases (c == b'0')) [
  | inl e ↦ rw e refl
  | inr e ↦ rw e refl
]
strip_prefix-digits (c ∷ d ∷ cs) h = elim (Bool-cases (c == b'0')) [
  | inr e ↦ rw e refl
  | inl e ↦ elim (Bool-cases (d == b'x')) [
    | inr f ↦ rw (e, f) refl
    | inl f ↦
        let first = (==_iff c b'0').0 e in
        let second = (==_iff d b'x').0 f in
        cc (
          ap (λ x. parse_digits 16 (x ∷ d ∷ cs) 0) first,
          ap (λ x. parse_digits 16 (b'0' ∷ x ∷ cs) 0) second,
          no_prefix cs,
          h,
        )
  ]
]

radix-digits :
    (c : ℕ) (cs : Text) (n : ℕ)
    → n ≤ 0xffffff
    → parse_digits 16 (c ∷ cs) 0 ≡ some n
    → from_str_radix 16 0x100000000 (c ∷ cs) ≡ some n
unfolding from_str_radix
radix-digits c cs n small h = rw (without_plus-digits (c ∷ cs) h, h) (ground arith)

parse_address-value :
    (value : Text) (n : ℕ)
    → n ≤ 0xffffff
    → from_str_radix 16 0x100000000 (Option.get_or (strip_prefix value (codes "0x")) value) ≡ some n
    → parse_address value ≡ ok n
unfolding parse_address
parse_address-value value n small h = rw h (ground arith)

strip_prefix-prefixed : (text : Text) → strip_prefix (codes "0x" ++ text) (codes "0x") ≡ some text
unfolding strip_prefix starts_with
strip_prefix-prefixed text = refl

append-some : (xs ys : Text) (y : ℕ) → (c : ℕ) × (cs : Text) × (xs ++ y ∷ ys ≡ c ∷ cs)
append-some [] ys y = (y, ys, refl)
append-some (x ∷ xs) ys y = (x, xs ++ y ∷ ys, refl)

padded-some :
    (width : ℕ) (shown : Text)
    → (c : ℕ) × (cs : Text) × (repeat (suc width - length shown) b'0' ++ shown ≡ c ∷ cs)
unfolding repeat
padded-some width [] =
    let all : suc width - 0 ≡ suc width = omega arith in
    (b'0', repeat width b'0' ++ [], rw all refl)
padded-some width (x ∷ xs) = append-some _ xs x

hex-some : (width n : ℕ) → (c : ℕ) × (cs : Text) × (hex (suc width) n ≡ c ∷ cs)
unfolding hex
hex-some width n = padded-some width (digits 16 7 n)

-- An address of 24 bits is read back from its six digits, with `0x` before them or not.
pub parse_address-hex :
    (n : ℕ)
    → n ≤ 0xffffff
    → (parse_address (hex 6 n) ≡ ok n) × (parse_address (codes "0x" ++ hex 6 n) ≡ ok n)
parse_address-hex n h =
    let (c, cs, e) = hex-some 5 n in
    let read = sym (ap (λ t. parse_digits 16 t 0) e) ∙ parse_digits-hex 6 n (omega arith) in
    let radix = radix-digits c cs n h read in
    rw e (
      parse_address-value (c ∷ cs) n h (rw (strip_prefix-digits (c ∷ cs) read) radix),
      parse_address-value (codes "0x" ++ c ∷ cs) n h (rw (strip_prefix-prefixed (c ∷ cs)) radix),
    )
