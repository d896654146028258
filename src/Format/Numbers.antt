-- ===== src/Format/Numbers.antt =====
-- A number that is shown in hexadecimal is read back.
use sw_tos.Base.{
  ℕ, zero, suc, ◌+◌, ◌-◌, ◌*◌, ◌/◌, ◌%◌, ◌<◌, [], ◌∷◌, ◌++◌, Option, none, some, ltb, Text, length,
  ◌≡◌, refl, ap, ◌∙◌, arith, Bool-cases, Option-cases, ltb→lt, inl, inr,
}
use sw_tos.Format.{digit, digits, repeat, hex, digit_value, parse_digits}

-- What is parsed after something.
abbrev parse_from : ℕ → Text → Option ℕ → Option ℕ
parse_from base text none = none
parse_from base text (some value) = parse_digits base text value

parse_digits-append :
    (base : ℕ) (a b : Text) (value : ℕ)
    → parse_digits base (a ++ b) value ≡ parse_from base b (parse_digits base a value)
unfolding parse_digits
parse_digits-append base [] b value = refl
parse_digits-append base (c ∷ a) b value = elim (Option-cases (digit_value base c)) [
  | inl bad ↦ rw (bad, parse_digits)
  | inr (d, e) ↦ rw (e, parse_digits) (parse_digits-append base a b (value * base + d))
]

digit_value-digit : (d : ℕ) → d < 16 → digit_value 16 (digit d) ≡ some d
unfolding digit digit_value
digit_value-digit d h = ground arith

-- The first number for which so much fuel is not enough.
abbrev room : ℕ → ℕ
room zero = 16
room (suc fuel) = room fuel * 16

parse_digits-digits : (fuel n : ℕ) → n < room fuel → parse_digits 16 (digits 16 fuel n) 0 ≡ some n
unfolding digits parse_digits
parse_digits-digits zero n h =
    rw (digit_value-digit n (omega arith), parse_digits) (ap some (omega arith))
parse_digits-digits (suc fuel) n h = elim (Bool-cases (ltb n 16)) [
  | inl small ↦
      rw (small, digits)
        (rw (digit_value-digit n (ltb→lt n 16 small), parse_digits) (ap some (omega arith)))
  | inr large ↦
      rw (large, digits)
        (parse_digits-append 16 (digits 16 fuel (n / 16)) (digit (n % 16) ∷ []) 0
          ∙ ap (parse_from 16 (digit (n % 16) ∷ []))
              (parse_digits-digits fuel (n / 16) (omega arith))
          ∙ last)
]
  where
    last : parse_from 16 (digit (n % 16) ∷ []) (some (n / 16)) ≡ some n
    last = rw (digit_value-digit (n % 16) (omega arith), parse_digits) (ap some (omega arith))

parse_digits-repeat :
    (k : ℕ) (text : Text) → parse_digits 16 (repeat k b'0' ++ text) 0 ≡ parse_digits 16 text 0
unfolding repeat parse_digits
parse_digits-repeat zero text = refl
parse_digits-repeat (suc k) text = zero_first ∙ parse_digits-repeat k text
  where
    zero_first :
        parse_digits 16 (b'0' ∷ (repeat k b'0' ++ text)) 0
        ≡ parse_digits 16 (repeat k b'0' ++ text) 0
    zero_first = unfold parse_digits digit_value in refl

pub parse_digits-hex : (width n : ℕ) → n < 0x100000000 → parse_digits 16 (hex width n) 0 ≡ some n
unfolding hex
parse_digits-hex width n h =
    parse_digits-repeat (width - length (digits 16 7 n)) (digits 16 7 n)
    ∙ parse_digits-digits 7 n (omega arith)
