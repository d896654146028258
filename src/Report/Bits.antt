-- ===== src/Report/Bits.antt =====
-- The bits of a byte, least significant first, as the decoder of tools/te-rs/src/bin/sr-report.rs puts
-- them together.
use sw_tos.Base.{
  ℕ, suc, ◌/◌, ◌%◌, ◌^◌, ◌<◌, List, [], ◌∷◌, Bool, ◌==◌, if◌then◌else◌, ◌≡◌, ap, ◌∙◌, arith, drop,
}
use sw_tos.Report.{with_bit}

-- What the decoder makes of the levels of the bits from one on.
abbrev pub gathered : ℕ → List Bool → ℕ → ℕ
gathered bit [] byte = byte
gathered bit (level ∷ levels) byte =
    gathered (suc bit) levels (if level then with_bit byte bit else byte)

abbrev pub bit_of : ℕ → ℕ → Bool
bit_of byte bit = byte / 2 ^ bit % 2 == 1

abbrev pub levels_of : ℕ → List Bool
levels_of byte =
    bit_of byte 0
    ∷ bit_of byte 1
    ∷ bit_of byte 2
    ∷ bit_of byte 3
    ∷ bit_of byte 4
    ∷ bit_of byte 5
    ∷ bit_of byte 6
    ∷ bit_of byte 7
    ∷ []

-- The bits below a bit, with the bit.
abbrev with_level : ℕ → ℕ → ℕ → ℕ
with_level byte bit low = if bit_of byte bit then with_bit low bit else low

abbrev Joins : ℕ → ℕ → Type 0
Joins byte bit = with_level byte bit (byte % 2 ^ bit) ≡ byte % 2 ^ suc bit

add_bit_0 : (byte : ℕ) → Joins byte 0
add_bit_0 byte = ground arith

add_bit_1 : (byte : ℕ) → Joins byte 1
add_bit_1 byte = ground arith

add_bit_2 : (byte : ℕ) → Joins byte 2
add_bit_2 byte = ground arith

add_bit_3 : (byte : ℕ) → Joins byte 3
add_bit_3 byte = ground arith

add_bit_4 : (byte : ℕ) → Joins byte 4
add_bit_4 byte = ground arith

add_bit_5 : (byte : ℕ) → Joins byte 5
add_bit_5 byte = ground arith

add_bit_6 : (byte : ℕ) → Joins byte 6
add_bit_6 byte = ground arith

add_bit_7 : (byte : ℕ) → Joins byte 7
add_bit_7 byte = ground arith

pub gathered-levels_of : (byte : ℕ) → byte < 256 → gathered 0 (levels_of byte) 0 ≡ byte
gathered-levels_of byte h =
    let from : ℕ → List Bool = λ n. drop n (levels_of byte) in
    let none_yet : 0 ≡ byte % 1 = omega arith in
    ap (gathered 0 (from 0)) none_yet
    ∙ ap (gathered 1 (from 1)) (add_bit_0 byte)
    ∙ ap (gathered 2 (from 2)) (add_bit_1 byte)
    ∙ ap (gathered 3 (from 3)) (add_bit_2 byte)
    ∙ ap (gathered 4 (from 4)) (add_bit_3 byte)
    ∙ ap (gathered 5 (from 5)) (add_bit_4 byte)
    ∙ ap (gathered 6 (from 6)) (add_bit_5 byte)
    ∙ ap (gathered 7 (from 7)) (add_bit_6 byte)
    ∙ ap (gathered 8 (from 8)) (add_bit_7 byte)
    ∙ (let whole : byte % 256 ≡ byte = omega arith in whole)
