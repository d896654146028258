-- ===== src/Format.antt =====
-- The operations of the standard library's formatting and parsing that the tools call, on texts as
-- lists of code points: `{}`, `{:06x}`, `{:<8}`, `from_str_radix`, `parse`, `split_whitespace`.
pub mod Numbers
use sw_tos.Base.{
  ℕ, zero, suc, ◌+◌, ◌-◌, ◌*◌, ◌/◌, ◌%◌, List, [], ◌∷◌, ◌++◌, Option, none, some, Bool, true, false,
  ◌&&◌, ◌||◌, ltb, leb, ◌==◌, if◌then◌else◌, Text, codes, length, drop, bytes_eq, starts_with,
  find_window, reverse, get_last?, Bytes,
}
use mathlib.Core.Option

-- The digits of a number, in lower case.
unfoldable pub digit : ℕ → ℕ
digit d = if ltb d 10 then 48 + d else 87 + d

-- The digits of a number in a base, at most `fuel + 1` of them.
unfoldable pub digits : ℕ → ℕ → ℕ → Text
unfolding digit
digits base zero n = digit n ∷ []
digits base (suc fuel) n =
    let front = digits base fuel (n / base) in
    if ltb n base then digit n ∷ [] else front ++ digit (n % base) ∷ []

unfoldable pub repeat {ℓ} : {A : Type ℓ} → ℕ → A → List A
repeat zero x = []
repeat (suc n) x = x ∷ repeat n x

-- `{}` on a number below 10^20, which every integer of 64 bits is.
unfoldable pub decimal : ℕ → Text
unfolding digits
decimal n = digits 10 19 n

-- `{:0width$x}` on a number of at most 32 bits.
unfoldable pub hex : ℕ → ℕ → Text
unfolding digits repeat
hex width n = let shown = digits 16 7 n in repeat (width - length shown) b'0' ++ shown

-- `{:<width$}`.
unfoldable pub pad_right : ℕ → Text → Text
unfolding repeat
pad_right width text = text ++ repeat (width - length text) b' '

-- The value of a digit in a base.
unfoldable pub digit_value : ℕ → ℕ → Option ℕ
digit_value base c =
    let value =
      if leb b'0' c && leb c b'9'
      then c - 48
      else if leb b'a' c && leb c b'z'
      then c - 87
      else if leb b'A' c && leb c b'Z'
      then c - 55
      else base in
    if ltb value base then some value else none

unfoldable pub parse_digits : ℕ → Text → ℕ → Option ℕ
unfolding digit_value
parse_digits base [] value = some value
parse_digits base (c ∷ cs) value = elim (digit_value base c) [
  | none ↦ none
  | some d ↦ parse_digits base cs (value * base + d)
]

-- A value below the limit of the type.
abbrev pub below : ℕ → Option ℕ → Option ℕ
below limit none = none
below limit (some n) = if ltb n limit then some n else none

-- A leading plus sign is passed over, if something follows it.
abbrev pub without_plus : Text → Text
without_plus (c ∷ d ∷ cs) = if c == b'+' then d ∷ cs else c ∷ d ∷ cs
without_plus short = short

-- `from_str_radix` of an unsigned type whose values lie below `limit`, and `parse` in base ten.
unfoldable pub from_str_radix : ℕ → ℕ → Text → Option ℕ
unfolding parse_digits
from_str_radix base limit [] = none
from_str_radix base limit (c ∷ cs) = below limit (parse_digits base (without_plus (c ∷ cs)) 0)

abbrev pub parse : ℕ → Text → Option ℕ
parse limit = from_str_radix 10 limit

-- `strip_prefix` and `contains`.
unfoldable pub strip_prefix : Text → Text → Option Text
unfolding starts_with
strip_prefix text prefix =
    if starts_with text prefix then some (drop (length prefix) text) else none

unfoldable pub contains : Text → Text → Bool
unfolding find_window
contains text needle = elim (find_window text needle) [ none ↦ false | some at ↦ true ]

-- `char::is_whitespace`.
abbrev pub is_whitespace : ℕ → Bool
is_whitespace c =
    leb 9 c && leb c 13
    || c == 32
    || c == 0x85
    || c == 0xa0
    || c == 0x1680
    || leb 0x2000 c && leb c 0x200a
    || c == 0x2028
    || c == 0x2029
    || c == 0x202f
    || c == 0x205f
    || c == 0x3000

-- A word in front of the words, if there is one.
abbrev pub word_before : Text → List Text → List Text
word_before [] words = words
word_before (c ∷ cs) words = (c ∷ cs) ∷ words

-- The word that is being read, and the words behind it.
unfoldable pub split_words : Text → Text × List Text
split_words [] = ([], [])
split_words (c ∷ cs) =
    let (word, words) = split_words cs in
    if is_whitespace c then ([], word_before word words) else (c ∷ word, words)

unfoldable pub split_whitespace : Text → List Text
unfolding split_words
split_whitespace text = let (word, words) = split_words text in word_before word words

unfoldable pub trim_start : Text → Text
trim_start [] = []
trim_start (c ∷ cs) = let rest = trim_start cs in if is_whitespace c then rest else c ∷ cs

unfoldable pub trim_end : Text → Text
trim_end [] = []
trim_end (c ∷ cs) = elim (trim_end cs) [
  | [] ↦ if is_whitespace c then [] else c ∷ []
  | d ∷ ds ↦ c ∷ d ∷ ds
]

-- `trim`.
unfoldable pub trim : Text → Text
unfolding trim_start trim_end
trim text = trim_end (trim_start text)

-- `join(separator)`.
unfoldable pub join : Text → List Text → Text
join separator [] = []
join separator (x ∷ []) = x
join separator (x ∷ y ∷ xs) = x ++ (separator ++ join separator (y ∷ xs))

-- The line that is being read, and the lines behind it.
unfoldable pub split_lines : Text → Text × List Text
split_lines [] = ([], [])
split_lines (c ∷ cs) =
    let (line, lines) = split_lines cs in
    if c == b'\n' then ([], line ∷ lines) else (c ∷ line, lines)

-- A carriage return before the newline is not part of the line.
unfoldable pub without_return : Text → Text
without_return [] = []
without_return (c ∷ []) = if c == b'\r' then [] else c ∷ []
without_return (c ∷ d ∷ cs) = c ∷ without_return (d ∷ cs)

unfoldable pub strip_returns : List Text → List Text
unfolding without_return
strip_returns [] = []
strip_returns (line ∷ []) = line ∷ []
strip_returns (line ∷ next ∷ lines) = without_return line ∷ strip_returns (next ∷ lines)

-- `lines()`: no last line that is empty.
unfoldable pub drop_empty_last : List Text → List Text
drop_empty_last [] = []
drop_empty_last ([] ∷ []) = []
drop_empty_last (line ∷ lines) = line ∷ drop_empty_last lines

unfoldable pub lines : Text → List Text
unfolding split_lines strip_returns drop_empty_last
lines text = let (line, rest) = split_lines text in drop_empty_last (strip_returns (line ∷ rest))

-- `ends_with`, and `rsplit_once` at a character.
unfoldable pub ends_with : Text → Text → Bool
unfolding bytes_eq
ends_with text suffix =
    leb (length suffix) (length text) && bytes_eq (drop (length text - length suffix) text) suffix

unfoldable pub rsplit_once : ℕ → Text → Option (Text × Text)
rsplit_once at [] = none
rsplit_once at (c ∷ cs) = elim (rsplit_once at cs) [
  | some halves ↦ some (c ∷ halves.0, halves.1)
  | none ↦ if c == at then some ([], cs) else none
]

-- `as_bytes` on a string: UTF-8.
abbrev utf8_char : ℕ → Bytes
utf8_char c =
    if ltb c 0x80
    then c ∷ []
    else if ltb c 0x800
    then (0xc0 + c / 64) ∷ (0x80 + c % 64) ∷ []
    else if ltb c 0x10000
    then (0xe0 + c / 4096) ∷ (0x80 + c / 64 % 64) ∷ (0x80 + c % 64) ∷ []
    else (0xf0 + c / 262144) ∷ (0x80 + c / 4096 % 64) ∷ (0x80 + c / 64 % 64) ∷ (0x80 + c % 64) ∷ []

unfoldable pub as_bytes : Text → Bytes
as_bytes [] = []
as_bytes (c ∷ cs) = utf8_char c ++ as_bytes cs
