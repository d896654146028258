-- ===== src/Base/Utf8.antt =====
-- `String::from_utf8_lossy` of the standard library, as code points: each maximal part of a
-- sequence that cannot go on becomes one U+FFFD.
use Prim.Native.Nat.{ℕ, zero, suc, ◌+◌, ◌-◌, ◌*◌}
use mathlib.Core.Bool.{◌&&◌}
use mathlib.Core.List.{[], ◌∷◌, ◌++◌}
use sw_tos.Base.Chars.{Text}
use sw_tos.Base.Slices.{Bytes}
use sw_tos.Base.Tests.{leb, ltb, ◌==◌, if◌then◌else◌}

-- Between characters, or in one that wants `suc more` bytes, the next of them in a range.
pub data Utf8State : Type 0 where
  between : Utf8State
  within : (more value low high : ℕ) → Utf8State

abbrev replacement : ℕ
replacement = 0xfffd

lead : ℕ → Text × Utf8State
lead b =
    if ltb b 0x80
    then (b ∷ [], between)
    else if leb 0xc2 b && leb b 0xdf
    then ([], within 0 (b - 0xc0) 0x80 0xbf)
    else if b == 0xe0
    then ([], within 1 0 0xa0 0xbf)
    else if b == 0xed
    then ([], within 1 13 0x80 0x9f)
    else if leb 0xe1 b && leb b 0xef
    then ([], within 1 (b - 0xe0) 0x80 0xbf)
    else if b == 0xf0
    then ([], within 2 0 0x90 0xbf)
    else if leb 0xf1 b && leb b 0xf3
    then ([], within 2 (b - 0xf0) 0x80 0xbf)
    else if b == 0xf4
    then ([], within 2 4 0x80 0x8f)
    else (replacement ∷ [], between)

abbrev replaced : Text × Utf8State → Text × Utf8State
replaced (out, s) = (replacement ∷ out, s)

utf8_step : Utf8State → ℕ → Text × Utf8State
unfolding lead
utf8_step between b = lead b
utf8_step (within zero value low high) b =
    if leb low b && leb b high then ((value * 64 + (b - 0x80)) ∷ [], between) else replaced (lead b)
utf8_step (within (suc more) value low high) b =
    if leb low b && leb b high
    then ([], within more (value * 64 + (b - 0x80)) 0x80 0xbf)
    else replaced (lead b)

utf8_run : Utf8State → Bytes → Text
unfolding utf8_step
utf8_run between [] = []
utf8_run (within more value low high) [] = replacement ∷ []
utf8_run s (b ∷ bs) = let (out, s') = utf8_step s b in out ++ utf8_run s' bs

unfoldable pub from_utf8_lossy : Bytes → Text
unfolding utf8_run
from_utf8_lossy = utf8_run between
