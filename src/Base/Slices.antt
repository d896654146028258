-- ===== src/Base/Slices.antt =====
-- Byte strings, their equality and the search for a window.
use Prim.Native.Nat.{ℕ, suc, ◌<◌}
use mathlib.Core.Path.{◌≡◌}
use mathlib.Core.Bool.{Bool, true, false, ◌&&◌}
use mathlib.Core.List.{List, [], ◌∷◌}
use mathlib.Core.Logic.{◌↔◌}
use mathlib.Core.Option
use mathlib.Core.Option.{Option, none, some}
use native.Mathlib.Omega.{arith}
use sw_tos.Base.Lists.{All}
use sw_tos.Base.Tests.{◌==◌, if◌then◌else◌}

abbrev pub Bytes : Type 0
Bytes = List ℕ

-- Every item is a `u8`.
abbrev pub IsBytes : Bytes → Type 0
IsBytes = All (λ b. b < 256)

-- `==` of slices.
unfoldable pub bytes_eq : Bytes → Bytes → Bool
bytes_eq [] [] = true
bytes_eq (x ∷ xs) (y ∷ ys) = x == y && bytes_eq xs ys
bytes_eq _ _ = false

pub bytes_eq_iff : (a b : Bytes) → (bytes_eq a b ≡ true) ↔ (a ≡ b)
unfolding bytes_eq
bytes_eq_iff (x ∷ a) (y ∷ b) = ground (arith, bytes_eq_iff a b)
bytes_eq_iff _ _ = ground arith

-- `bytes.starts_with(needle)`.
unfoldable pub starts_with : Bytes → Bytes → Bool
starts_with bs [] = true
starts_with [] (n ∷ ns) = false
starts_with (b ∷ bs) (n ∷ ns) = b == n && starts_with bs ns

-- `bytes.windows(needle.len()).position(|window| window == needle)`, for a needle that is not empty.
unfoldable pub find_window : Bytes → Bytes → Option ℕ
unfolding starts_with
find_window [] needle = none
find_window (b ∷ bs) needle =
    if starts_with (b ∷ bs) needle then some 0 else Option.map suc (find_window bs needle)
