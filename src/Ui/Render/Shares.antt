-- ===== src/Ui/Render/Shares.antt =====
-- How `draw_grid` of tools/te-rs/src/ui.rs divides a width or a height: where each piece begins.
use native.Mathlib.Nat.{div-mul-le_self, le-div_iff_mul-le, div-le_of_le-mul, mul-le-mul_right}
use sw_tos.Base.{ℕ, ◌+◌, ◌*◌, ◌/◌, ◌≤◌, ◌<◌, ◌≡◌, arith}
use sw_tos.Ui.Render.{share}

-- Where the piece at an index begins.
abbrev pub begin : ℕ → ℕ → ℕ → ℕ
begin total pieces index = index * total / pieces

pub begin_ordered :
    (total pieces i k : ℕ) → 0 < pieces → i ≤ k → begin total pieces i ≤ begin total pieces k
begin_ordered total pieces i k h le =
    (le-div_iff_mul-le h).1
      (omega (arith, div-mul-le_self (i * total) pieces, mul-le-mul_right {m = i} {n = k} total le))

pub begin_within : (total pieces i : ℕ) → i ≤ pieces → 0 < pieces → begin total pieces i ≤ total
begin_within total pieces i h pos = div-le_of_le-mul pieces (mul-le-mul_right total h)

-- A piece begins where the ones before it end.
pub begin-share :
    (total pieces i : ℕ)
    → 0 < pieces
    → begin total pieces i + share total pieces i ≡ begin total pieces (i + 1)
begin-share total pieces i h = omega (arith, begin_ordered total pieces i (i + 1) h (omega arith))

pub begin_zero : (total pieces : ℕ) → 0 < pieces → begin total pieces 0 ≡ 0
begin_zero total pieces h =
    let small : 0 * total / pieces ≤ 0 = div-le_of_le-mul pieces (omega arith) in
    omega (arith, small)
