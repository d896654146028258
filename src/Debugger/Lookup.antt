-- ===== src/Debugger/Lookup.antt =====
-- What the searches of the debug map find.
use sw_tos.Base.{
  ℕ, ◌%◌, ◌/◌, ◌+◌, ◌<◌, ◌≤◌, List, [], ◌∷◌, some, Bool, false, ◌&&◌, ltb, leb, ◌≡◌, refl, sym, ap,
  ◌∙◌, inl, inr, arith, Option-cases,
}
use sw_tos.Debugger.{Instruction, DebugMap, find, find_last, inside, source_at, memory_request}
use sw_tos.Adapter.{u24}

-- The instructions stand in order, none reaches into the next, and each ends below 2 ^ 32.
abbrev pub InOrder : ℕ → List Instruction → Type 0
InOrder low [] = Unit
InOrder low (i ∷ is) =
    (low ≤ i.address) × (i.address + i.size < 0x100000000) × InOrder (i.address + i.size) is

-- The address lies in the instruction.
abbrev pub covers : ℕ → Instruction → Bool
covers address i = leb i.address address && ltb address (i.address + i.size)

abbrev starts_by : ℕ → Instruction → Bool
starts_by address i = leb i.address address

find_last-bounds :
    (low address : ℕ) (is : List Instruction) {i : Instruction}
    → InOrder low is
    → find_last (starts_by address) is ≡ some i
    → (low ≤ i.address) × (i.address ≤ address)
unfolding find_last
find_last-bounds low address [] h e = cc e
find_last-bounds low address (x ∷ is) {i} h e =
    elim (Option-cases (find_last (starts_by address) is)) [
      | inl gone ↦ ground (arith, gone, e)
      | inr (j, found) ↦
          ground (arith, found, e, find_last-bounds (x.address + x.size) address is h.2 found)
    ]

inside-find :
    (low address : ℕ) (is : List Instruction)
    → InOrder low is
    → inside address (find_last (starts_by address) is) ≡ find (covers address) is
unfolding find_last find
inside-find low address [] h = refl
inside-find low address (x ∷ is) h = elim (Option-cases (find_last (starts_by address) is)) [
  | inl gone ↦ ground (arith, gone, inside-find (x.address + x.size) address is h.2)
  | inr (j, found) ↦
      let (least, most) = find_last-bounds (x.address + x.size) address is h.2 found in
      let outside : covers address x ≡ false = ground arith in
      let ih = inside-find (x.address + x.size) address is h.2 in
      rw (found, outside) (ap (inside address) (sym found) ∙ ih)
]

-- In a map whose instructions stand in order, do not overlap and end below 2 ^ 32, so that no sum
-- of an address and a size wraps around, `source_at` finds the instruction
-- in which the address lies, and none if it lies in none.
pub source_at-find :
    (m : DebugMap) (address : ℕ)
    → InOrder 0 m.instructions
    → source_at m address ≡ find (covers address) m.instructions
unfolding source_at
source_at-find m address h = inside-find 0 address m.instructions h

-- A memory request of one to twelve bytes at a 24-bit address is sent, and the adapter reads the
-- address from it.
pub memory_request-u24 :
    (address length : ℕ)
    → 0 < length
    → length ≤ 12
    → address ≤ 0xffffff
    → (a : ℕ) × (b : ℕ) × (c : ℕ) × (memory_request address length
        ≡ some (3 ∷ a ∷ b ∷ c ∷ length ∷ []))
      × (u24 a b c ≡ address)
unfolding memory_request u24
memory_request-u24 address length pos most short =
    (address % 256, address / 256 % 256, address / 65536 % 256, ground arith, omega arith)
