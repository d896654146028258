-- ===== src/Disasm.antt =====
-- The decoder of instructions: tools/te-rs/src/disasm.rs. The instruction set is the crate
-- `cor24_isa`, a parameter: its opcodes, their encoder and their formats.
pub mod Table
use mathlib.Core.Option
use sw_tos.Base.{
  ℕ, zero, suc, ◌+◌, ◌-◌, ◌*◌, ◌%◌, List, [], ◌∷◌, ◌++◌, map, concat, Option, none, some, Bool,
  true, false, ◌&&◌, ltb, leb, ◌==◌, if◌then◌else◌, Bytes, Text, codes, length, get_or,
}
use sw_tos.Format.{decimal, hex}

-- `InstructionFormat`, and the opcodes that the decoder treats apart; `other` is every other one.
pub data InstructionFormat : Type 0 where
  single_byte two_bytes four_bytes : InstructionFormat

pub data Variant : Type 0 where
  push pop jmp jal sub_sp bra brf brt lc lcu add_imm other : Variant

-- What the decoder calls of the crate, for its type of opcodes.
pub record Isa (O : Type 0) : Type 0 where
  pub opcode_from : ℕ → O
  pub encode_instruction : O → ℕ → ℕ → Option ℕ
  pub format : O → InstructionFormat
  pub size : InstructionFormat → ℕ
  pub mnemonic : O → Text
  pub reg_name : ℕ → Text
  pub variant : O → Variant

-- `for x in 0..n`, as a list.
abbrev pub count_up : ℕ → ℕ → List ℕ
count_up from zero = []
count_up from (suc n) = from ∷ count_up (suc from) n

-- `{:06X}`, and a byte `as i8`.
abbrev pub upper : ℕ → ℕ
upper c = if leb b'a' c && leb c b'z' then c - 32 else c

unfoldable pub hex_upper : ℕ → ℕ → Text
unfolding hex
hex_upper width n = map upper (hex width n)

unfoldable pub signed : ℕ → Text
unfolding decimal
signed byte = if ltb byte 128 then decimal byte else b'-' ∷ decimal (256 - byte)

-- One decoded instruction.
pub record Decoded : Type 0 where
  pub text : Text
  pub size : ℕ

module _ {O : Type 0} (isa : Isa O) where
  -- The table, from a byte to an opcode with its registers.
  abbrev pub Entry : Type 0
  Entry = O × ℕ × ℕ

  abbrev pub Entries : Type 0
  Entries = ℕ → Option Entry

  -- `get_or_insert`.
  abbrev pub or_insert : Option Entry → Entry → Option Entry
  or_insert none e = some e
  or_insert (some old) e = some old

  -- The body of the loops in `table`.
  abbrev pub insert : Entry → Entries → Entries
  insert (opcode, ra, rb) t = elim (isa.encode_instruction opcode ra rb) [
    | none ↦ t
    | some byte ↦ λ b. if b == byte then or_insert (t b) (opcode, ra, rb) else t b
  ]

  unfoldable pub fill : List Entry → Entries → Entries
  fill [] t = t
  fill (e ∷ es) t = fill es (insert e t)

  -- What the three loops run through, for so many opcode values and so many registers.
  unfoldable pub operands : ℕ → ℕ → List Entry
  operands values registers = concat (
      map
        (λ value. concat (
          map (λ ra. map (λ rb. (isa.opcode_from value, ra, rb)) (count_up 0 registers))
            (count_up 0 registers)))
        (count_up 0 values))

  unfoldable pub table : Entries
  unfolding fill operands
  table = fill (operands 32 8) (λ b. none)

  unfoldable pub register : ℕ → Text
  register index =
      let low = index % 8 in
      if low == 6 then codes "iv" else if low == 7 then codes "ir" else isa.reg_name low

  -- The text of an instruction of each format.
  unfoldable pub single_text : Variant → Text → ℕ → ℕ → Text
  unfolding register
  single_text push mnemonic ra rb = mnemonic ++ (codes " " ++ register ra)
  single_text pop mnemonic ra rb = mnemonic ++ (codes " " ++ register ra)
  single_text jmp mnemonic ra rb = mnemonic ++ (codes " (" ++ (register ra ++ codes ")"))
  single_text jal mnemonic ra rb =
      mnemonic ++ (codes " " ++ (register ra ++ (codes ",(" ++ (register rb ++ codes ")"))))
  single_text sub_sp mnemonic ra rb = codes "sub sp,r0"
  single_text _ mnemonic ra rb =
      mnemonic ++ (codes " " ++ (register ra ++ (codes "," ++ register rb)))

  -- `address + size + (operand as i8)`, wrapping at 32 bits, and its low 24.
  unfoldable pub branch_target : ℕ → ℕ → ℕ → ℕ
  branch_target address size operand =
      (address + size + (if ltb operand 128 then operand else 0xffffff00 + operand))
      % 0x100000000
      % 0x1000000

  abbrev pub branch_text : Text → ℕ → Text
  branch_text mnemonic target = mnemonic ++ (codes " 0x" ++ hex_upper 6 target)

  abbrev pub immediate_text : Text → ℕ → Text → Text
  immediate_text mnemonic ra operand =
      mnemonic ++ (codes " " ++ (register ra ++ (codes "," ++ operand)))

  unfoldable pub two_text : Variant → Text → ℕ → ℕ → ℕ → ℕ → ℕ → Text
  unfolding register branch_target hex_upper signed decimal
  two_text bra mnemonic ra rb address size operand =
      branch_text mnemonic (branch_target address size operand)
  two_text brf mnemonic ra rb address size operand =
      branch_text mnemonic (branch_target address size operand)
  two_text brt mnemonic ra rb address size operand =
      branch_text mnemonic (branch_target address size operand)
  two_text lc mnemonic ra rb address size operand = immediate_text mnemonic ra (signed operand)
  two_text lcu mnemonic ra rb address size operand = immediate_text mnemonic ra (decimal operand)
  two_text add_imm mnemonic ra rb address size operand = immediate_text mnemonic ra (signed operand)
  two_text _ mnemonic ra rb address size operand =
      immediate_text mnemonic ra (signed operand ++ (codes "(" ++ (register rb ++ codes ")")))

  unfoldable pub text_of : Entry → InstructionFormat → Bytes → ℕ → Text
  unfolding single_text two_text register hex_upper
  text_of (opcode, ra, rb) single_byte bytes address =
      single_text (isa.variant opcode) (isa.mnemonic opcode) ra rb
  text_of (opcode, ra, rb) two_bytes bytes address =
      two_text (isa.variant opcode) (isa.mnemonic opcode) ra rb address
        (isa.size (isa.format opcode)) (get_or bytes 1 0)
  text_of (opcode, ra, rb) four_bytes bytes address =
      let target = get_or bytes 1 0 + get_or bytes 2 0 * 256 + get_or bytes 3 0 * 65536 in
      immediate_text (isa.mnemonic opcode) ra (codes "0x" ++ hex_upper 6 target)

  -- `decode`, from the entry of the first byte.
  unfoldable pub decode_entry : Option Entry → Bytes → ℕ → Option Decoded
  unfolding text_of
  decode_entry none bytes address = none
  decode_entry (some (opcode, ra, rb)) bytes address =
      let size = isa.size (isa.format opcode) in
      if ltb (length bytes) size
      then none
      else some (record {
        text = text_of (opcode, ra, rb) (isa.format opcode) bytes address;
        size = size;
      })

  unfoldable pub decode : Bytes → ℕ → Option Decoded
  unfolding table decode_entry
  decode [] address = none
  decode (first ∷ rest) address = decode_entry (table first) (first ∷ rest) address
