-- ===== src/Tests/Debuggers.antt =====
-- Runs of the debug map of tools/te-rs/src/debug.rs.
use sw_tos.Base.{ℕ, [], ◌∷◌, none, ◌≡◌, refl, arith}
use sw_tos.Debugger.Lookup.{InOrder, covers, source_at-find}
use sw_tos.Debugger.{Instruction, DebugMap, find, find_last, source_at}

abbrev at_address : ℕ → ℕ → Instruction
at_address address size = record {
  address = address;
  size = size;
  bytes = [];
  text = [];
  source = [];
  line = 1;
}

abbrev small_map : DebugMap
small_map = record {
  build_id = [];
  symbols = [];
  functions = [];
  instructions = at_address 0 2 ∷ at_address 2 4 ∷ at_address 8 1 ∷ [];
}

small_map-InOrder : InOrder 0 small_map.instructions
small_map-InOrder = omega arith

source_at-find_example : source_at small_map 5 ≡ find (covers 5) small_map.instructions
source_at-find_example = source_at-find small_map 5 small_map-InOrder

gap_has_no_source : source_at small_map 7 ≡ none
unfolding source_at find_last
gap_has_no_source = refl
