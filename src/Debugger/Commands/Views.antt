-- ===== src/Debugger/Commands/Views.antt =====
-- `map_command`: what the board has, what is planned, and what is there now.
use sw_tos.Base.{
  ℕ, ◌+◌, ◌-◌, List, [], ◌∷◌, ◌++◌, map, concat, Option, none, some, ◌||◌, ltb, if◌then◌else◌, Text,
  codes, bytes_eq, Result, ok, err,
}
use sw_tos.Debugger.Console.{DebugConsole, CommandResult}
use sw_tos.Debugger.{mapped_extent}
use sw_tos.Format.{decimal, hex, pad_right}
use sw_tos.Resource.{ResourceSnapshot, ProcessSnapshot}

abbrev hardware : List (Text × Text)
hardware =
    (codes "000000-0FFFFF", codes "1 MB SRAM (ISSI IS61WV10248EDBLL)")
    ∷ (codes "100000-FDFFFF", codes "unmapped; addressable, reads zero")
    ∷ (codes "FEE000-FEFFFF", codes "EBR window, 8 KB addressable")
    ∷ (codes "FEE000-FEEBFF", codes "EBR populated, 3 KB on the MachXO")
    ∷ (codes "FF0000-FFFFFF", codes "I/O space: LEDs, UART, SPI, I2C")
    ∷ []

abbrev planned : List (Text × Text)
planned =
    (codes "000000-......", codes "kernel text, resident programs, catalog, data")
    ∷ (codes "......-0EFFFF", codes "heap: loaded image text, shadow, private state")
    ∷ (codes "0F0000-0FFFFF", codes "process stacks, 64 KB, allocated downward")
    ∷ (codes "FEEC00", codes "kernel stack top; grows down")
    ∷ (codes "FEEB01-FEEBFF", codes "kernel and boot stack reserve, 255 B")
    ∷ []

abbrev arena_top : ℕ
arena_top = 0x100000

abbrev arena_capacity : ℕ
arena_capacity = 0x10000

abbrev sram_end : ℕ
sram_end = 0xfffff

abbrev range_line : Text × Text → Text
range_line (range, use_) = concat (codes "  " ∷ pad_right 13 range ∷ codes " " ∷ use_ ∷ [])

-- The image and the heap behind it: `none` if a subtraction goes below zero.
abbrev heap_end : ℕ
heap_end = arena_top - arena_capacity - 1

abbrev heap_used : Option ResourceSnapshot → ℕ
heap_used none = 0
heap_used (some snapshot) = snapshot.memory.heap_current

unfoldable pub image_lines : Option ResourceSnapshot → ℕ → ℕ → Option (List Text)
unfolding hex decimal
image_lines resources low high =
    let capacity = heap_end - high in
    let used = heap_used resources in
    if ltb high low || ltb heap_end high
    then none
    else some (
        concat (
          codes "  "
          ∷ hex 6 low
          ∷ codes "-"
          ∷ hex 6 high
          ∷ codes " image, "
          ∷ decimal (high - low + 1)
          ∷ codes " B linked"
          ∷ [])
        ∷ concat (
            codes "  "
            ∷ hex 6 (high + 1)
            ∷ codes "-"
            ∷ hex 6 heap_end
            ∷ codes " heap "
            ∷ decimal used
            ∷ codes "/"
            ∷ decimal capacity
            ∷ codes " B, free "
            ∷ decimal (capacity - used)
            ∷ codes " B"
            ∷ [])
        ∷ [])

abbrev unknown_extent : List Text
unknown_extent = codes "  image extent unknown; no matching debug map" ∷ []

unfoldable pub extent_lines : DebugConsole → Option ResourceSnapshot → Option (List Text)
unfolding mapped_extent image_lines
extent_lines c resources = elim c.debug_map [
  | none ↦ some unknown_extent
  | some m ↦ elim (mapped_extent m) [
    | none ↦ none
    | some none ↦ some unknown_extent
    | some (some (low, high)) ↦ image_lines resources low high
  ]
]

abbrev process_line : ℕ × ProcessSnapshot → Text
process_line (key, process) = concat (
    codes "  ep="
    ∷ decimal process.endpoint
    ∷ codes " "
    ∷ pad_right 8 process.name
    ∷ codes " stack "
    ∷ decimal process.stack_words
    ∷ codes "w state "
    ∷ decimal process.state_words
    ∷ codes "w"
    ∷ [])

unfoldable pub snapshot_lines : Option ResourceSnapshot → List Text
unfolding hex decimal pad_right
snapshot_lines none = codes "  no resource snapshot yet" ∷ []
snapshot_lines (some snapshot) =
    let used = snapshot.memory.current in
    let free = arena_capacity - used in
    let stacks = concat (
      codes "  "
      ∷ hex 6 (arena_top - arena_capacity)
      ∷ codes "-"
      ∷ hex 6 sram_end
      ∷ codes " stacks "
      ∷ decimal used
      ∷ codes "/"
      ∷ decimal arena_capacity
      ∷ codes " B, free "
      ∷ decimal free
      ∷ codes " B"
      ∷ []) in
    let stale : List Text =
      if ltb arena_capacity used
      then codes "  arena use exceeds the configured capacity; constants stale" ∷ []
      else [] in
    let peaks = concat (
      codes "  stack peak "
      ∷ decimal snapshot.memory.peak
      ∷ codes " B, kernel stack peak "
      ∷ decimal snapshot.memory.kernel_stack_peak
      ∷ codes " B, failures "
      ∷ decimal snapshot.memory.allocation_failures
      ∷ []) in
    let slots = concat (
      codes "  slots "
      ∷ decimal snapshot.memory.used_slots
      ∷ codes "/"
      ∷ decimal snapshot.memory.total_slots
      ∷ codes " used"
      ∷ []) in
    stacks ∷ (stale ++ peaks ∷ slots ∷ map process_line snapshot.processes)

unfoldable pub live_lines : DebugConsole → Option ResourceSnapshot → Option (List Text)
unfolding extent_lines snapshot_lines
live_lines c resources = elim (extent_lines c resources) [
  | none ↦ none
  | some lines ↦ some (codes "actual" ∷ (lines ++ snapshot_lines resources))
]

abbrev listed : List Text → Option (Result CommandResult Text)
listed lines = some (ok (record { lines = lines; request = none }))

unfoldable pub map_command :
    DebugConsole → Option ResourceSnapshot → Text → Option (Result CommandResult Text)
unfolding live_lines pad_right bytes_eq
map_command c resources view =
    let board = codes "hardware" ∷ map range_line hardware in
    let plan = codes "planned" ∷ map range_line planned in
    let live = live_lines c resources in
    if bytes_eq view (codes "all")
    then elim live [ none ↦ none | some lines ↦ listed (board ++ (plan ++ lines)) ]
    else if bytes_eq view (codes "hw")
    then listed board
    else if bytes_eq view (codes "plan")
    then listed plan
    else if bytes_eq view (codes "live")
    then elim live [ none ↦ none | some lines ↦ listed lines ]
    else some
        (err (concat (codes "unknown map view '" ∷ view ∷ codes "'; use hw, plan, or live" ∷ [])))
