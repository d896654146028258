-- ===== src/Resource.antt =====
-- The resource snapshots of tools/te-rs/src/resource.rs: records arrive one to a frame, and a
-- snapshot is published when the END of its generation comes.
-- A `u8`, `u16` or `u32` is a number; an `Instant` is a reading of the clock.
pub mod Table
pub mod Publish
use sw_tos.Base.{
  ℕ, ◌+◌, ◌-◌, ◌*◌, List, [], ◌∷◌, Option, none, some, Bool, true, false, ◌&&◌, ◌||◌, ltb, ◌==◌,
  if◌then◌else◌, Bytes, Text, codes, length, get_or, take, drop, starts_with, from_utf8_lossy,
}

pub record MemorySnapshot : Type 0 where
  pub current : ℕ
  pub peak : ℕ
  pub kernel_stack_peak : ℕ
  pub allocation_failures : ℕ
  pub used_slots : ℕ
  pub total_slots : ℕ
  pub heap_current : ℕ
  pub heap_peak : ℕ

pub record ProcessSnapshot : Type 0 where
  pub endpoint : ℕ
  pub state : ℕ
  pub blocked : ℕ
  pub stack_words : ℕ
  pub state_words : ℕ
  pub dispatches : ℕ
  pub yields : ℕ
  pub forced_preemptions : ℕ
  pub cpu_progress : ℕ
  pub ipc : ℕ
  pub tty_in : ℕ
  pub tty_out : ℕ
  pub name : Text

-- The `BTreeMap` by endpoint: its entries in the order of their keys.
abbrev pub Processes : Type 0
Processes = List (ℕ × ProcessSnapshot)

pub record ResourceSnapshot : Type 0 where
  pub generation : ℕ
  pub memory : MemorySnapshot
  pub processes : Processes
  pub protocol_errors : ℕ
  pub uart_rx : ℕ
  pub uart_tx : ℕ

pub record SnapshotAssembler : Type 0 where
  pub pending : Option ResourceSnapshot
  pub current : Option ResourceSnapshot
  pub updated : Option ℕ

-- The `Default`s.
abbrev pub no_memory : MemorySnapshot
no_memory = record {
  current = 0;
  peak = 0;
  kernel_stack_peak = 0;
  allocation_failures = 0;
  used_slots = 0;
  total_slots = 0;
  heap_current = 0;
  heap_peak = 0;
}

abbrev pub no_process : ProcessSnapshot
no_process = record {
  endpoint = 0;
  state = 0;
  blocked = 0;
  stack_words = 0;
  state_words = 0;
  dispatches = 0;
  yields = 0;
  forced_preemptions = 0;
  cpu_progress = 0;
  ipc = 0;
  tty_in = 0;
  tty_out = 0;
  name = [];
}

abbrev pub empty_snapshot : ℕ → ResourceSnapshot
empty_snapshot generation = record {
  generation = generation;
  memory = no_memory;
  processes = [];
  protocol_errors = 0;
  uart_rx = 0;
  uart_tx = 0;
}

abbrev pub initial : SnapshotAssembler
initial = record { pending = none; current = none; updated = none }

-- `u24`, of a slice of three bytes or more.
unfoldable pub u24 : Bytes → ℕ
u24 bytes = get_or bytes 0 0 + get_or bytes 1 0 * 256 + get_or bytes 2 0 * 65536

-- `&bytes[from..to]`.
abbrev pub slice : ℕ → ℕ → Bytes → Bytes
slice from to bytes = take (to - from) (drop from bytes)

-- `u16::from_le_bytes([bytes[at], bytes[at + 1]])`.
abbrev u16_at : ℕ → Bytes → ℕ
u16_at at bytes = get_or bytes at 0 + get_or bytes (at + 1) 0 * 256

-- `processes.entry(endpoint).or_default()`, followed by the writes through the reference.
unfoldable pub update_entry : ℕ → (ProcessSnapshot → ProcessSnapshot) → Processes → Processes
update_entry endpoint write [] = (endpoint, write no_process) ∷ []
update_entry endpoint write ((key, process) ∷ rest) =
    if ltb endpoint key
    then (endpoint, write no_process) ∷ (key, process) ∷ rest
    else if endpoint == key
    then (key, write process) ∷ rest
    else (key, process) ∷ update_entry endpoint write rest

-- The bytes of a name up to its NUL.
pub until_nul : Bytes → Bytes
until_nul [] = []
until_nul (b ∷ bs) = if b == 0 then [] else b ∷ until_nul bs

pub memory_record : Bytes → MemorySnapshot
unfolding u24
memory_record body = record {
  current = u24 (slice 0 3 body);
  peak = u24 (slice 3 6 body);
  kernel_stack_peak = u24 (slice 6 9 body);
  allocation_failures = u24 (slice 9 12 body);
  used_slots = get_or body 12 0;
  total_slots = get_or body 13 0;
  heap_current = if length body == 20 then u24 (slice 14 17 body) else 0;
  heap_peak = if length body == 20 then u24 (slice 17 20 body) else 0;
}

pub process_record : Bytes → ProcessSnapshot → ProcessSnapshot
unfolding u24
process_record body p = record p {
  endpoint = get_or body 0 0;
  state = get_or body 1 0;
  blocked = get_or body 2 0;
  stack_words = u16_at 3 body;
  state_words = u16_at 5 body;
  dispatches = u24 (slice 7 10 body);
  yields = u24 (slice 10 13 body);
}

pub process_io_record : Bytes → ProcessSnapshot → ProcessSnapshot
unfolding u24 until_nul from_utf8_lossy
process_io_record body p = record p {
  endpoint = get_or body 0 0;
  ipc = u24 (slice 1 4 body);
  tty_in = u24 (slice 4 7 body);
  tty_out = u24 (slice 7 10 body);
  name = from_utf8_lossy (until_nul (drop 10 body));
}

pub preemption_record : Bytes → ProcessSnapshot → ProcessSnapshot
unfolding u24
preemption_record body p = record p {
  endpoint = get_or body 0 0;
  forced_preemptions = u24 (slice 1 4 body);
  cpu_progress = u24 (slice 4 7 body);
}

abbrev with_process :
    (Bytes → ProcessSnapshot → ProcessSnapshot) → Bytes → ResourceSnapshot → ResourceSnapshot
with_process write body s = record s {
  processes = update_entry (get_or body 0 0) (write body) s.processes;
}

-- The arms of the match on the record's kind that change the pending snapshot, END aside.
pub apply_record : ℕ → Bytes → ResourceSnapshot → ResourceSnapshot
unfolding memory_record process_record process_io_record preemption_record update_entry
apply_record kind body s =
    if kind == 2 && (length body == 14 || length body == 20)
    then record s { memory = memory_record body }
    else if kind == 3 && length body == 13
    then with_process process_record body s
    else if kind == 4 && (length body == 14 || length body == 18)
    then with_process process_io_record body s
    else if kind == 6 && length body == 7
    then with_process preemption_record body s
    else s

-- The snapshot that END publishes.
unfoldable pub end_record : Bytes → ResourceSnapshot → ResourceSnapshot
unfolding u24
end_record body s = record s {
  protocol_errors = u24 (slice 0 3 body);
  uart_rx = u24 (slice 3 6 body);
  uart_tx = u24 (slice 6 9 body);
}

-- `self.pending.as_mut().filter(…)` and the match below it.
unfoldable pub push_body :
    Option ResourceSnapshot → ℕ → ℕ → Bytes → ℕ → SnapshotAssembler → SnapshotAssembler × Bool
unfolding apply_record end_record
push_body none kind generation body now a = (a, false)
push_body (some s) kind generation body now a =
    if s.generation == generation
    then (if kind == 5 && length body == 9
        then (
          record { pending = none; current = some (end_record body s); updated = some now },
          true,
        )
        else (record a { pending = some (apply_record kind body s) }, false))
    else (a, false)

-- `SnapshotAssembler::push`.
unfoldable pub push : SnapshotAssembler → Bytes → ℕ → SnapshotAssembler × Bool
unfolding push_body
push a [] now = (a, false)
push a (kind ∷ []) now = (a, false)
push a (kind ∷ generation ∷ body) now =
    if kind == 1
    then (record a { pending = some (empty_snapshot generation) }, false)
    else push_body a.pending kind generation body now a

-- `SnapshotAssembler::disconnect`.
abbrev pub disconnect : SnapshotAssembler → SnapshotAssembler
disconnect a = initial

-- `has_process_named`.
any_named : Text → Processes → Bool
any_named prefix [] = false
any_named prefix ((key, process) ∷ rest) = starts_with process.name prefix || any_named prefix rest

unfoldable pub has_process_named : SnapshotAssembler → Text → Bool
unfolding any_named starts_with
has_process_named a prefix = elim a.current [
  | none ↦ false
  | some snapshot ↦ any_named prefix snapshot.processes
]
