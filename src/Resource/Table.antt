-- ===== src/Resource/Table.antt =====
-- The process table of a snapshot: its entries stand in the order of their keys, each under the
-- endpoint that it names.
use sw_tos.Base.{
  ℕ, suc, ◌≤◌, ◌<◌, [], ◌∷◌, Option, none, some, ◌≡◌, refl, arith, ◌==◌, if◌then◌else◌, Bytes,
  get_or,
}
use sw_tos.Resource.{
  ResourceSnapshot, ProcessSnapshot, Processes, no_process, update_entry, process_record,
  process_io_record, preemption_record, apply_record, SnapshotAssembler, push_body, push,
}

-- Keys from `low` on, each above the last, and each process under its own endpoint.
abbrev pub TableFrom : ℕ → Processes → Type 0
TableFrom low [] = Unit
TableFrom low ((key, process) ∷ rest) =
    (low ≤ key) × (process.endpoint ≡ key) × TableFrom (suc key) rest

abbrev pub IsTable : Processes → Type 0
IsTable = TableFrom 0

-- `processes.get(endpoint)`.
unfoldable pub process_at : ℕ → Processes → Option ProcessSnapshot
process_at endpoint [] = none
process_at endpoint ((key, process) ∷ rest) =
    if endpoint == key then some process else process_at endpoint rest

abbrev pub or_default : Option ProcessSnapshot → ProcessSnapshot
or_default none = no_process
or_default (some process) = process

pub update_entry-TableFrom :
    (low e : ℕ) (write : ProcessSnapshot → ProcessSnapshot) (t : Processes)
    → ((p : ProcessSnapshot) → (write p).endpoint ≡ e)
    → low ≤ e
    → TableFrom low t
    → TableFrom low (update_entry e write t)
unfolding update_entry
update_entry-TableFrom low e write [] names le h = (le, names no_process, tt)
update_entry-TableFrom low e write ((key, process) ∷ rest) names le h =
    ground
      (arith, names no_process, names process, update_entry-TableFrom (suc key) e write rest names)

process_at_below : (e low : ℕ) (t : Processes) → e < low → TableFrom low t → process_at e t ≡ none
unfolding process_at
process_at_below e low [] lt h = refl
process_at_below e low ((key, process) ∷ rest) lt h =
    ground (arith, process_at_below e (suc key) rest)

-- In a table in order, an update writes to its own entry, made from the default if there was none,
-- and to no other.
pub process_at-update_entry :
    (low e other : ℕ) (write : ProcessSnapshot → ProcessSnapshot) (t : Processes)
    → TableFrom low t
    → process_at other (update_entry e write t)
      ≡ (if other == e then some (write (or_default (process_at e t))) else process_at other t)
unfolding update_entry process_at
process_at-update_entry low e other write [] h = ground arith
process_at-update_entry low e other write ((key, process) ∷ rest) h =
    ground (
      arith,
      process_at-update_entry (suc key) e other write rest,
      process_at_below e (suc key) rest,
    )

abbrev pub HasTable : Option ResourceSnapshot → Type 0
HasTable none = Unit
HasTable (some s) = IsTable s.processes

pub record IsValid (a : SnapshotAssembler) : Type 0 where
  pub pending_table : HasTable a.pending
  pub current_table : HasTable a.current

apply_record-IsTable :
    (kind : ℕ) (body : Bytes) (s : ResourceSnapshot)
    → IsTable s.processes
    → IsTable (apply_record kind body s).processes
unfolding apply_record
apply_record-IsTable kind body s h = ground (
  arith,
  update_entry-TableFrom 0 (get_or body 0 0) (process_record body) s.processes (λ p. refl)
      (omega arith) h,
  update_entry-TableFrom 0 (get_or body 0 0) (process_io_record body) s.processes (λ p. refl)
      (omega arith) h,
  update_entry-TableFrom 0 (get_or body 0 0) (preemption_record body) s.processes (λ p. refl)
      (omega arith) h,
)

push_body-IsValid :
    (p : Option ResourceSnapshot) (kind generation : ℕ) (body : Bytes) (now : ℕ)
    (a : SnapshotAssembler)
    → HasTable p
    → IsValid a
    → IsValid (push_body p kind generation body now a).0
unfolding push_body
push_body-IsValid none kind generation body now a t v = v
push_body-IsValid (some s) kind generation body now a t v =
    ground (arith, apply_record-IsTable kind body s t)

-- If both snapshots have their processes in the order of their endpoints, each process under the
-- endpoint that it names, then every record that arrives, well formed or not, leaves them so.
pub push-IsValid :
    (a : SnapshotAssembler) (payload : Bytes) (now : ℕ) → IsValid a → IsValid (push a payload now).0
unfolding push
push-IsValid a [] now v = v
push-IsValid a (kind ∷ []) now v = v
push-IsValid a (kind ∷ generation ∷ body) now v =
    ground (arith, push_body-IsValid a.pending kind generation body now a v.pending_table v)
