-- ===== src/Tests/Resources.antt =====
-- Runs of the snapshot assembler of tools/te-rs/src/resource.rs.
use sw_tos.Base.{[], ◌∷◌, some, none, true, false, ◌≡◌, refl, arith, Bytes}
use sw_tos.Resource.Publish.{Effect, AllAgree, push_all, push-Effect, push_all-begin}
use sw_tos.Resource.Table.{IsValid, TableFrom, push-IsValid}
use sw_tos.Resource.{
  SnapshotAssembler, ProcessSnapshot, Processes, initial, no_process, empty_snapshot, push,
  push_body,
}

abbrev begin_7 : Bytes
begin_7 = 1 ∷ 7 ∷ []

abbrev end_7 : Bytes
end_7 = 5 ∷ 7 ∷ 1 ∷ 0 ∷ 0 ∷ 2 ∷ 0 ∷ 0 ∷ 3 ∷ 0 ∷ 0 ∷ []

abbrev begun : SnapshotAssembler
begun = record { pending = some (empty_snapshot 7); current = none; updated = none }

initial-IsValid : IsValid initial
initial-IsValid = record { pending_table = tt; current_table = tt }

begun-IsValid : IsValid begun
begun-IsValid = record { pending_table = tt; current_table = tt }

push-Effect_example : Effect begun end_7 30 (push begun end_7 30)
push-Effect_example = push-Effect begun end_7 30

push_all-begin_example :
    AllAgree
      (push_all initial ((begin_7, 10) ∷ (end_7, 20) ∷ []))
      (push_all begun ((begin_7, 10) ∷ (end_7, 20) ∷ []))
push_all-begin_example = push_all-begin 7 10 [] ((end_7, 20) ∷ []) initial begun

whole_generation : (push_all initial ((begin_7, 10) ∷ (end_7, 20) ∷ [])).1 ≡ false ∷ true ∷ []
unfolding push_all push push_body
whole_generation = refl

push-IsValid_example : IsValid (push begun end_7 30).0
push-IsValid_example = push-IsValid begun end_7 30 begun-IsValid

abbrev shell_process : ProcessSnapshot
shell_process = record no_process { endpoint = 3 }

abbrev one_process : Processes
one_process = (3, shell_process) ∷ []

abbrev woken : ProcessSnapshot → ProcessSnapshot
woken process = record process { endpoint = 5; dispatches = 1 }

one_process-table : TableFrom 0 one_process
one_process-table = (omega arith, refl, tt)
