-- ===== src/Tests/Desktops.antt =====
-- Runs of the desktop of tools/te-rs/src/ui.rs.
use sw_tos.Base.{inl, inr, [], ◌∷◌, true, false, leb, All, ◌≡◌, refl, arith, Bytes, codes}
use sw_tos.Ui.Pane.Bounds.{IsBounded, push-IsBounded}
use sw_tos.Ui.Pane.{Pane, debugger, application, shell, new_pane, push, byte_length}
use sw_tos.Ui.Desktop.Panes.{mark_all, runs, restore_system_panes-focused, mark_all-ended}
use sw_tos.Ui.Desktop.Closing.{restore_system_panes}
use sw_tos.Ui.Desktop.Channels.{contains}
use sw_tos.Ui.Desktop.{Desktop, new_desktop, focused}
use sw_tos.Ui.Desktop.Command.{command}
use sw_tos.Ui.Desktop.Focus.{CommandKeeps, command-Keeps}

abbrev small_pane : Pane
small_pane = new_pane shell 0 (codes "Shell") 2

small_pane-IsBounded : IsBounded small_pane
small_pane-IsBounded = record {
  few_lines = omega arith;
  short_lines = tt;
  short_current = unfold byte_length in omega arith;
}

abbrev input : Bytes
input = b'a' ∷ 10 ∷ b'b' ∷ 10 ∷ b'c' ∷ 10 ∷ b'd' ∷ []

push-IsBounded_example : IsBounded (push small_pane input)
push-IsBounded_example = push-IsBounded small_pane input small_pane-IsBounded

abbrev two_lines : Pane
two_lines = record small_pane { lines = codes "one" ∷ codes "two" ∷ []; current = codes "three" }

-- Two panes, one of which has ended.
abbrev half_ended : Desktop
half_ended = record (new_desktop 100) {
  panes =
      record (new_pane application 1 (codes "ls") 100) { ended = true }
      ∷ new_pane debugger 254 (codes "Debugger") 100
      ∷ [];
  focus = 1;
}

command-Keeps_example : CommandKeeps (command b'c' half_ended)
command-Keeps_example =
    command-Keeps b'c' half_ended (omega arith)
      (inr (inl (1, new_pane debugger 254 (codes "Debugger") 100, refl, refl)))

-- The shell's pane was closed with the focus on the debugger's, which is then the second.
abbrev without_shell : Desktop
without_shell = record (new_desktop 100) {
  panes =
      new_pane application 1 (codes "ls") 100 ∷ new_pane debugger 254 (codes "Debugger") 100 ∷ [];
  focus = 1;
}

restore_system_panes-focused_example :
    focused (restore_system_panes without_shell).0 ≡ focused without_shell
restore_system_panes-focused_example = restore_system_panes-focused without_shell

abbrev ran_pane : Pane
ran_pane = record (new_pane application 1 (codes "ls") 100) { ran = true }

mark_all-ended_example : (mark_all ((1 ∷ []) ∷ [] ∷ []) ran_pane).ended ≡ leb 2 2
mark_all-ended_example = mark_all-ended ((1 ∷ []) ∷ [] ∷ []) ran_pane refl refl refl refl missing
  where
    missing : All (λ live. runs ran_pane live ≡ false) ((1 ∷ []) ∷ [] ∷ [])
    missing = unfold contains in (refl, (refl, tt))
