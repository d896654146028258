-- ===== src/Ui/Desktop/Panes.antt =====
-- What the operations leave alone: the pane that has the focus, and a program's right to be
-- missing from one snapshot.
use sw_tos.Base.{
  ℕ, zero, suc, ◌+◌, ◌≤◌, min, List, [], ◌∷◌, true, false, Bool, ◌≡◌, refl, ap, ◌∙◌, arith, length,
  get_elem?, insert_at, leb, ◌&&◌, if◌then◌else◌, All,
}
use sw_tos.Ui.Desktop.Channels.{contains, mark_live}
use sw_tos.Ui.Desktop.Closing.{restore_pane, restore_system_panes}
use sw_tos.Ui.Desktop.{Desktop, focused}
use sw_tos.Ui.Pane.{
  Pane, PaneKind, shell, application, debugger, kind_eq, new_pane, default_channel, kind_title,
  default_scrollback,
}

-- An item is found where the insertion has moved it.
get_elem?-insert_at {ℓ} :
    {A : Type ℓ} (at : ℕ) (v : A) (xs : List A) (i : ℕ)
    → at ≤ length xs
    → get_elem? (insert_at at v xs) (if leb at i then i + 1 else i) ≡ get_elem? xs i
get_elem?-insert_at zero v xs i h = ground arith
get_elem?-insert_at (suc at) v [] i h = absurd (omega arith)
get_elem?-insert_at (suc at) v (x ∷ xs) zero h = ground arith
get_elem?-insert_at (suc at) v (x ∷ xs) (suc i) h =
    ground (arith, get_elem?-insert_at at v xs i (omega arith))

restore_pane-focused :
    (place : ℕ) (kind : PaneKind) (d : Desktop) (n : ℕ)
    → focused (restore_pane place kind (d, n)).0 ≡ focused d
unfolding restore_pane
restore_pane-focused place kind d n = ground (
  arith,
  get_elem?-insert_at (min place (length d.panes))
      (new_pane kind (default_channel kind) (kind_title kind) default_scrollback) d.panes d.focus
      (omega arith),
)

-- Whichever of the system's panes come back, the focus stays on the pane that had it.
pub restore_system_panes-focused : (d : Desktop) → focused (restore_system_panes d).0 ≡ focused d
unfolding restore_system_panes
restore_system_panes-focused d =
    let first = restore_pane 0 shell (d, 0) in
    let second = restore_pane 1 application first in
    restore_pane-focused 2 debugger second.0 second.1
    ∙ restore_pane-focused 1 application first.0 first.1
    ∙ restore_pane-focused 0 shell d 0

-- The snapshots that come one after another.
abbrev pub mark_all : List (List ℕ) → Pane → Pane
mark_all [] pane = pane
mark_all (live ∷ lives) pane = mark_all lives (mark_live live pane)

-- The test of a running endpoint.
abbrev pub runs : Pane → List ℕ → Bool
runs pane live = leb (pane.channel + 1) 255 && contains live (pane.channel + 1)

-- A snapshot without the program counts, up to 255.
abbrev missed : Pane → Pane
missed pane = record pane {
  absent = min (pane.absent + 1) 255;
  ended = leb 2 (min (pane.absent + 1) 255);
}

mark_live-missed :
    (live : List ℕ) (pane : Pane)
    → kind_eq pane.kind application ≡ true
    → pane.ran ≡ true
    → runs pane live ≡ false
    → mark_live live pane ≡ missed pane
unfolding mark_live
mark_live-missed live pane k r h = rw (k, h, r)

mark_all_absent :
    (lives : List (List ℕ)) (pane : Pane)
    → kind_eq pane.kind application ≡ true
    → pane.ran ≡ true
    → pane.ended ≡ leb 2 pane.absent
    → All (λ live. runs pane live ≡ false) lives
    → (mark_all lives pane).ended ≡ leb 2 (pane.absent + length lives)
mark_all_absent [] pane k r e h = ground arith
mark_all_absent (live ∷ lives) pane k r e h =
    ap (λ (p : Pane). (mark_all lives p).ended) (mark_live-missed live pane k r h.0)
    ∙ (mark_all_absent lives (missed pane) k r refl h.1 ∙ ground arith)

-- An application pane that has run and has missed no snapshot yet is marked as ended when two
-- snapshots or more without its program have come, and not before.
pub mark_all-ended :
    (lives : List (List ℕ)) (pane : Pane)
    → kind_eq pane.kind application ≡ true
    → pane.ran ≡ true
    → pane.ended ≡ false
    → pane.absent ≡ 0
    → All (λ live. runs pane live ≡ false) lives
    → (mark_all lives pane).ended ≡ leb 2 (length lives)
mark_all-ended lives pane k r e a h =
    mark_all_absent lives pane k r (e ∙ rw a) h ∙ ground (arith, a)
