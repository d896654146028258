-- ===== src/Frontend/Keys/Typing/Bounds.antt =====
-- Typing keeps the bound of the serial queue.
use sw_tos.Base.{
  ℕ, List, [], ◌∷◌, Option, none, some, arith, Bytes, Text, inl, inr, Bool-cases, codes,
}
use sw_tos.Frontend.Keys.Typing.{
  shell_escape, is_shell_restart_request, shell_line, requested, answer, debug_line, enter_key,
  debug_key, shell_key, type_key, type_to,
}
use sw_tos.Frontend.Requests.{debug_request_frame, shell_restart_request}
use sw_tos.Frontend.Session.{Session}
use sw_tos.Debugger.Console.{DebugConsole, CommandResult}
use sw_tos.Format.{strip_prefix, trim}
use sw_tos.Ui.Desktop.Channels.{push_channel}
use sw_tos.Ui.Pane.{PaneKind, shell, kind_eq}
use sw_tos.Frontend.Sending.Bounds.{Fits, AllFit, send-Fits, send_encoded-AllFit, send_each-AllFit}

pub shell_line-Fits : (text : Text) (s : Session) → Fits s → Fits (shell_line text s)
unfolding shell_line
shell_line-Fits [] s h = h
shell_line-Fits (c ∷ cs) s h = elim (Bool-cases (is_shell_restart_request (c ∷ cs))) [
  | inl e ↦ rw e (send-Fits (shell_restart_request s.connection.mode) s h)
  | inr e ↦ rw e h
]

pub requested-AllFit :
    (request : Option Bytes) (s : Session) → Fits s → AllFit (requested request s)
unfolding requested
requested-AllFit none s h = h
requested-AllFit (some bytes) s h =
    ground (arith, send_encoded-AllFit (debug_request_frame bytes) s h)

pub answer-AllFit :
    (s : Session) (o : Option (DebugConsole × CommandResult)) → Fits s → AllFit (answer s o)
unfolding answer
answer-AllFit s none h = tt
answer-AllFit s (some (console, result)) h = requested-AllFit result.request _ h

pub enter_key-AllFit :
    (read_source : Text → Option Text) (s : Session) → Fits s → AllFit (enter_key read_source s)
unfolding enter_key debug_line
enter_key-AllFit read_source s h =
    elim (strip_prefix s.debug_input (codes "!"))
      as (λ o.
        AllFit
          (elim o [ some typed ↦ some (shell_escape typed s) | none ↦ debug_line read_source s ])) [
            | some typed ↦ shell_line-Fits (trim typed) s h
            | none ↦ answer-AllFit s _ h
          ]

pub debug_key-AllFit :
    (read_source : Text → Option Text) (byte : ℕ) (s : Session)
    → Fits s
    → AllFit (debug_key read_source byte s)
unfolding debug_key
debug_key-AllFit read_source byte s h = ground (
  arith,
  enter_key-AllFit read_source (record s { desktop = push_channel 254 (codes "\n") s.desktop }) h,
)

pub shell_key-Fits : (byte : ℕ) (s : Session) → Fits s → Fits (shell_key byte s)
unfolding shell_key
shell_key-Fits byte s h = ground arith

pub type_to-AllFit :
    (outgoing : ℕ) (s : Session) (o : Option (List ℕ)) → Fits s → AllFit (type_to outgoing s o)
unfolding type_to
type_to-AllFit outgoing s none h = tt
type_to-AllFit outgoing s (some channels) h = send_each-AllFit (outgoing ∷ []) channels _ h

pub type_key-AllFit :
    (byte : ℕ) (kind : PaneKind) (s : Session) → Fits s → AllFit (type_key byte kind s)
unfolding type_key
type_key-AllFit byte kind s h = elim (Bool-cases (kind_eq kind shell)) [
  | inl e ↦ rw (e, type_key) (type_to-AllFit _ (shell_key byte s) _ (shell_key-Fits byte s h))
  | inr e ↦ rw (e, type_key) (type_to-AllFit _ s _ h)
]
