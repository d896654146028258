-- ===== src/Frontend/Keys/Bounds.antt =====
-- The serial queue keeps its bound, whatever is typed.
use sw_tos.Base.{
  ℕ, [], ◌∷◌, Option, none, some, true, false, ◌==◌, ◌++◌, ◌&&◌, arith, Text, inl, inr, Bool-cases,
  codes,
}
use sw_tos.Frontend.Keys.{
  SessionFile, Pressed, remaining, reconnected, escape_to, escape_key, settle_command, reconnect_in,
  opened, assigned, with_file, with_desktop, load_session, save_session, requested_reset, copied,
  helped, closes_help, in_focus, prefix_key, focused_key, handle_key,
}
use sw_tos.Frontend.Requests.{
  scheduler_heartbeat, expect_encoded, system_reboot_request, multiplexed_input_frame,
  shell_restart_request,
}
use sw_tos.Frontend.Sending.{send}
use sw_tos.Frontend.Session.{Session}
use sw_tos.Format.{decimal}
use sw_tos.Protocol.Connection.{resynchronize}
use sw_tos.Protocol.Negotiator.{Mode, hello}
use sw_tos.Ui.Desktop.Command.{CommandOutcome}
use sw_tos.Ui.Desktop.{Desktop, assign_focused, focused_channel, focused_kind}
use sw_tos.Ui.Pane.{PaneKind}
use sw_tos.Frontend.Sending.Bounds.{Fits, AllFit, send-Fits, send_encoded-AllFit}
use sw_tos.Frontend.Keys.Typing.Bounds.{debug_key-AllFit, type_key-AllFit}

abbrev pub PressFits : Pressed → Type 0
PressFits none = Unit
PressFits (some (s, leaves)) = Fits s

focused_key-AllFit :
    (read_source : Text → Option Text) (byte : ℕ) (s : Session) (kind : PaneKind)
    → Fits s
    → AllFit (focused_key read_source byte s kind)
unfolding focused_key
focused_key-AllFit read_source byte s kind h = ground (
  arith,
  debug_key-AllFit read_source byte s h,
  type_key-AllFit byte kind s h,
  send-Fits (byte ∷ []) s h,
)

escape_to-AllFit :
    (channel : Option ℕ) (kind : Option PaneKind) (s : Session)
    → Fits s
    → AllFit (escape_to channel kind s)
unfolding escape_to
escape_to-AllFit none kind s h = tt
escape_to-AllFit (some channel) none s h = tt
escape_to-AllFit (some channel) (some kind) s h =
    ground (arith, send_encoded-AllFit (multiplexed_input_frame channel (0x1b ∷ [])) s h)

reconnect_in-AllFit :
    (mode : Mode) (now : ℕ) (s : Session) → Fits s → AllFit (reconnect_in mode now s)
unfolding reconnect_in reconnected
reconnect_in-AllFit Mode.framed now s h = h
reconnect_in-AllFit Mode.plain now s h =
    let again = record s { connection = resynchronize s.connection } in
    let once = send (scheduler_heartbeat 0) again in
    let twice = send (scheduler_heartbeat 0) once in
    send_encoded-AllFit (expect_encoded hello) (reconnected now twice)
      (send-Fits (scheduler_heartbeat 0) once (send-Fits (scheduler_heartbeat 0) again h))

remaining-PressFits : (o : Option Session) → AllFit o → PressFits (remaining o)
remaining-PressFits none h = tt
remaining-PressFits (some s) h = h

assigned-AllFit : (o : Option ℕ) (s : Session) → Fits s → AllFit (assigned o s)
unfolding assigned
assigned-AllFit none s h = h
assigned-AllFit (some channel) s h =
    given (assign_focused channel (codes "TTY " ++ decimal channel) s.desktop)
  where
    given : (o : Option Desktop) → AllFit (with_desktop s o)
    given none = tt
    given (some d) = h

opened-Fits : (o : Option ℕ) (s : Session) → Fits s → Fits (opened o s)
unfolding opened
opened-Fits none s h = h
opened-Fits (some channel) s h = h

loaded-Fits :
    (apply : SessionFile → Desktop → Desktop) (file : Option SessionFile) (s : Session)
    → Fits s
    → Fits (with_file apply file s)
loaded-Fits apply none s h = h
loaded-Fits apply (some file) s h = h

settle_command-PressFits :
    (file : Option SessionFile) (s : Session) (o : Option (Desktop × CommandOutcome))
    → Fits s
    → PressFits (settle_command file s o)
unfolding settle_command
settle_command-PressFits file s none h = tt
settle_command-PressFits file s (some (d, CommandOutcome.detach)) h = h
settle_command-PressFits file s (some (d, CommandOutcome.save)) h =
    loaded-Fits save_session file (record s { desktop = d }) h
settle_command-PressFits file s (some (d, CommandOutcome.go_on)) h = h

prefix_key-PressFits :
    (file : Option SessionFile) (now byte : ℕ) (s : Session)
    → Fits s
    → PressFits (prefix_key file now byte s)
unfolding prefix_key requested_reset escape_key
prefix_key-PressFits file now byte s h = elim (Bool-cases (byte == b's')) [
  | inl e ↦ rw e (opened-Fits _ s h)
  | inr n1 ↦ elim (Bool-cases (byte == b'a')) [
    | inl e ↦ rw (n1, e) (remaining-PressFits (assigned _ s) (assigned-AllFit _ s h))
    | inr n2 ↦ elim (Bool-cases (byte == b'R')) [
      | inl e ↦ rw (n1, n2, e) (loaded-Fits load_session file s h)
      | inr n3 ↦ elim (Bool-cases (byte == b'r')) [
        | inl e ↦
            rw (n1, n2, n3, e)
              (remaining-PressFits _ (reconnect_in-AllFit s.connection.mode now s h))
        | inr n4 ↦ elim (Bool-cases (byte == b'k')) [
          | inl e ↦ rw (n1, n2, n3, n4, e) (send-Fits (shell_restart_request s.connection.mode) s h)
          | inr n5 ↦ elim (Bool-cases (byte == b'B')) [
            | inl e ↦
                rw (n1, n2, n3, n4, n5, e) (send-Fits (system_reboot_request s.connection.mode) s h)
            | inr n6 ↦ elim (Bool-cases (byte == b'e')) [
              | inl e ↦
                  rw (n1, n2, n3, n4, n5, n6, e)
                    (remaining-PressFits _
                      (escape_to-AllFit (focused_channel s.desktop) (focused_kind s.desktop) s h))
              | inr n7 ↦ rw (n1, n2, n3, n4, n5, n6, n7) (settle_command-PressFits file s _ h)
            ]
          ]
        ]
      ]
    ]
  ]
]

helped-AllFit : (s : Session) (o : Option (Desktop × CommandOutcome)) → Fits s → AllFit (helped s o)
helped-AllFit s none h = tt
helped-AllFit s (some (d, outcome)) h = h

copied-AllFit : (s : Session) (o : Option (Desktop × ℕ)) → Fits s → AllFit (copied s o)
copied-AllFit s none h = tt
copied-AllFit s (some (d, state)) h = h

in_focus-PressFits :
    (read_source : Text → Option Text) (byte : ℕ) (s : Session) (o : Option PaneKind)
    → Fits s
    → PressFits (in_focus read_source byte s o)
unfolding in_focus
in_focus-PressFits read_source byte s none h = tt
in_focus-PressFits read_source byte s (some kind) h =
    remaining-PressFits _ (focused_key-AllFit read_source byte s kind h)

-- If the serial queue holds at most 64 KiB, then it does after any key: no key, request or reset
-- puts more into it.
pub handle_key-PressFits :
    (read_source : Text → Option Text) (file : Option SessionFile) (prefix now byte : ℕ)
    (s : Session)
    → Fits s
    → PressFits (handle_key read_source file prefix now byte s)
unfolding handle_key
handle_key-PressFits read_source file prefix now byte s h = elim (Bool-cases s.prefix_pending) [
  | inl e ↦
      rw (e, handle_key)
        (prefix_key-PressFits file now byte (record s { prefix_pending = false }) h)
  | inr n1 ↦ elim (Bool-cases (byte == prefix)) [
    | inl e ↦ rw (n1, e, handle_key) h
    | inr n2 ↦ elim (Bool-cases (byte == 0x03)) [
      | inl e ↦ rw (n1, n2, e, handle_key) h
      | inr n3 ↦ elim (Bool-cases (s.desktop.help && closes_help byte)) [
        | inl e ↦
            rw (n1, n2, n3, e, handle_key)
              (remaining-PressFits _ (helped-AllFit (record s { prefix_pending = false }) _ h))
        | inr n4 ↦ elim (Bool-cases s.desktop.copy_mode) [
          | inl e ↦
              rw (n1, n2, n3, n4, e, handle_key)
                (remaining-PressFits _ (
                  copied-AllFit
                    (record s {
                      prefix_pending = false;
                      desktop = record s.desktop { copy_mode = true };
                    })
                    _ h))
          | inr n5 ↦
              rw (n1, n2, n3, n4, n5, handle_key)
                (in_focus-PressFits read_source byte
                  (record s {
                    prefix_pending = false;
                    desktop = record s.desktop { copy_mode = false };
                  })
                  (focused_kind s.desktop) h)
        ]
      ]
    ]
  ]
]
