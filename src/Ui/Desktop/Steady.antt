-- ===== src/Ui/Desktop/Steady.antt =====
-- Operations of the desktop that keep the focus and a pane that no application owns.
use sw_tos.Base.{
  ℕ, zero, suc, ◌+◌, ◌<◌, List, [], ◌∷◌, ◌++◌, map, some, Bool, true, not, ◌||◌, ◌≡◌, refl, ◌∙◌, ap,
  arith, length, get_elem?, set, Bytes, Text, inl, inr, Bool-cases, Option-cases,
}
use sw_tos.Ui.Desktop.Channels.{
  add_application, mark_live, mark_live_endpoints, name_channel, name_pane, push_channel, receive,
  set_channel_title,
}
use sw_tos.Ui.Desktop.Closing.{clear_channel, clear, cleared, release_channel, stays}
use sw_tos.Ui.Desktop.Focus.{IsFocused}
use sw_tos.Ui.Desktop.{Desktop, any_pane, update_first, retain, position, on_channel}
use sw_tos.Ui.Pane.{
  Pane, PaneKind, application, kind_eq, put_byte, break_line, finish_line, push, new_pane,
  default_scrollback,
}

abbrev pub is_system : Pane → Bool
is_system pane = not (kind_eq pane.kind application)

-- The focus names a pane, and some pane is not an application's.
pub record IsSteady (d : Desktop) : Type 0 where
  pub is_focused : IsFocused d
  pub has_system : any_pane is_system d.panes ≡ true

abbrev kinds : List Pane → List PaneKind
kinds panes = map (λ (pane : Pane). pane.kind) panes

-- Panes of the same kinds are as many, and as many of them are not an application's.
length-kinds : (ps qs : List Pane) → kinds ps ≡ kinds qs → length ps ≡ length qs
length-kinds [] [] e = refl
length-kinds [] (q ∷ qs) e = cc e
length-kinds (p ∷ ps) [] e = cc e
length-kinds (p ∷ ps) (q ∷ qs) e = ap suc (length-kinds ps qs (cc e))

any_pane-kinds :
    (ps qs : List Pane) → kinds ps ≡ kinds qs → any_pane is_system ps ≡ any_pane is_system qs
unfolding any_pane
any_pane-kinds [] [] e = refl
any_pane-kinds [] (q ∷ qs) e = cc e
any_pane-kinds (p ∷ ps) [] e = cc e
any_pane-kinds (p ∷ ps) (q ∷ qs) e =
    let here : p.kind ≡ q.kind = cc e in rw (here, any_pane-kinds ps qs (cc e)) refl

IsSteady-kinds :
    (panes : List Pane) (d : Desktop)
    → kinds panes ≡ kinds d.panes
    → IsSteady d
    → IsSteady (record d { panes = panes })
IsSteady-kinds panes d same h = record {
  is_focused = omega (arith, length-kinds panes d.panes same, h.is_focused);
  has_system = any_pane-kinds panes d.panes same ∙ h.has_system;
}

-- Writes that keep the kind of a pane.
kinds-set :
    (panes : List Pane) (i : ℕ) (old new : Pane)
    → get_elem? panes i ≡ some old
    → new.kind ≡ old.kind
    → kinds (set panes i new) ≡ kinds panes
kinds-set [] i old new e k = refl
kinds-set (p ∷ ps) zero old new e k = let same : p ≡ old = cc e in rw (k, same) refl
kinds-set (p ∷ ps) (suc i) old new e k = ap (λ ks. p.kind ∷ ks) (kinds-set ps i old new e k)

kinds-update_first :
    (test : Pane → Bool) (write : Pane → Pane) (panes : List Pane)
    → ((p : Pane) → (write p).kind ≡ p.kind)
    → kinds (update_first test write panes) ≡ kinds panes
unfolding update_first
kinds-update_first test write [] k = refl
kinds-update_first test write (p ∷ ps) k = elim (Bool-cases (test p)) [
  | inl e ↦ rw (e, k p) refl
  | inr e ↦ rw (e, kinds-update_first test write ps k) refl
]

kinds-map :
    (write : Pane → Pane) (panes : List Pane)
    → ((p : Pane) → (write p).kind ≡ p.kind)
    → kinds (map write panes) ≡ kinds panes
kinds-map write [] k = refl
kinds-map write (p ∷ ps) k = rw (k p, kinds-map write ps k) refl

put_byte-kind : (p : Pane) (b : ℕ) → (put_byte p b).kind ≡ p.kind
unfolding put_byte finish_line
put_byte-kind p b = ground arith

break_line-kind : (p : Pane) → (break_line p).kind ≡ p.kind
unfolding break_line finish_line
break_line-kind p = ground arith

push-kind : (bytes : Bytes) (p : Pane) → (push p bytes).kind ≡ p.kind
unfolding push
push-kind [] p = refl
push-kind (b ∷ bs) p =
    push-kind bs (break_line (put_byte p b)) ∙ break_line-kind (put_byte p b) ∙ put_byte-kind p b

-- The operations.
pub push_channel-IsSteady :
    (channel : ℕ) (bytes : Bytes) (d : Desktop)
    → IsSteady d
    → IsSteady (push_channel channel bytes d)
unfolding push_channel
push_channel-IsSteady channel bytes d h =
    elim (Option-cases (position (on_channel channel) d.panes)) [
      | inl gone ↦ rw (gone, push_channel) h
      | inr (index, at) ↦ elim (Option-cases (get_elem? d.panes index)) [
        | inl gone ↦ rw (at, gone, push_channel) h
        | inr (pane, there) ↦
            rw (at, there, push_channel)
              (IsSteady-kinds _ d
                (kinds-set d.panes index pane (receive d index bytes pane) there
                  (push-kind bytes pane))
                h)
      ]
    ]

pub set_channel_title-IsSteady :
    (channel : ℕ) (title : Text) (d : Desktop)
    → IsSteady d
    → IsSteady (set_channel_title channel title d)
unfolding set_channel_title
set_channel_title-IsSteady channel title d h =
    IsSteady-kinds _ d (kinds-update_first (on_channel channel) _ d.panes (λ p. refl)) h

pub clear_channel-IsSteady :
    (channel : ℕ) (d : Desktop) → IsSteady d → IsSteady (clear_channel channel d)
unfolding clear_channel
clear_channel-IsSteady channel d h = elim (Option-cases (position (on_channel channel) d.panes)) [
  | inl gone ↦ rw (gone, clear_channel) h
  | inr (index, at) ↦ elim (Option-cases (get_elem? d.panes index)) [
    | inl gone ↦ rw (at, gone, clear_channel, clear) h
    | inr (pane, there) ↦
        rw (at, there, clear_channel, clear)
          (IsSteady-kinds _ d (kinds-set d.panes index pane (cleared pane) there refl) h)
  ]
]

mark_live-kind : (live : List ℕ) (p : Pane) → (mark_live live p).kind ≡ p.kind
unfolding mark_live
mark_live-kind live p = ground arith

pub mark_live_endpoints-IsSteady :
    (live : List ℕ) (d : Desktop) → IsSteady d → IsSteady (mark_live_endpoints live d)
mark_live_endpoints-IsSteady live d h =
    IsSteady-kinds _ d (kinds-map (mark_live live) d.panes (mark_live-kind live)) h

name_pane-kind : (channel : ℕ) (title : Text) (p : Pane) → (name_pane channel title p).kind ≡ p.kind
unfolding name_pane
name_pane-kind channel title p = ground arith

pub name_channel-IsSteady :
    (channel : ℕ) (title : Text) (d : Desktop)
    → IsSteady d
    → IsSteady (name_channel channel title d)
unfolding name_channel
name_channel-IsSteady channel [] d h = h
name_channel-IsSteady channel (c ∷ cs) d h =
    IsSteady-kinds _ d
      (kinds-map (name_pane channel (c ∷ cs)) d.panes (name_pane-kind channel (c ∷ cs))) h

any_pane-append :
    (test : Pane → Bool) (ps qs : List Pane)
    → any_pane test (ps ++ qs) ≡ (any_pane test ps || any_pane test qs)
unfolding any_pane
any_pane-append test [] qs = refl
any_pane-append test (p ∷ ps) qs = rw (any_pane-append test ps qs) (ground arith)

length-append : (ps qs : List Pane) → length (ps ++ qs) ≡ length ps + length qs
length-append [] qs = omega arith
length-append (p ∷ ps) qs = omega (arith, length-append ps qs)

pub add_application-IsSteady :
    (channel : ℕ) (title : Text) (d : Desktop)
    → IsSteady d
    → IsSteady (add_application channel title d).0
unfolding add_application
add_application-IsSteady channel title d h =
    elim (Option-cases (position (on_channel channel) d.panes)) [
      | inr (index, at) ↦
          rw (at, add_application)
            (IsSteady-kinds _ d (kinds-update_first (on_channel channel) _ d.panes (λ p. refl)) h)
      | inl gone ↦
          let one = new_pane application channel title default_scrollback ∷ [] in
          rw (gone, add_application)
            (record {
              is_focused = omega (arith, length-append d.panes one, h.is_focused);
              has_system = any_pane-append is_system d.panes one ∙ rw h.has_system refl;
            })
    ]

any_pane-retain :
    (channel : ℕ) (panes : List Pane)
    → any_pane is_system (retain (stays channel) panes) ≡ any_pane is_system panes
unfolding any_pane retain
any_pane-retain channel [] = refl
any_pane-retain channel (p ∷ ps) = ground (arith, any_pane-retain channel ps)

any_pane-some :
    (test : Pane → Bool) (panes : List Pane) → any_pane test panes ≡ true → 0 < length panes
unfolding any_pane
any_pane-some test [] h = cc h
any_pane-some test (p ∷ ps) h = omega arith

pub release_channel-IsSteady :
    (channel : ℕ) (d : Desktop) → IsSteady d → IsSteady (release_channel channel d)
unfolding release_channel
release_channel-IsSteady channel d h =
    let kept = any_pane-retain channel d.panes ∙ h.has_system in
    record {
      is_focused = omega (arith, any_pane-some is_system (retain (stays channel) d.panes) kept);
      has_system = kept;
    }
