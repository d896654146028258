-- ===== src/Debugger/Reads.antt =====
-- What the console does around the target: a read whose answer is listed, and a map that is not
-- the target's.
use mathlib.Core.Option
use sw_tos.Base.{
  ℕ, Option, none, some, ◌≡◌, refl, arith, ok, err, Text, inl, inr, ◌⊎◌, Result-cases, ◌≢◌, codes,
  Bool-cases, Option-cases, ==_iff, ap, ◌==◌, ◌∙◌,
}
use sw_tos.Debugger.Console.{DebugConsole, matched_map}
use sw_tos.Debugger.Steps.{
  parse_address, symbol_command, address, disassemble_command, list_command,
}
use sw_tos.Debugger.{DebugMap, build_id_value, require_match, mismatch}
use sw_tos.Resource

-- Without a match an address is the number that it spells, or it is refused.
address-refused :
    (c : DebugConsole) (value : Text) {reason : Text}
    → matched_map c ≡ err reason
    → ((n : ℕ) × (parse_address value ≡ ok n) × (address c value ≡ ok n))
      ⊎ (address c value ≡ err reason)
unfolding address
address-refused c value h = elim (Result-cases (parse_address value)) [
  | inl (n, e) ↦ inl (n, e, rw e refl)
  | inr (bad, e) ↦ inr (rw (e, h) refl)
]

-- The console has no map, the target's identity is missing, or it is not the one that the map's
-- build ID spells.
abbrev pub Unmatched : DebugConsole → Type 0
Unmatched c =
    (c.debug_map ≡ none)
    ⊎ ((c.target_build_id ≡ none)
        ⊎ ((m : DebugMap) × (target : ℕ) × (c.debug_map ≡ some m)
            × (c.target_build_id ≡ some target)
            × (build_id_value m ≢ ok target)))

matched_map-Unmatched :
    (c : DebugConsole) → Unmatched c → (reason : Text) × (matched_map c ≡ err reason)
unfolding matched_map
matched_map-Unmatched c (inl gone) = (codes "no debug map loaded", rw gone refl)
matched_map-Unmatched c (inr (inl missing)) = elim (Option-cases c.debug_map) [
  | inl gone ↦ (codes "no debug map loaded", rw gone refl)
  | inr (m, e) ↦ (codes "target build identity not received", rw (e, missing) refl)
]
matched_map-Unmatched c (inr (inr (m, target, e, f, other))) =
    elim (Result-cases (build_id_value m)) [
      | inr (bad, g) ↦ (bad, unfold require_match in rw (e, f, g) refl)
      | inl (expected, g) ↦ elim (Bool-cases (expected == target)) [
        | inl same ↦ absurd (other (g ∙ ap ok ((==_iff expected target).0 same)))
        | inr n ↦ (mismatch target m, unfold require_match in rw (e, f, g, n) refl)
      ]
    ]

-- A console without a match refuses a symbol, a listing and a disassembly with a reason, and is as
-- it was.
pub record Refuses (read_source : Text → Option Text) (c : DebugConsole) (value : Text)
    (count : Option ℕ) : Type 0 where
  pub reason : Text
  pub no_symbol : symbol_command c value ≡ err reason
  pub no_disassembly : disassemble_command c value count ≡ (c, err reason)
  pub no_listing : list_command read_source c (some value) count ≡ some (c, err reason)
  pub no_more :
      (list_command read_source c none count ≡ some (c, err reason))
      ⊎ ((c.next_listing ≡ none)
          × (list_command read_source c none count
              ≡ some (c, err (codes "nothing listed yet; use list LOC"))))
  pub digits : (parse_address value ≡ address c value) ⊎ (address c value ≡ err reason)

-- The console has no map, or the target's identity is missing or not the one that the map's build ID
-- spells: then for one reason a symbol, a listing of a place, a listing that goes on and a
-- disassembly are refused, unless nothing was listed yet, which is then what `list` says; the
-- console is as it was, and an address is what its digits spell, or refused.
pub refused_without_match :
    (read_source : Text → Option Text) (c : DebugConsole) (value : Text) (count : Option ℕ)
    → Unmatched c
    → Refuses read_source c value count
unfolding symbol_command disassemble_command list_command
refused_without_match read_source c value count unmatched =
    let (reason, h) = matched_map-Unmatched c unmatched in
    record {
      reason = reason;
      no_symbol = rw h refl;
      no_disassembly = elim (address-refused c value h) [
        | inl (n, e, f) ↦ rw (f, h) refl
        | inr f ↦ rw f refl
      ];
      no_listing = elim (address-refused c value h) [
        | inl (n, e, f) ↦ rw (f, h) refl
        | inr f ↦ rw f refl
      ];
      no_more = elim (Option-cases c.next_listing) [
        | inl gone ↦ inr (gone, rw gone refl)
        | inr (at, e) ↦ inl (ground (arith, e, h))
      ];
      digits = elim (address-refused c value h) [ inl (n, e, f) ↦ inl (cc (e, f)) | inr f ↦ inr f ];
    }
