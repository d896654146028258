-- ===== src/Frontend/Options/Sound.antt =====
-- The options that are accepted fit together.
use sw_tos.Base.{
  ℕ, ◌≤◌, List, [], ◌∷◌, Option, none, some, Bool, true, false, Text, Result, ok, err, ◌≡◌, refl,
  arith,
}
use sw_tos.Frontend.Options.{
  Options, ParseResult, help, run, default_options, Valued, prefix_value, debug_map_value,
  session_value, delay_value, byte_delay_value, Flag, verbose_flag, swtos_flag, framed_flag,
  windows_flag, sync_flag, time_flag, Kind, help_flag, unknown, positional, flag, valued, kind,
  set_flag, parse_within, set_value, set_prefix, set_delay, set_byte_delay, by_kind, by_value, Loop,
  parse_loop, parse_args,
}
use sw_tos.Frontend.Requests.{TimeMode}

abbrev pub Within : ℕ → Option ℕ → Type 0
Within most none = Unit
Within most (some n) = (1 ≤ n) × (n ≤ most)

-- A delay is in its range; windows are framed, and frames and a time mode are for SWTOS.
pub record IsSound (o : Options) : Type 0 where
  pub delay_range : Within 10 o.delay
  pub byte_delay_range : Within 10000 o.byte_delay
  pub windows_framed : o.windows ≡ true → o.framed ≡ true
  pub framed_swtos : o.framed ≡ true → o.swtos ≡ true
  pub timed_swtos : {mode : TimeMode} → o.time_mode ≡ some mode → o.swtos ≡ true

abbrev pub AllSound : Result ParseResult Text → Type 0
AllSound (ok (run o)) = IsSound o
AllSound (ok help) = Unit
AllSound (err message) = Unit

default_options-IsSound : IsSound default_options
default_options-IsSound = record {
  delay_range = tt;
  byte_delay_range = tt;
  windows_framed = λ h. cc h;
  framed_swtos = λ h. cc h;
  timed_swtos = λ h. cc h;
}

set_flag-IsSound : (f : Flag) (o : Options) → IsSound o → IsSound (set_flag f o)
unfolding set_flag
set_flag-IsSound verbose_flag o h = record {
  delay_range = h.delay_range;
  byte_delay_range = h.byte_delay_range;
  windows_framed = h.windows_framed;
  framed_swtos = h.framed_swtos;
  timed_swtos = h.timed_swtos;
}
set_flag-IsSound swtos_flag o h = record {
  delay_range = h.delay_range;
  byte_delay_range = h.byte_delay_range;
  windows_framed = h.windows_framed;
  framed_swtos = λ e. refl;
  timed_swtos = λ e. refl;
}
set_flag-IsSound framed_flag o h = record {
  delay_range = h.delay_range;
  byte_delay_range = h.byte_delay_range;
  windows_framed = λ e. refl;
  framed_swtos = λ e. refl;
  timed_swtos = λ e. refl;
}
set_flag-IsSound windows_flag o h = record {
  delay_range = h.delay_range;
  byte_delay_range = h.byte_delay_range;
  windows_framed = λ e. refl;
  framed_swtos = λ e. refl;
  timed_swtos = λ e. refl;
}
set_flag-IsSound sync_flag o h = record {
  delay_range = h.delay_range;
  byte_delay_range = h.byte_delay_range;
  windows_framed = h.windows_framed;
  framed_swtos = h.framed_swtos;
  timed_swtos = h.timed_swtos;
}
set_flag-IsSound (time_flag mode) o h = record {
  delay_range = h.delay_range;
  byte_delay_range = h.byte_delay_range;
  windows_framed = h.windows_framed;
  framed_swtos = λ e. refl;
  timed_swtos = λ e. refl;
}

parse_within-Within : (most : ℕ) (value : Text) → Within most (parse_within most value)
unfolding parse_within
parse_within-Within most value = ground arith

abbrev AllSet : Result Options Text → Type 0
AllSet (ok o) = IsSound o
AllSet (err message) = Unit

set_prefix-AllSet :
    (value : Text) (o : Options) (byte : Option ℕ) → IsSound o → AllSet (set_prefix value o byte)
unfolding set_prefix
set_prefix-AllSet value o none h = tt
set_prefix-AllSet value o (some byte) h = record {
  delay_range = h.delay_range;
  byte_delay_range = h.byte_delay_range;
  windows_framed = h.windows_framed;
  framed_swtos = h.framed_swtos;
  timed_swtos = h.timed_swtos;
}

set_delay-AllSet :
    (value : Text) (o : Options) (n : Option ℕ)
    → Within 10 n
    → IsSound o
    → AllSet (set_delay value o n)
unfolding set_delay
set_delay-AllSet value o none k h = tt
set_delay-AllSet value o (some n) k h = record {
  delay_range = k;
  byte_delay_range = h.byte_delay_range;
  windows_framed = h.windows_framed;
  framed_swtos = h.framed_swtos;
  timed_swtos = h.timed_swtos;
}

set_byte_delay-AllSet :
    (value : Text) (o : Options) (n : Option ℕ)
    → Within 10000 n
    → IsSound o
    → AllSet (set_byte_delay value o n)
unfolding set_byte_delay
set_byte_delay-AllSet value o none k h = tt
set_byte_delay-AllSet value o (some n) k h = record {
  delay_range = h.delay_range;
  byte_delay_range = k;
  windows_framed = h.windows_framed;
  framed_swtos = h.framed_swtos;
  timed_swtos = h.timed_swtos;
}

set_value-AllSet :
    (v : Valued) (value : Text) (o : Options) → IsSound o → AllSet (set_value v value o)
unfolding set_value
set_value-AllSet prefix_value value o h = set_prefix-AllSet value o _ h
set_value-AllSet debug_map_value value o h = record {
  delay_range = h.delay_range;
  byte_delay_range = h.byte_delay_range;
  windows_framed = h.windows_framed;
  framed_swtos = h.framed_swtos;
  timed_swtos = h.timed_swtos;
}
set_value-AllSet session_value value o h = record {
  delay_range = h.delay_range;
  byte_delay_range = h.byte_delay_range;
  windows_framed = h.windows_framed;
  framed_swtos = h.framed_swtos;
  timed_swtos = h.timed_swtos;
}
set_value-AllSet (delay_value arg) value o h =
    set_delay-AllSet value o (parse_within 10 value) (parse_within-Within 10 value) h
set_value-AllSet (byte_delay_value arg) value o h =
    set_byte_delay-AllSet value o (parse_within 10000 value) (parse_within-Within 10000 value) h

abbrev LoopSound : Loop → Type 0
LoopSound next =
    (waiting : Option Valued) (seen : Bool) (o : Options)
    → IsSound o
    → AllSound (next waiting seen o)

by_value-AllSound :
    (next : Loop) (seen : Bool) (r : Result Options Text)
    → LoopSound next
    → AllSet r
    → AllSound (by_value next seen r)
unfolding by_value
by_value-AllSound next seen (err message) k h = tt
by_value-AllSound next seen (ok o) k h = k none seen o h

by_kind-AllSound :
    (next : Loop) (k : Kind) (arg : Text) (seen : Bool) (o : Options)
    → LoopSound next
    → IsSound o
    → AllSound (by_kind next k arg seen o)
unfolding by_kind
by_kind-AllSound next help_flag arg seen o k h = tt
by_kind-AllSound next unknown arg seen o k h = tt
by_kind-AllSound next positional arg true o k h = tt
by_kind-AllSound next positional arg false o k h =
    k none true (record o { device = arg })
      (record {
        delay_range = h.delay_range;
        byte_delay_range = h.byte_delay_range;
        windows_framed = h.windows_framed;
        framed_swtos = h.framed_swtos;
        timed_swtos = h.timed_swtos;
      })
by_kind-AllSound next (flag option) arg seen o k h =
    k none seen (set_flag option o) (set_flag-IsSound option o h)
by_kind-AllSound next (valued option) arg seen o k h = k (some option) seen o h

parse_loop-AllSound :
    (args : List Text) (waiting : Option Valued) (seen : Bool) (o : Options)
    → IsSound o
    → AllSound (parse_loop args waiting seen o)
unfolding parse_loop
parse_loop-AllSound [] none seen o h = h
parse_loop-AllSound [] (some option) seen o h = tt
parse_loop-AllSound (value ∷ rest) (some option) seen o h =
    by_value-AllSound (parse_loop rest) seen (set_value option value o) (parse_loop-AllSound rest)
      (set_value-AllSet option value o h)
parse_loop-AllSound (arg ∷ rest) none seen o h =
    by_kind-AllSound (parse_loop rest) (kind arg) arg seen o (parse_loop-AllSound rest) h

-- Whatever the arguments, if they are accepted then the delay is from 1 to 10 milliseconds and the
-- byte delay from 1 to 10000 microseconds where they are given, windows are framed, and frames
-- and a time mode come with the SWTOS mode.
pub parse_args-AllSound : (args : List Text) → AllSound (parse_args args)
unfolding parse_args
parse_args-AllSound [] = default_options-IsSound
parse_args-AllSound (program ∷ args) =
    parse_loop-AllSound args none false default_options default_options-IsSound
