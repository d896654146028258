-- ===== src/Frontend/Options.antt =====
-- `parse_args` of tools/te-rs/src/main.rs: the options of the command line. A duration is a number
-- of milliseconds or microseconds, a path its text.
pub mod Sound
use mathlib.Core.Option
use sw_tos.Base.{
  ℕ, ◌≤◌, List, [], ◌∷◌, ◌++◌, concat, Option, none, some, Bool, true, false, ◌&&◌, ◌||◌, leb, ◌==◌,
  if◌then◌else◌, Bytes, Text, codes, bytes_eq, starts_with, Result, ok, err, ◌≡◌, refl, arith, inl,
  inr, Bool-cases,
}
use sw_tos.Format.{as_bytes, parse, from_str_radix}
use sw_tos.Frontend.Requests.{TimeMode, uptime, clock, parse_prefix}

pub record Options : Type 0 where
  pub device : Text
  pub delay : Option ℕ
  pub byte_delay : Option ℕ
  pub sync : Bool
  pub verbose : Bool
  pub swtos : Bool
  pub framed : Bool
  pub windows : Bool
  pub prefix : ℕ
  pub debug_map : Option Text
  pub session : Option Text
  pub time_mode : Option TimeMode

pub data ParseResult : Type 0 where
  help : ParseResult
  run : Options → ParseResult

abbrev pub default_options : Options
default_options = record {
  device = codes "/dev/ttyUSB0";
  delay = none;
  byte_delay = none;
  sync = false;
  verbose = false;
  swtos = false;
  framed = false;
  windows = false;
  prefix = 0x0f;
  debug_map = none;
  session = none;
  time_mode = none;
}

-- An option that takes a value, as it was written.
pub data Valued : Type 0 where
  prefix_value debug_map_value session_value : Valued
  delay_value byte_delay_value : Text → Valued

-- An option that takes none.
pub data Flag : Type 0 where
  verbose_flag swtos_flag framed_flag windows_flag sync_flag : Flag
  time_flag : TimeMode → Flag

-- What an argument is.
pub data Kind : Type 0 where
  help_flag unknown positional : Kind
  flag : Flag → Kind
  valued : Valued → Kind

abbrev one_of : Text → Text → Text → Bool
one_of arg short long = bytes_eq arg short || bytes_eq arg long

unfoldable pub kind : Text → Kind
unfolding bytes_eq starts_with
kind arg =
    if one_of arg (codes "-h") (codes "--help")
    then help_flag
    else if one_of arg (codes "-v") (codes "--verbose")
    then flag verbose_flag
    else if bytes_eq arg (codes "--swtos")
    then flag swtos_flag
    else if bytes_eq arg (codes "--framed")
    then flag framed_flag
    else if bytes_eq arg (codes "--windows")
    then flag windows_flag
    else if bytes_eq arg (codes "--prefix")
    then valued prefix_value
    else if bytes_eq arg (codes "--debug-map")
    then valued debug_map_value
    else if bytes_eq arg (codes "--session")
    then valued session_value
    else if bytes_eq arg (codes "--uptime-active")
    then flag (time_flag uptime)
    else if bytes_eq arg (codes "--clock-active")
    then flag (time_flag clock)
    else if one_of arg (codes "-s") (codes "--sync")
    then flag sync_flag
    else if one_of arg (codes "-d") (codes "--delay")
    then valued (delay_value arg)
    else if one_of arg (codes "-b") (codes "--byte-delay")
    then valued (byte_delay_value arg)
    else if starts_with arg (codes "-")
    then unknown
    else positional

unfoldable pub set_flag : Flag → Options → Options
set_flag verbose_flag o = record o { verbose = true }
set_flag swtos_flag o = record o { swtos = true }
set_flag framed_flag o = record o { swtos = true; framed = true }
set_flag windows_flag o = record o { swtos = true; framed = true; windows = true }
set_flag sync_flag o = record o { sync = true }
set_flag (time_flag mode) o = record o { swtos = true; time_mode = some mode }

-- The end of the arguments in place of a value.
unfoldable pub missing : Valued → Text
missing prefix_value = codes "--prefix requires a value"
missing debug_map_value = codes "--debug-map requires a path"
missing session_value = codes "--session requires a path"
missing (delay_value arg) = arg ++ codes " requires a value in milliseconds"
missing (byte_delay_value arg) = arg ++ codes " requires a value in microseconds"

-- A number from 1 to `most`, read as a `u64`.
unfoldable pub parse_within : ℕ → Text → Option ℕ
unfolding from_str_radix
parse_within most value = elim (parse 0x10000000000000000 value) [
  | none ↦ none
  | some n ↦ if leb 1 n && leb n most then some n else none
]

abbrev invalid : Text → Text → Text → Text
invalid what value expected =
    concat (codes "invalid " ∷ what ∷ codes " '" ∷ value ∷ codes "': expected " ∷ expected ∷ [])

unfoldable pub set_prefix : Text → Options → Option ℕ → Result Options Text
set_prefix value o none = err (invalid (codes "prefix") value (codes "one byte or ^X"))
set_prefix value o (some byte) = ok (record o { prefix = byte })

unfoldable pub set_delay : Text → Options → Option ℕ → Result Options Text
set_delay value o none = err (invalid (codes "delay") value (codes "an integer from 1 to 10"))
set_delay value o (some n) = ok (record o { delay = some n })

unfoldable pub set_byte_delay : Text → Options → Option ℕ → Result Options Text
set_byte_delay value o none =
    err (invalid (codes "byte delay") value (codes "an integer from 1 to 10000"))
set_byte_delay value o (some n) = ok (record o { byte_delay = some n })

unfoldable pub set_value : Valued → Text → Options → Result Options Text
unfolding parse_within parse_prefix as_bytes set_prefix set_delay set_byte_delay
set_value prefix_value value o = set_prefix value o (parse_prefix (as_bytes value))
set_value debug_map_value value o = ok (record o { debug_map = some value })
set_value session_value value o = ok (record o { session = some value })
set_value (delay_value arg) value o = set_delay value o (parse_within 10 value)
set_value (byte_delay_value arg) value o = set_byte_delay value o (parse_within 10000 value)

-- The rest of the loop: an option that waits for its value, whether the device was given, and the
-- options.
abbrev pub Loop : Type 0
Loop = Option Valued → Bool → Options → Result ParseResult Text

unfoldable pub by_kind : Loop → Kind → Text → Bool → Options → Result ParseResult Text
unfolding set_flag
by_kind next help_flag arg seen o = ok help
by_kind next unknown arg seen o = err (concat (codes "unknown option '" ∷ arg ∷ codes "'" ∷ []))
by_kind next positional arg true o =
    err (concat (codes "unexpected argument '" ∷ arg ∷ codes "'" ∷ []))
by_kind next positional arg false o = next none true (record o { device = arg })
by_kind next (flag option) arg seen o = next none seen (set_flag option o)
by_kind next (valued option) arg seen o = next (some option) seen o

unfoldable pub by_value : Loop → Bool → Result Options Text → Result ParseResult Text
by_value next seen (err message) = err message
by_value next seen (ok o) = next none seen o

unfoldable pub parse_loop : List Text → Option Valued → Bool → Options → Result ParseResult Text
unfolding kind missing set_value by_kind by_value
parse_loop [] none seen o = ok (run o)
parse_loop [] (some option) seen o = err (missing option)
parse_loop (value ∷ rest) (some option) seen o =
    by_value (parse_loop rest) seen (set_value option value o)
parse_loop (arg ∷ rest) none seen o = by_kind (parse_loop rest) (kind arg) arg seen o

-- The first argument is the program's name.
unfoldable pub parse_args : List Text → Result ParseResult Text
unfolding parse_loop
parse_args [] = ok (run default_options)
parse_args (program ∷ args) = parse_loop args none false default_options
