-- ===== src/Config/Lines.antt =====
-- internal/config/config.go, `readLine` and `endsWithEscape`.
pub mod Progress
use sysext_alpine.Base.{
  ℕ, suc, ◌^◌, Bool, true, false, ◌&&◌, ◌||◌, [], ◌∷◌, Option, none, some, Bytes, ◌==◌, leb,
  if◌then◌else◌,
}

abbrev pub long_line_max : ℕ
long_line_max = 2 ^ 20

pub data Eol : Type 0 where
  plain eol_zero eol_ten eol_thirteen : Eol

-- The set of line ends passed so far: `prev` with its three bits.
pub record Ends : Type 0 where
  pub zero_seen : Bool
  pub ten_seen : Bool
  pub thirteen_seen : Bool

abbrev pub no_ends : Ends
no_ends = record { zero_seen = false; ten_seen = false; thirteen_seen = false }

unfoldable pub eol_of : ℕ → Eol
eol_of c =
    if c == 10
    then eol_ten
    else if c == 13
    then eol_thirteen
    else if c == 0
    then eol_zero
    else plain

-- What the loop does with a byte: it stops before it, passes it as an end, or takes it.
pub data LineStep : Type 0 where
  stop keep : LineStep
  pass : Ends → LineStep

unfoldable pub line_step : Ends → Eol → LineStep
line_step prev plain = if prev.zero_seen || prev.ten_seen || prev.thirteen_seen then stop else keep
line_step prev eol_zero = if prev.zero_seen then stop else pass (record prev { zero_seen = true })
line_step prev eol_ten =
    if prev.zero_seen || prev.ten_seen then stop else pass (record prev { ten_seen = true })
line_step prev eol_thirteen =
    if prev.zero_seen || prev.thirteen_seen
    then stop
    else pass (record prev { thirteen_seen = true })

abbrev pub with_byte : ℕ → Option (Bytes × Bytes) → Option (Bytes × Bytes)
with_byte c none = none
with_byte c (some (line, rest)) = some (c ∷ line, rest)

abbrev pub taken : ℕ → ℕ → Option (Bytes × Bytes) → Option (Bytes × Bytes)
taken n c r = if leb long_line_max n then none else with_byte c r

-- The line and the rest; `none` for a line that is too long (ENOBUFS). `n` counts the bytes taken.
unfoldable pub read_line_from : Ends → ℕ → Bytes → Option (Bytes × Bytes)
read_line_from prev n [] = some ([], [])
read_line_from prev n (c ∷ s) = elim (line_step prev (eol_of c)) [
  | stop ↦ some ([], c ∷ s)
  | pass seen ↦ read_line_from seen n s
  | keep ↦ taken n c (read_line_from prev (suc n) s)
]

unfoldable pub read_line : Bytes → Option (Bytes × Bytes)
read_line s = read_line_from no_ends 0 s

unfoldable pub escape_left : Bool → Bytes → Bool
escape_left escaped [] = escaped
escape_left true (c ∷ s) = escape_left false s
escape_left false (c ∷ s) = escape_left (c == 92) s

-- Whether the last byte is a backslash that is not escaped.
unfoldable pub ends_with_escape : Bytes → Bool
ends_with_escape s = escape_left false s
