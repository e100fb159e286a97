-- ===== src/Config/Assign.antt =====
-- internal/config/config.go, `parseLine` and `assign`: one logical line of a configuration file.
pub mod Known
use sysext_alpine.Base.{
  ℕ, ◌+◌, Bool, true, false, not, ◌&&◌, ◌||◌, List, [], ◌∷◌, ◌++◌, Option, none, some, Bytes, codes,
  same, ltb, ◌==◌, null, any, cut, has_prefix, has_byte, if◌then◌else◌,
}
use sysext_alpine.Release.Names.{valid_utf8, decode_rune}
use sysext_alpine.Config.{
  Config, Errno, einval, ebadmsg, enotuniq, ebadslt, ebadrqc, other, Warning, not_utf8,
  invalid_section_header, unsafe_section_header, unknown_section, outside_section, missing_equals,
  missing_key, bad_mutable, refused_policy, unknown_key, parse_mutable,
}

abbrev is_blank : ℕ → Bool
is_blank c = c == 32 || c == 9 || c == 10 || c == 13

-- strings.Trim and TrimLeft with the cut set " \t\n\r"
unfoldable pub trim_left_blank : Bytes → Bytes
trim_left_blank [] = []
trim_left_blank (c ∷ s) = if is_blank c then trim_left_blank s else c ∷ s

unfoldable pub trim_right_blank : Bytes → Bytes
trim_right_blank [] = []
trim_right_blank (c ∷ s) =
    let rest = trim_right_blank s in if is_blank c && null rest then [] else c ∷ rest

unfoldable pub trim_blank : Bytes → Bytes
trim_blank s = trim_right_blank (trim_left_blank s)

abbrev unsafe_byte : ℕ → Bool
unsafe_byte c = ltb c 32 || c == 127 || has_byte c (codes "\\\"'*?[")

unfoldable pub section_name_is_safe : Bytes → Bool
section_name_is_safe s = if null s || not (valid_utf8 s) then false else not (any unsafe_byte s)

-- The parser of one file with its loader: what is set so far, what is logged so far, and the
-- section.
pub record FileParser : Type 0 where
  pub cfg : Config
  pub messages : List Warning
  pub section : Bytes
  pub in_section : Bool
  pub section_ignored : Bool

-- The state after a call, and its error.
abbrev pub Parsed : Type 0
Parsed = FileParser × Option Errno

abbrev pub warn : Warning → FileParser → FileParser
warn w p = record p { messages = p.messages ++ (w ∷ []) }

abbrev pub set_config : Config → FileParser → FileParser
set_config c p = record p { cfg = c }

-- A header's brackets removed; `none` when the last byte is not `]`.
unfoldable pub before_bracket : Bytes → Option Bytes
before_bracket [] = none
before_bracket (c ∷ []) = if c == b']' then some [] else none
before_bracket (c ∷ d ∷ s) = elim (before_bracket (d ∷ s)) [ none ↦ none | some t ↦ some (c ∷ t) ]

-- errors.Is against the three errors that have a message of their own.
abbrev policy_errno : Errno → Errno
policy_errno enotuniq = enotuniq
policy_errno ebadslt = ebadslt
policy_errno ebadrqc = ebadrqc
policy_errno e = einval

-- `name` and `own_section` are the file and the section that the loader looks for;
-- `validate_policy` is the function that Load is given, `none` when it is nil.
module _ (validate_policy : Option (Bytes → Option Errno)) (own_section name : Bytes) where
  abbrev pub refusal : Bytes → Option Errno
  refusal value = elim validate_policy [ none ↦ none | some v ↦ v value ]

  abbrev pub set_mutable : ℕ → Bytes → Option Bytes → FileParser → Parsed
  set_mutable line value none p = (warn (bad_mutable name line value) p, none)
  set_mutable line value (some m) p = (set_config (record p.cfg { mutable_mode = m }) p, none)

  abbrev pub set_policy : ℕ → Bytes → Option Errno → FileParser → Parsed
  set_policy line value none p = (set_config (record p.cfg { image_policy = value }) p, none)
  set_policy line value (some e) p =
      (warn (refused_policy name line (policy_errno e) value) p, some (policy_errno e))

  unfoldable pub assign : ℕ → Bytes → Bytes → FileParser → Parsed
  assign line key value p =
      if same key (codes "Mutable")
      then set_mutable line value (parse_mutable value) p
      else if same key (codes "ImagePolicy")
      then (if null value
          then (set_config (record p.cfg { image_policy = [] }) p, none)
          else set_policy line value (refusal value) p)
      else if has_prefix (codes "X-") key
      then (p, none)
      else (warn (unknown_key name line key p.section) p, none)

  abbrev skipped : FileParser → FileParser
  skipped p = record p { section = []; in_section = false; section_ignored = true }

  abbrev entered : Bytes → FileParser → FileParser
  entered n p = record p { section = n; in_section = true; section_ignored = false }

  abbrev pub enter : ℕ → Bytes → FileParser → FileParser
  enter line n p =
      if same n own_section
      then entered n p
      else if has_prefix (codes "X-") n
      then skipped p
      else skipped (warn (unknown_section name line n) p)

  -- `header` is the whole line, whose part between the brackets is the name.
  abbrev pub parse_header : ℕ → Bytes → Option Bytes → FileParser → Parsed
  parse_header line header none p = (warn (invalid_section_header name line header) p, some ebadmsg)
  parse_header line header (some n) p =
      if section_name_is_safe n
      then (enter line n p, none)
      else (warn (unsafe_section_header name line header) p, some ebadmsg)

  abbrev pub parse_assignment : ℕ → Option (Bytes × Bytes) → FileParser → Parsed
  parse_assignment line none p = (warn (missing_equals name line) p, none)
  parse_assignment line (some ([], value)) p = (warn (missing_key name line) p, none)
  parse_assignment line (some (c ∷ key, value)) p =
      assign line (trim_blank (c ∷ key)) (trim_blank value) p

  abbrev pub parse_body : ℕ → Bytes → FileParser → Parsed
  parse_body line l p =
      if p.in_section
      then parse_assignment line (cut b'=' l) p
      else if p.section_ignored
      then (p, none)
      else (warn (outside_section name line) p, none)

  abbrev pub parse_trimmed : ℕ → Bytes → FileParser → Parsed
  parse_trimmed line [] p = (p, none)
  parse_trimmed line (c ∷ s) p =
      if not (valid_utf8 (c ∷ s))
      then (warn (not_utf8 name line (c ∷ s)) p, some einval)
      else if c == b'['
      then parse_header line (c ∷ s) (before_bracket s) p
      else parse_body line (c ∷ s) p

  unfoldable pub parse_line : ℕ → Bytes → FileParser → Parsed
  parse_line line l p = parse_trimmed line (trim_blank l) p
