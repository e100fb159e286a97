-- ===== src/Config/File.antt =====
-- internal/config/config.go, `parse`: the logical lines of one file, with continuation lines joined.
pub mod Fuel
pub mod Known
use sysext_alpine.Base.{
  ℕ, zero, suc, ◌+◌, ◌/◌, ◌%◌, Bool, true, false, not, ◌&&◌, ◌||◌, List, [], ◌∷◌, ◌++◌, Option,
  none, some, Bytes, ltb, ◌==◌, length, null, cut_prefix, if◌then◌else◌,
}
use sysext_alpine.Config.{
  Errno, enobufs, Warning, marked_executable, marked_world_writable, line_too_long,
  continuation_too_long, failed_to_parse,
}
use sysext_alpine.Config.Lines.{long_line_max, read_line, ends_with_escape}
use sysext_alpine.Config.Assign.{trim_left_blank, FileParser, Parsed, warn, parse_line}

-- A file that has been read, with its mode, and the device and inode that os.SameFile compares.
pub record OpenedFile : Type 0 where
  pub name : Bytes
  pub content : Bytes
  pub mode : ℕ
  pub dev : ℕ
  pub ino : ℕ

unfoldable pub is_comment : Bytes → Bool
is_comment [] = false
is_comment (c ∷ s) = c == b'#' || c == b';'

-- The locals of the loop; `continuation` is `none` when `haveContinuation` is false.
pub record Locals : Type 0 where
  pub line : ℕ
  pub bom_seen : Bool
  pub continuation : Option Bytes

-- `cur[len(cur)-1] = ' '`
unfoldable pub blank_last : Bytes → Bytes
blank_last [] = []
blank_last (c ∷ s) = if null s then 32 ∷ [] else c ∷ blank_last s

abbrev pub cut_bom : Bytes → Option Bytes
cut_bom s = cut_prefix (0xef ∷ 0xbb ∷ 0xbf ∷ []) s

abbrev pub without_bom : Bytes → Option Bytes → Locals → Bytes × Locals
without_bom buf none l = (buf, l)
without_bom buf (some s) l = if l.bom_seen then (buf, l) else (s, record l { bom_seen = true })

abbrev continued : Option Bytes → Bytes → Bytes
continued none cur = cur
continued (some c) cur = c ++ cur

abbrev too_long : Option Bytes → Bytes → Bool
too_long none cur = false
too_long (some c) cur = ltb long_line_max (length c + length cur)

module _ (validate_policy : Option (Bytes → Option Errno)) (own_section : Bytes)
    (f : OpenedFile) where
  abbrev pub run_line : ℕ → Bytes → FileParser → Parsed
  run_line = parse_line validate_policy own_section f.name

  -- The error of a line is logged, and returned.
  abbrev pub log_failure : ℕ → Parsed → Parsed
  log_failure n (p, none) = (p, none)
  log_failure n (p, some e) = (warn (failed_to_parse f.name n e) p, some e)

  -- The state of the loop after one line, and the error that ends it.
  abbrev pub Turn : Type 0
  Turn = Locals × Parsed

  abbrev pub finish_line : Locals → Parsed → Turn
  finish_line l (p, none) = (record l { continuation = none }, (p, none))
  finish_line l (p, some e) = (l, (p, some e))

  abbrev pub join_line : Bytes → Locals → FileParser → Turn
  join_line cur l p =
      if too_long l.continuation cur
      then (l, (warn (continuation_too_long f.name l.line) p, some enobufs))
      else if ends_with_escape (continued l.continuation cur)
      then (record l { continuation = some (blank_last (continued l.continuation cur)) }, (p, none))
      else finish_line l (log_failure l.line (run_line l.line (continued l.continuation cur) p))

  -- One line that was read; `l` counts it.
  unfoldable pub take_line : Bytes → Locals → FileParser → Turn
  take_line buf l p =
      if is_comment (trim_left_blank buf)
      then (l, (p, none))
      else (let b = without_bom buf (cut_bom buf) l in join_line b.0 b.1 p)

  abbrev pub finish_file : Locals → FileParser → Parsed
  finish_file l p = elim l.continuation [
    | none ↦ (p, none)
    | some c ↦ log_failure (suc l.line) (run_line (suc l.line) c p)
  ]

  abbrev pub count : Locals → Locals
  count l = record l { line = suc l.line }

  abbrev pub next_turn : Turn → (Locals → FileParser → Parsed) → Parsed
  next_turn (l, (p, some e)) next = (p, some e)
  next_turn (l, (p, none)) next = next l p

  -- Every turn of the loop reads one line, which leaves fewer bytes: `parse_lines` is given as
  -- much fuel as the file has bytes; `exhausted` is the result when that is used up.
  unfoldable pub parse_lines : Parsed → ℕ → Bytes → Locals → FileParser → Parsed
  parse_lines exhausted fuel [] l p = finish_file l p
  parse_lines exhausted zero (c ∷ s) l p = exhausted
  parse_lines exhausted (suc fuel) (c ∷ s) l p = elim (read_line (c ∷ s)) [
    | none ↦ (warn (line_too_long f.name l.line) p, some enobufs)
    | some r ↦ next_turn (take_line r.0 (count l) p) (λ k q. parse_lines exhausted fuel r.1 k q)
  ]

  abbrev pub checked_mode : FileParser → FileParser
  checked_mode p =
      let a =
        if f.mode / 64 % 2 == 0 && f.mode / 8 % 2 == 0 && f.mode % 2 == 0
        then p
        else warn (marked_executable f.name) p in
      if f.mode / 2 % 2 == 0 then a else warn (marked_world_writable f.name) a

  -- Each file starts outside of every section.
  unfoldable pub parse_file : FileParser → Parsed
  parse_file p =
      parse_lines (p, some enobufs) (length f.content) f.content
        (record { line = 0; bom_seen = false; continuation = none })
        (checked_mode (record p { section = []; in_section = false; section_ignored = false }))
