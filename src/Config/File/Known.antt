-- ===== src/Config/File/Known.antt =====
-- internal/config/config.go, `parse`: a file leaves the configuration known.
use sysext_alpine.Base.{
  ℕ, zero, suc, ◌≡◌, refl, Bool, true, false, ◌&&◌, [], ◌∷◌, Option, none, some, Bytes, ◌==◌,
  length, ◌/◌, ◌%◌, if◌then◌else◌,
}
use sysext_alpine.Config.{Errno, marked_executable, marked_world_writable}
use sysext_alpine.Config.Lines.{read_line, ends_with_escape}
use sysext_alpine.Config.Assign.{FileParser, Parsed, warn, trim_left_blank}
use sysext_alpine.Config.Assign.Known.{IsKnown, parse_line-IsKnown}
use sysext_alpine.Config.File.{
  OpenedFile, Locals, is_comment, without_bom, too_long, continued, log_failure, run_line,
  finish_line, join_line, take_line, count, Turn, next_turn, finish_file, parse_lines, checked_mode,
  parse_file, cut_bom,
}

module _ (v : Option (Bytes → Option Errno)) (own_section : Bytes) (f : OpenedFile) where
  abbrev Known : Parsed → Type 0
  Known r = IsKnown v r.0.cfg

  log_failure-IsKnown : (n : ℕ) (r : Parsed) → Known r → Known (log_failure v own_section f n r)
  log_failure-IsKnown n (p, none) k = k
  log_failure-IsKnown n (p, some e) k = k

  run_line-IsKnown :
      (n : ℕ) (s : Bytes) (p : FileParser)
      → IsKnown v p.cfg
      → Known (log_failure v own_section f n (run_line v own_section f n s p))
  run_line-IsKnown n s p k =
      log_failure-IsKnown n (run_line v own_section f n s p)
        (parse_line-IsKnown v own_section f.name n s p k)

  finish_line-IsKnown :
      (l : Locals) (r : Parsed) → Known r → Known (finish_line v own_section f l r).1
  finish_line-IsKnown l (p, none) k = k
  finish_line-IsKnown l (p, some e) k = k

  if-turn :
      (b : Bool) (x y : Turn v own_section f) → Known x.1 → Known y.1 → Known (if b then x else y).1
  if-turn true x y hx hy = hx
  if-turn false x y hx hy = hy

  join_line-IsKnown :
      (cur : Bytes) (l : Locals) (p : FileParser)
      → IsKnown v p.cfg
      → Known (join_line v own_section f cur l p).1
  join_line-IsKnown cur l p k = if-turn (too_long l.continuation cur) _ _ k (
      if-turn (ends_with_escape (continued l.continuation cur)) _ _ k
        (finish_line-IsKnown l _ (run_line-IsKnown l.line (continued l.continuation cur) p k)))

  take_line-IsKnown :
      (buf : Bytes) (l : Locals) (p : FileParser)
      → IsKnown v p.cfg
      → Known (take_line v own_section f buf l p).1
  unfolding take_line
  take_line-IsKnown buf l p k =
      let b = without_bom buf (cut_bom buf) l in
      if-turn (is_comment (trim_left_blank buf)) _ (join_line v own_section f b.0 b.1 p) k
        (join_line-IsKnown b.0 b.1 p k)

  finish_file-IsKnown :
      (l : Locals) (p : FileParser) (c : Option Bytes)
      → l.continuation ≡ c
      → IsKnown v p.cfg
      → Known (finish_file v own_section f l p)
  finish_file-IsKnown l p none e k = rw e k
  finish_file-IsKnown l p (some c) e k = rw e (run_line-IsKnown (suc l.line) c p k)

  next_turn-IsKnown :
      (t : Turn v own_section f) (g : Locals → FileParser → Parsed)
      → Known t.1
      → ((l : Locals) (p : FileParser) → IsKnown v p.cfg → Known (g l p))
      → Known (next_turn v own_section f t g)
  next_turn-IsKnown (l, (p, some e)) g k h = k
  next_turn-IsKnown (l, (p, none)) g k h = h l p k

  read-IsKnown :
      (r : Option (Bytes × Bytes)) (a : Parsed) (t : Bytes → Turn v own_section f)
      (g : Bytes → Locals → FileParser → Parsed)
      → Known a
      → ((buf : Bytes) → Known (t buf).1)
      → ((rest : Bytes) (l : Locals) (p : FileParser) → IsKnown v p.cfg → Known (g rest l p))
      → Known (elim r [ none ↦ a | some x ↦ next_turn v own_section f (t x.0) (g x.1) ])
  read-IsKnown none a t g k kt kg = k
  read-IsKnown (some (buf, rest)) a t g k kt kg =
      next_turn-IsKnown (t buf) (g rest) (kt buf) (kg rest)

  parse_lines-IsKnown :
      (x : Parsed) (fuel : ℕ) (s : Bytes) (l : Locals) (p : FileParser)
      → Known x
      → IsKnown v p.cfg
      → Known (parse_lines v own_section f x fuel s l p)
  unfolding parse_lines
  parse_lines-IsKnown x fuel [] l p h k = finish_file-IsKnown l p l.continuation refl k
  parse_lines-IsKnown x zero (c ∷ s) l p h k = h
  parse_lines-IsKnown x (suc fuel) (c ∷ s) l p h k =
      read-IsKnown (read_line (c ∷ s)) _
        (λ buf. take_line v own_section f buf (count v own_section f l) p)
        (λ rest. parse_lines v own_section f x fuel rest) k
        (λ buf. take_line-IsKnown buf (count v own_section f l) p k)
        (λ rest l p. parse_lines-IsKnown x fuel rest l p h)

  if-parser :
      (b : Bool) (x y : FileParser)
      → IsKnown v x.cfg
      → IsKnown v y.cfg
      → IsKnown v (if b then x else y).cfg
  if-parser true x y hx hy = hx
  if-parser false x y hx hy = hy

  checked_mode-IsKnown :
      (p : FileParser) → IsKnown v p.cfg → IsKnown v (checked_mode v own_section f p).cfg
  checked_mode-IsKnown p k =
      let a =
        if-parser (f.mode / 64 % 2 == 0 && f.mode / 8 % 2 == 0 && f.mode % 2 == 0) p
          (warn (marked_executable f.name) p) k k in
      if-parser (f.mode / 2 % 2 == 0) _ (warn (marked_world_writable f.name) _) a a

  pub parse_file-IsKnown : (p : FileParser) → IsKnown v p.cfg → Known (parse_file v own_section f p)
  unfolding parse_file
  parse_file-IsKnown p k = parse_lines-IsKnown _ (length f.content) f.content _ _ k (
      checked_mode-IsKnown (record p { section = []; in_section = false; section_ignored = false })
        k)
