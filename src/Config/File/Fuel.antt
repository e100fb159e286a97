-- ===== src/Config/File/Fuel.antt =====
-- internal/config/config.go, `parse`: the loop ends, as every line that is read leaves fewer bytes.
use sysext_alpine.Base.{
  ℕ, zero, suc, ◌≤◌, ◌≡◌, refl, [], ◌∷◌, Option, none, some, Bytes, length, arith,
}
use sysext_alpine.Config.{Errno}
use sysext_alpine.Config.Lines.{read_line}
use sysext_alpine.Config.Lines.Progress.{read_line-length}
use sysext_alpine.Config.Assign.{FileParser, Parsed}
use sysext_alpine.Config.File.{OpenedFile, Locals, take_line, count, Turn, next_turn, parse_lines}

module _ (validate_policy : Option (Bytes → Option Errno)) (own_section : Bytes)
    (f : OpenedFile) where
  abbrev run : Parsed → ℕ → Bytes → Locals → FileParser → Parsed
  run = parse_lines validate_policy own_section f

  next_turn_cong :
      (t : Turn validate_policy own_section f) (g h : Locals → FileParser → Parsed)
      → ((l : Locals) (p : FileParser) → g l p ≡ h l p)
      → next_turn validate_policy own_section f t g ≡ next_turn validate_policy own_section f t h
  next_turn_cong (l, (p, some e)) g h eq = refl
  next_turn_cong (l, (p, none)) g h eq = eq l p

  read_cong :
      (r : Option (Bytes × Bytes)) (a : Parsed) (t : Bytes → Turn validate_policy own_section f)
      (g h : Bytes → Locals → FileParser → Parsed)
      → ((buf rest : Bytes)
          → r ≡ some (buf, rest)
          → (l : Locals) (p : FileParser) → g rest l p ≡ h rest l p)
      → ◌≡◌ {A = Parsed}
          (elim r [ none ↦ a | some x ↦ next_turn validate_policy own_section f (t x.0) (g x.1) ])
          (elim r [ none ↦ a | some x ↦ next_turn validate_policy own_section f (t x.0) (h x.1) ])
  read_cong none a t g h eq = refl
  read_cong (some (buf, rest)) a t g h eq =
      next_turn_cong (t buf) (g rest) (h rest) (eq buf rest refl)

  -- From any number of turns that is at least the number of bytes, the loop has the same outcome,
  -- whatever stands for turns that are used up: they never are.
  pub parse_lines-length :
      (x y : Parsed) (fuel more : ℕ) (s : Bytes) (l : Locals) (p : FileParser)
      → length s ≤ fuel
      → length s ≤ more
      → run x fuel s l p ≡ run y more s l p
  unfolding parse_lines
  parse_lines-length x y fuel more [] l p h k = refl
  parse_lines-length x y zero more (c ∷ s) l p h k = absurd (omega arith)
  parse_lines-length x y (suc fuel) zero (c ∷ s) l p h k = absurd (omega arith)
  parse_lines-length x y (suc fuel) (suc more) (c ∷ s) l p h k =
      read_cong (read_line (c ∷ s)) _
        (λ buf.
          take_line validate_policy own_section f buf (count validate_policy own_section f l) p)
        (λ rest. run x fuel rest) (λ rest. run y more rest)
        (λ buf rest e l p.
          let shorter = read_line-length c s e in
          parse_lines-length x y fuel more rest l p (omega arith) (omega arith))
