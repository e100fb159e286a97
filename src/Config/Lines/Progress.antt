-- ===== src/Config/Lines/Progress.antt =====
-- internal/config/config.go, `readLine`: it takes at least one byte, and one line with its end.
use sysext_alpine.Base.{
  ℕ, suc, ◌+◌, ◌≤◌, ◌<◌, ◌≡◌, refl, sym, ap, inl, inr, Bool, true, false, ◌&&◌, not, [], ◌∷◌, ◌++◌,
  Option, none, some, Bytes, ◌==◌, leb, length, all_bytes, Bool-cases, arith,
}
use sysext_alpine.Config.Lines.{
  Eol, plain, eol_zero, eol_ten, eol_thirteen, Ends, no_ends, eol_of, LineStep, stop, keep, pass,
  line_step, long_line_max, with_byte, taken, read_line_from, read_line,
}

abbrev Read : Type 0
Read = Option (Bytes × Bytes)

-- Whatever is read leaves at most `n` bytes.
abbrev LeavesAtMost : ℕ → Read → Type 0
LeavesAtMost n none = Unit
LeavesAtMost n (some (line, rest)) = length rest ≤ n

with_byte-LeavesAtMost : (c n : ℕ) (r : Read) → LeavesAtMost n r → LeavesAtMost n (with_byte c r)
with_byte-LeavesAtMost c n none h = tt
with_byte-LeavesAtMost c n (some (l, t)) h = h

taken-LeavesAtMost : (n c m : ℕ) (r : Read) → LeavesAtMost m r → LeavesAtMost m (taken n c r)
taken-LeavesAtMost n c m r h = elim (Bool-cases (leb long_line_max n)) [
  | inl e ↦ rw e tt
  | inr e ↦ rw e (with_byte-LeavesAtMost c m r h)
]

LeavesAtMost-suc : (n : ℕ) (r : Read) → LeavesAtMost n r → LeavesAtMost (suc n) r
LeavesAtMost-suc n none h = tt
LeavesAtMost-suc n (some (l, t)) h = omega arith

step-LeavesAtMost :
    (x : LineStep) (c : ℕ) (s : Bytes) (p : Ends → Read) (k : Read)
    → ((seen : Ends) → LeavesAtMost (length s) (p seen))
    → LeavesAtMost (length s) k
    → LeavesAtMost
        (suc (length s))
        (elim x [ stop ↦ some ([], c ∷ s) | pass seen ↦ p seen | keep ↦ k ])
step-LeavesAtMost stop c s p k hp hk = omega arith
step-LeavesAtMost (pass seen) c s p k hp hk = LeavesAtMost-suc (length s) (p seen) (hp seen)
step-LeavesAtMost keep c s p k hp hk = LeavesAtMost-suc (length s) k hk

read_line_from-LeavesAtMost :
    (s : Bytes) (prev : Ends) (n : ℕ) → LeavesAtMost (length s) (read_line_from prev n s)
unfolding read_line_from
read_line_from-LeavesAtMost [] prev n = omega arith
read_line_from-LeavesAtMost (c ∷ s) prev n =
    step-LeavesAtMost (line_step prev (eol_of c)) c s (λ seen. read_line_from seen n s) _
      (λ seen. read_line_from-LeavesAtMost s seen n)
      (taken-LeavesAtMost n c (length s) _ (read_line_from-LeavesAtMost s prev (suc n)))

first-LeavesAtMost :
    (e : Eol) (c : ℕ) (s : Bytes) (p : Ends → Read) (k : Read)
    → ((seen : Ends) → LeavesAtMost (length s) (p seen))
    → LeavesAtMost (length s) k
    → LeavesAtMost
        (length s)
        (elim (line_step no_ends e) [ stop ↦ some ([], c ∷ s) | pass seen ↦ p seen | keep ↦ k ])
unfolding line_step
first-LeavesAtMost plain c s p k hp hk = hk
first-LeavesAtMost eol_zero c s p k hp hk = hp _
first-LeavesAtMost eol_ten c s p k hp hk = hp _
first-LeavesAtMost eol_thirteen c s p k hp hk = hp _

some-LeavesAtMost :
    (n : ℕ) (r : Read) {line rest : Bytes}
    → LeavesAtMost n r
    → r ≡ some (line, rest)
    → length rest ≤ n
some-LeavesAtMost n none h e = cc
some-LeavesAtMost n (some (l, t)) {line} {rest} h e = let q : t ≡ rest = cc in rw (sym q) h

-- A line that is read from a text that is not empty leaves fewer bytes than there were.
pub read_line-length :
    (c : ℕ) (s : Bytes) {line rest : Bytes}
    → read_line (c ∷ s) ≡ some (line, rest)
    → length rest < length (c ∷ s)
unfolding read_line read_line_from
read_line-length c s e =
    let shorter =
      some-LeavesAtMost (length s) _
        (first-LeavesAtMost (eol_of c) c s (λ seen. read_line_from seen 0 s) _
          (λ seen. read_line_from-LeavesAtMost s seen 0)
          (taken-LeavesAtMost 0 c (length s) _ (read_line_from-LeavesAtMost s no_ends 1)))
        e in
    omega arith

-- A byte that ends no line.
abbrev pub is_plain : ℕ → Bool
is_plain c = not (c == 10) && not (c == 13) && not (c == 0)

is_plain-eol_of : (c : ℕ) → is_plain c ≡ true → eol_of c ≡ plain
unfolding eol_of
is_plain-eol_of c h = ground arith

after_ten :
    (n c : ℕ) (s : Bytes)
    → eol_of c ≡ plain
    → read_line_from (record no_ends { ten_seen = true }) n (c ∷ s) ≡ some ([], c ∷ s)
unfolding read_line_from line_step
after_ten n c s e = rw (read_line_from, e) refl

read_line_from-append :
    (w : Bytes) (n : ℕ) (c : ℕ) (s : Bytes)
    → all_bytes is_plain w ≡ true
    → is_plain c ≡ true
    → n + length w ≤ long_line_max
    → read_line_from no_ends n (w ++ (10 ∷ c ∷ s)) ≡ some (w, c ∷ s)
unfolding read_line_from line_step
read_line_from-append [] n c s hw hc hn = unfold eol_of in after_ten n c s (is_plain-eol_of c hc)
read_line_from-append (d ∷ w) n c s hw hc hn =
    let hd : is_plain d ≡ true = ground arith in
    let hr : all_bytes is_plain w ≡ true = ground arith in
    let fits : leb long_line_max n ≡ false = ground arith in
    rw (read_line_from, is_plain-eol_of d hd, fits)
      (ap (with_byte d) (read_line_from-append w (suc n) c s hr hc (omega arith)))

read_line-append :
    (w : Bytes) (c : ℕ) (s : Bytes)
    → all_bytes is_plain w ≡ true
    → is_plain c ≡ true
    → length w ≤ long_line_max
    → read_line (w ++ (10 ∷ c ∷ s)) ≡ some (w, c ∷ s)
unfolding read_line
read_line-append w c s hw hc hn = read_line_from-append w 0 c s hw hc (omega arith)
