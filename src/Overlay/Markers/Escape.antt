-- ===== src/Overlay/Markers/Escape.antt =====
-- internal/overlay/markers.go: `cunescape` reverses `cescape`.
use sysext_alpine.Base.{
  ℕ, ◌+◌, ◌/◌, ◌%◌, ◌<◌, ◌≤◌, ◌≡◌, ◌≢◌, refl, sym, ap, ap₂, ◌∙◌, subst, inl, inr, true, false, ◌&&◌,
  ◌||◌, [], ◌∷◌, ◌++◌, Option, none, some, Bytes, ltb, leb, ◌==◌, ==_iff, Bool-cases, if◌then◌else◌,
  All, arith,
}
use sysext_alpine.Overlay.Markers.{
  escape_byte, cescape, octal, octal_number, byte_escape, unescape_one, put, cunescape_from,
  cunescape,
}

-- The escape of one byte reads as the byte.
Reads : ℕ → Type 0
Reads c = (t : Bytes) → cunescape_from 0 (escape_byte c ++ t) ≡ put (c ∷ []) (cunescape_from 0 t)

-- A byte is the one that has a name, or another one.
unless : (n c : ℕ) (P : ℕ → Type 0) → P n → ((c == n) ≡ false → P c) → P c
unless n c P p q = elim (Bool-cases (c == n)) [
  | inl e ↦ subst P (sym ((==_iff c n).0 e)) p
  | inr e ↦ q e
]

is_octal : (d : ℕ) → d < 8 → (leb 48 (48 + d) && leb (48 + d) 55) ≡ true
is_octal d h = ground arith

no_letter : (d n : ℕ) → d < 8 → 56 ≤ n → (48 + d == n) ≡ false
no_letter d n h k = ground arith

no_quote : (d n : ℕ) → n < 48 → (48 + d == n) ≡ false
no_quote d n h = ground arith

unescape_octal :
    (d : ℕ) (s : Bytes)
    → d < 8
    → unescape_one ((48 + d) ∷ s) ≡ byte_escape 3 (octal_number 3 0 ((48 + d) ∷ s))
unfolding unescape_one
unescape_octal d s h =
    let k = no_letter d in
    rw
      (
        k 97 h (omega arith),
        k 98 h (omega arith),
        k 102 h (omega arith),
        k 110 h (omega arith),
        k 114 h (omega arith),
        k 116 h (omega arith),
        k 118 h (omega arith),
        k 92 h (omega arith),
        no_quote d 34 (omega arith),
        no_quote d 39 (omega arith),
        k 115 h (omega arith),
        k 120 h (omega arith),
        k 117 h (omega arith),
        k 85 h (omega arith),
        is_octal d h,
      )
      refl

-- Three octal digits read as the byte.
pub octal_digits :
    (c : ℕ) (t : Bytes)
    → c < 256
    → octal_number 3 0 ((48 + c / 64) ∷ (48 + c / 8 % 8) ∷ (48 + c % 8) ∷ t) ≡ some c
unfolding octal_number
octal_digits c t h =
    let a = is_octal (c / 64) (omega arith) in
    let b = is_octal (c / 8 % 8) (omega arith) in
    let d = is_octal (c % 8) (omega arith) in rw (a, b, d) (ap some (omega arith))

octal-Reads :
    (c : ℕ)
    → c < 256
    → c ≢ 0
    → (t : Bytes) → cunescape_from 0 (octal c ++ t) ≡ put (c ∷ []) (cunescape_from 0 t)
unfolding cunescape_from
octal-Reads c h z t =
    let digits = (48 + c / 64) ∷ (48 + c / 8 % 8) ∷ (48 + c % 8) ∷ t in
    let zero_test : (c == 0) ≡ false = ground arith in
    let small : ltb 255 c ≡ false = ground arith in
    ap
      (λ (o : Option (Bytes × ℕ)). elim o [
        | none ↦ none
        | some (w, n) ↦ put w (cunescape_from n digits)
      ])
      (unescape_octal (c / 64) _ (omega arith)
        ∙ ap (byte_escape 3) (octal_digits c t h)
        ∙ ap₂ (λ a b. if a || b then none else some (c ∷ [], 3)) zero_test small)

other-Reads :
    (c : ℕ)
    → (c == 92) ≡ false
    → c < 256
    → c ≢ 0
    → (t : Bytes)
    → cunescape_from 0 ((if ltb c 32 || leb 127 c then octal c else c ∷ []) ++ t)
      ≡ put (c ∷ []) (cunescape_from 0 t)
unfolding cunescape_from
other-Reads c b h z t = elim (Bool-cases (ltb c 32 || leb 127 c)) [
  | inl e ↦ rw e (octal-Reads c h z t)
  | inr e ↦ rw (e, b) refl
]

Reads-byte : (c : ℕ) → c < 256 → c ≢ 0 → Reads c
unfolding Reads escape_byte cunescape_from unescape_one
Reads-byte c h z =
    unless 7 c Reads (λ t. refl)
      λ e1.
        unless 8 c Reads (λ t. refl)
          λ e2.
            unless 12 c Reads (λ t. refl)
              λ e3.
                unless 10 c Reads (λ t. refl)
                  λ e4.
                    unless 13 c Reads (λ t. refl)
                      λ e5.
                        unless 9 c Reads (λ t. refl)
                          λ e6.
                            unless 11 c Reads (λ t. refl)
                              λ e7.
                                unless 92 c Reads (λ t. refl)
                                  λ e8.
                                    unless 34 c Reads (λ t. refl)
                                      λ e9.
                                        unless 39 c Reads (λ t. refl)
                                          λ e10. λ t.
                                            rw (e1, e2, e3, e4, e5, e6, e7, e8, e9, e10)
                                              (other-Reads c e8 h z t)

-- A text without NUL survives being escaped and unescaped.
pub cunescape-cescape :
    (s : Bytes) → All (λ c. (c < 256) × (c ≢ 0)) s → cunescape (cescape s) ≡ some s
unfolding cunescape cescape Reads cunescape_from
cunescape-cescape s h = from s h
  where
    from : (s : Bytes) → All (λ c. (c < 256) × (c ≢ 0)) s → cunescape_from 0 (cescape s) ≡ some s
    from [] h = refl
    from (c ∷ s) h = Reads-byte c h.0.0 h.0.1 (cescape s) ∙ ap (put (c ∷ [])) (from s h.1)
