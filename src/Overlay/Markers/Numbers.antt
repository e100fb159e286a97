-- ===== src/Overlay/Markers/Numbers.antt =====
-- internal/overlay/markers.go: a device number is read back from the marker that holds it.
use sysext_alpine.Base.{
  ℕ, zero, suc, ◌+◌, ◌-◌, ◌*◌, ◌/◌, ◌%◌, ◌^◌, ◌<◌, ◌≡◌, ◌≢◌, refl, ap, ap₂, ◌∙◌, inl, inr, true,
  false, not, ◌&&◌, ◌||◌, [], ◌∷◌, ◌++◌, none, some, ok, err, Bytes, ltb, leb, cut-append,
  all_bytes, all_bytes-append, has_byte-all_bytes, decimal, decimal_from, Bool-cases, some_eq,
  if◌then◌else◌, arith,
}
use sysext_alpine.Discover.Pick.{digits_value}
use sysext_alpine.Discover.Version.{is_digit}
use sysext_alpine.Overlay.Markers.{
  is_decimal, sized_value, parse_decimal, invalid, out_of_range, format_devnum, joined_devnum,
  devnum_of, parse_devnum,
}

digits_value-snoc :
    (s : Bytes) (acc m d : ℕ)
    → d < 10
    → digits_value 10 acc s ≡ some m
    → digits_value 10 acc (s ++ ((48 + d) ∷ [])) ≡ some (m * 10 + d)
unfolding digits_value
digits_value-snoc [] acc m d h e =
    let t : (is_digit (48 + d) && ltb (48 + d - 48) 10) ≡ true = ground arith in
    rw t (ap some (omega (arith, some_eq e)))
digits_value-snoc (c ∷ s) acc m d h e = elim (Bool-cases (is_digit c && ltb (c - 48) 10)) [
  | inl t ↦ rw t (digits_value-snoc s (acc * 10 + (c - 48)) m d h (rw t at e))
  | inr t ↦ absurd (none-ne-some (rw t at e))
]
  where
    none-ne-some : {a : ℕ} → none ≢ some a
    none-ne-some e = cc

decimal_from-value : (fuel n : ℕ) → n < fuel → digits_value 10 0 (decimal_from fuel n) ≡ some n
unfolding decimal_from
decimal_from-value zero n h = absurd (omega arith)
decimal_from-value (suc fuel) n h = elim (Bool-cases (ltb n 10)) [
  | inl t ↦
      let z : 0 * 10 + n ≡ n = omega arith in
      rw t (digits_value-snoc [] 0 0 n (ground arith) (unfold digits_value in refl) ∙ ap some z)
  | inr t ↦
      let high = decimal_from-value fuel (n / 10) (ground arith) in
      rw t (
        digits_value-snoc (decimal_from fuel (n / 10)) 0 (n / 10) (n % 10) (omega arith) high
        ∙ ap some (omega arith))
]

decimal_from-digits : (fuel n : ℕ) → all_bytes is_digit (decimal_from fuel n) ≡ true
unfolding decimal_from
decimal_from-digits zero n = refl
decimal_from-digits (suc fuel) n = elim (Bool-cases (ltb n 10)) [
  | inl t ↦ rw t (ground arith)
  | inr t ↦ rw t (
      all_bytes-append is_digit (decimal_from fuel (n / 10)) _ (decimal_from-digits fuel (n / 10))
        (ground arith))
]

nonempty-is_decimal :
    (s t : Bytes) (c : ℕ)
    → all_bytes is_digit (s ++ (c ∷ t)) ≡ true
    → is_decimal (s ++ (c ∷ t)) ≡ true
unfolding is_decimal
nonempty-is_decimal [] t c h = h
nonempty-is_decimal (d ∷ s) t c h = h

decimal-is_decimal : (n : ℕ) → is_decimal (decimal n) ≡ true
unfolding decimal decimal_from
decimal-is_decimal n = elim (Bool-cases (ltb n 10)) [
  | inl t ↦ rw t (nonempty-is_decimal [] [] (48 + n) (rw t at (decimal_from-digits (suc n) n)))
  | inr t ↦ rw t (
      nonempty-is_decimal (decimal_from n (n / 10)) [] (48 + n % 10)
        (rw t at (decimal_from-digits (suc n) n)))
]

decimal-value : (n : ℕ) → digits_value 10 0 (decimal n) ≡ some n
unfolding decimal
decimal-value n = decimal_from-value (suc n) n (omega arith)

parse_decimal-decimal : (bits n : ℕ) → n < 2 ^ bits → parse_decimal bits (decimal n) ≡ some n
parse_decimal-decimal bits n h =
    let t : ltb n (2 ^ bits) ≡ true = ground arith in
    ap (sized_value bits) (decimal-value n) ∙ ap (λ b. if b then some n else none) t

-- A device number whose parts are within the kernel's limits, and that unix.Mkdev joins again from
-- the parts that unix.Major and unix.Minor take, is read back from its printed form.
pub parse_devnum-format_devnum :
    (major minor : ℕ → ℕ) (mkdev : ℕ → ℕ → ℕ) (dev : ℕ)
    → mkdev (major dev) (minor dev) ≡ dev
    → major dev < 2 ^ 12
    → minor dev < 2 ^ 20
    → parse_devnum major minor mkdev (format_devnum major minor mkdev dev) ≡ ok dev
unfolding parse_devnum format_devnum
parse_devnum-format_devnum major minor mkdev dev e a b =
    let da = decimal-is_decimal (major dev) in
    let db = decimal-is_decimal (minor dev) in
    let pa = parse_decimal-decimal 32 (major dev) (omega arith) in
    let pb = parse_decimal-decimal 32 (minor dev) (omega arith) in
    let la : (leb (2 ^ 12) (major dev) || leb (2 ^ 20) (minor dev)) ≡ false = ground arith in
    ap (devnum_of major minor mkdev _) (
      cut-append b':' (decimal (major dev)) (decimal (minor dev)) (
        has_byte-all_bytes is_digit b':' (decimal (major dev)) refl
          (unfold decimal in decimal_from-digits (suc (major dev)) (major dev))))
    ∙ ap₂
        (λ x y.
          if not x || not y
          then err invalid
          else joined_devnum major minor mkdev (parse_decimal 32 (decimal (major dev)))
              (parse_decimal 32 (decimal (minor dev))))
        da db
    ∙ ap₂ (joined_devnum major minor mkdev) pa pb
    ∙ ap (λ t. if t then err out_of_range else ok (mkdev (major dev) (minor dev))) la
    ∙ ap ok e
