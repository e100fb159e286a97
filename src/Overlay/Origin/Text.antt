-- ===== src/Overlay/Origin/Text.antt =====
-- internal/overlay/origin.go, `formatJSONString`: a printed string reads back.
use sysext_alpine.Base.{
  ℕ, zero, suc, ◌+◌, ◌-◌, ◌*◌, ◌/◌, ◌%◌, ◌<◌, ◌≡◌, refl, sym, ap, subst, ◌∙◌, ==_iff, append_assoc,
  Bool, true, false, ◌&&◌, ◌||◌, [], ◌∷◌, ◌++◌, Option, none, some, Bytes, codes, length, ltb, ◌==◌,
  if◌then◌else◌, arith,
}
use sysext_alpine.Release.Names.{valid_utf8}
use sysext_alpine.Overlay.Origin.{hex_digit, json_byte, json_bytes, format_json_string}

abbrev pub is_hex_digit : ℕ → Bool
is_hex_digit x = ltb 47 x && ltb x 58 || ltb 64 x && ltb x 71 || ltb 96 x && ltb x 103

-- The value of a hexadecimal digit.
abbrev pub digit_value : ℕ → ℕ
digit_value x = if ltb x 58 then x - 48 else if ltb x 71 then x - 55 else x - 87

-- A code below 128, which is one byte of UTF-8; the reader takes no other.
abbrev ascii_only : Bool → ℕ → Bytes → Option (ℕ × Bytes)
ascii_only hex n s = if hex && ltb n 128 then some (n, s) else none

abbrev four_digits : Bytes → Option (ℕ × Bytes)
four_digits (a ∷ b ∷ c ∷ d ∷ s) =
    ascii_only (is_hex_digit a && is_hex_digit b && is_hex_digit c && is_hex_digit d)
      (((digit_value a * 16 + digit_value b) * 16 + digit_value c) * 16 + digit_value d) s
four_digits s = none

-- What stands behind a backslash: one of the escapes of RFC 8259, section 7.
abbrev escaped : Bytes → Option (ℕ × Bytes)
escaped [] = none
escaped (e ∷ s) =
    if e == b'u'
    then four_digits s
    else if e == b'b'
    then some (8, s)
    else if e == b'f'
    then some (12, s)
    else if e == b'n'
    then some (10, s)
    else if e == b'r'
    then some (13, s)
    else if e == b't'
    then some (9, s)
    else if e == b'"' || e == 92 || e == b'/'
    then some (e, s)
    else none

-- A control character must not stand unescaped.
abbrev read_one : ℕ → Bytes → Option (ℕ × Bytes)
read_one c s = if c == 92 then escaped s else if ltb c 32 then none else some (c, s)

abbrev onto : ℕ → Option (Bytes × Bytes) → Option (Bytes × Bytes)
onto c none = none
onto c (some (w, s)) = some (c ∷ w, s)

abbrev and_more : Option (ℕ × Bytes) → (Bytes → Option (Bytes × Bytes)) → Option (Bytes × Bytes)
and_more none next = none
and_more (some (c, s)) next = onto c (next s)

-- The bytes up to the closing quote, and what follows it; at most `n` bytes and escapes.
unfoldable pub read_chars : ℕ → Bytes → Option (Bytes × Bytes)
read_chars zero s = none
read_chars (suc n) [] = none
read_chars (suc n) (c ∷ s) =
    if c == b'"' then some ([], s) else and_more (read_one c s) (read_chars n)

-- Text that is not UTF-8 is not JSON; nor does this reader take NUL and noncharacters.
abbrev only_utf8 : Option (Bytes × Bytes) → Option (Bytes × Bytes)
only_utf8 none = none
only_utf8 (some (w, s)) = if valid_utf8 w then some (w, s) else none

-- A JSON string of RFC 8259, and what follows it.
unfoldable pub read_json_string : ℕ → Bytes → Option (Bytes × Bytes)
read_json_string n [] = none
read_json_string n (c ∷ s) = if c == b'"' then only_utf8 (read_chars n s) else none

digit_value-hex_digit : (n : ℕ) → n < 16 → digit_value (hex_digit n) ≡ n
digit_value-hex_digit n h = ground arith

is_hex_digit-hex_digit : (n : ℕ) → n < 16 → is_hex_digit (hex_digit n) ≡ true
is_hex_digit-hex_digit n h = ground arith

low_digits :
    (c : ℕ)
    → ltb c 32 ≡ true
    → (0 + digit_value (hex_digit (c / 16))) * 16 + digit_value (hex_digit (c % 16)) ≡ c
low_digits c h =
    rw (digit_value-hex_digit (c / 16) (ground arith), digit_value-hex_digit (c % 16) (omega arith))
      (omega arith)

hex_low_digits :
    (c : ℕ)
    → ltb c 32 ≡ true
    → (is_hex_digit (hex_digit (c / 16)) && is_hex_digit (hex_digit (c % 16))) ≡ true
hex_low_digits c h =
    rw
      (
        is_hex_digit-hex_digit (c / 16) (ground arith),
        is_hex_digit-hex_digit (c % 16) (omega arith),
      )
      refl

ascii_only-small :
    (b : Bool) (m c : ℕ) (s : Bytes)
    → b ≡ true
    → m ≡ c
    → ltb c 32 ≡ true
    → ascii_only b m s ≡ some (c, s)
ascii_only-small b m c s h k l = rw h (rw k (rw (small c l) refl))
  where
    small : (c : ℕ) → ltb c 32 ≡ true → ltb c 128 ≡ true
    small c l = ground arith

module _ (n : ℕ) (s : Bytes) where
  -- The text reads as the byte.
  abbrev ReadsAs : Bytes → ℕ → Type 0
  ReadsAs text c = read_chars (suc n) (text ++ s) ≡ onto c (read_chars n s)

  if-ReadsAs :
      (c k : ℕ) (x y : Bytes) (b : Bool)
      → (c == k) ≡ b
      → ReadsAs x k
      → ((c == k) ≡ false → ReadsAs y c)
      → ReadsAs (if b then x else y) c
  if-ReadsAs c k x y true e h f = subst (ReadsAs x) (sym ((==_iff c k).0 e)) h
  if-ReadsAs c k x y false e h f = f e

  test-ReadsAs :
      (c k : ℕ) (x y : Bytes)
      → ReadsAs x k
      → ((c == k) ≡ false → ReadsAs y c)
      → ReadsAs (if c == k then x else y) c
  test-ReadsAs c k x y h f = if-ReadsAs c k x y (c == k) refl h f

  plain-ReadsAs :
      (c : ℕ) → (c == b'"') ≡ false → (c == 92) ≡ false → ltb c 32 ≡ false → ReadsAs (c ∷ []) c
  unfolding read_chars
  plain-ReadsAs c h k l = rw h (rw k (rw l refl))

  control-ReadsAs :
      (c : ℕ)
      → ltb c 32 ≡ true
      → ReadsAs (codes "\\u00" ++ (hex_digit (c / 16) ∷ hex_digit (c % 16) ∷ [])) c
  unfolding read_chars
  control-ReadsAs c h =
      ap (λ x. and_more x (read_chars n))
        (ascii_only-small _ _ c s (hex_low_digits c h) (low_digits c h) h)

  last-ReadsAs :
      (c : ℕ) (b : Bool)
      → ltb c 32 ≡ b
      → (c == b'"') ≡ false
      → (c == 92) ≡ false
      → ReadsAs
          (if b then codes "\\u00" ++ (hex_digit (c / 16) ∷ hex_digit (c % 16) ∷ []) else c ∷ [])
          c
  last-ReadsAs c true e h k = control-ReadsAs c e
  last-ReadsAs c false e h k = plain-ReadsAs c h k e

  json_byte-ReadsAs : (c : ℕ) → ReadsAs (json_byte c) c
  unfolding json_byte read_chars
  json_byte-ReadsAs c = test-ReadsAs c b'"' _ _ refl (λ h. test-ReadsAs c 92 _ _ refl (λ k.
      test-ReadsAs c 8 _ _ refl (λ x. test-ReadsAs c 12 _ _ refl (λ x.
        test-ReadsAs c 10 _ _ refl (λ x.
          test-ReadsAs c 13 _ _ refl
            (λ x. test-ReadsAs c 9 _ _ refl (λ x. last-ReadsAs c (ltb c 32) refl h k)))))))

read_chars-json_bytes :
    (s rest : Bytes) (n : ℕ)
    → length s < n
    → read_chars n (json_bytes s ++ (b'"' ∷ rest)) ≡ some (s, rest)
unfolding json_bytes read_chars
read_chars-json_bytes [] rest (suc n) h = refl
read_chars-json_bytes s rest zero h = absurd (omega arith)
read_chars-json_bytes (c ∷ s) rest (suc n) h =
    ap (λ t. read_chars (suc n) t) (append_assoc (json_byte c) (json_bytes s) (b'"' ∷ rest))
    ∙ (json_byte-ReadsAs n (json_bytes s ++ (b'"' ∷ rest)) c
        ∙ ap (onto c) (read_chars-json_bytes s rest n (omega arith)))

-- A printed string that is UTF-8 without NUL and noncharacters, followed by anything, is a JSON string: a reader that refuses
-- unescaped control characters, unknown escapes, bad hexadecimal digits and text that is not UTF-8 reads
-- back the string that was printed, and what follows it.
pub read_json_string-format_json_string :
    (s rest : Bytes) (n : ℕ)
    → length s < n
    → valid_utf8 s ≡ true
    → read_json_string n (format_json_string s ++ rest) ≡ some (s, rest)
unfolding format_json_string read_json_string
read_json_string-format_json_string s rest n h k =
    ap (λ t. only_utf8 (read_chars n t)) (append_assoc (json_bytes s) (b'"' ∷ []) rest)
    ∙ ap only_utf8 (read_chars-json_bytes s rest n h)
    ∙ rw k refl
