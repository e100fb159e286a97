-- ===== src/Image/Ids/Laws.antt =====
-- internal/image/dissect.go: UUIDs and the bytes that they print.
use sysext_alpine.Base.{
  ℕ, zero, suc, ◌+◌, ◌-◌, ◌*◌, ◌/◌, ◌%◌, ◌<◌, ◌≤◌, append_assoc, length-append, ◌≡◌, refl, sym, ap,
  ap₂, ◌∙◌, false, [], ◌∷◌, ◌++◌, none, some, ok, Bytes, same, ◌==◌, length, take, drop,
  if◌then◌else◌, All, arith,
}
use sysext_alpine.Image.Ids.{
  hex_digit, hex, uuid_string, hex_value, joined_byte, unhex, without_dashes, sized_id, uuid_bytes,
  zero_id, root_hash_uuids,
}

abbrev pub IsByte : ℕ → Type 0
IsByte c = c < 256

hex_value-hex_digit : (n : ℕ) → n < 16 → hex_value (hex_digit n) ≡ some n
hex_value-hex_digit n h = ground arith

hex_digit-not_dash : (n : ℕ) → n < 16 → (hex_digit n == b'-') ≡ false
hex_digit-not_dash n h = ground arith

unhex-hex : (s : Bytes) → All IsByte s → unhex (hex s) ≡ some s
unfolding unhex hex
unhex-hex [] h = refl
unhex-hex (c ∷ s) h =
    let high : c / 16 < 16 = omega arith in
    let low : c % 16 < 16 = omega arith in
    let whole : c / 16 * 16 + c % 16 ≡ c = omega arith in
    ap₂ (λ a b. joined_byte a b (unhex (hex s))) (hex_value-hex_digit (c / 16) high)
      (hex_value-hex_digit (c % 16) low)
    ∙ ap (joined_byte (some (c / 16)) (some (c % 16))) (unhex-hex s h.1)
    ∙ ap (λ d. some (d ∷ s)) whole

without_dashes-append :
    (s t : Bytes) → without_dashes (s ++ t) ≡ without_dashes s ++ without_dashes t
unfolding without_dashes
without_dashes-append [] t = refl
without_dashes-append (c ∷ s) t = ground (arith, without_dashes-append s t)

without_dashes-hex : (s : Bytes) → All IsByte s → without_dashes (hex s) ≡ hex s
unfolding without_dashes hex
without_dashes-hex [] h = refl
without_dashes-hex (c ∷ s) h =
    let high : c / 16 < 16 = omega arith in
    let low : c % 16 < 16 = omega arith in
    rw (hex_digit-not_dash (c / 16) high, hex_digit-not_dash (c % 16) low)
      (ap (λ t. hex_digit (c / 16) ∷ hex_digit (c % 16) ∷ t) (without_dashes-hex s h.1))

abbrev dbl : ℕ → ℕ
dbl zero = 0
dbl (suc n) = suc (suc (dbl n))

take-hex : (n : ℕ) (s : Bytes) → take (dbl n) (hex s) ≡ hex (take n s)
unfolding hex
take-hex zero s = refl
take-hex (suc n) [] = refl
take-hex (suc n) (c ∷ s) = ap (λ t. hex_digit (c / 16) ∷ hex_digit (c % 16) ∷ t) (take-hex n s)

drop-hex : (n : ℕ) (s : Bytes) → drop (dbl n) (hex s) ≡ hex (drop n s)
unfolding hex
drop-hex zero s = refl
drop-hex (suc n) [] = refl
drop-hex (suc n) (c ∷ s) = drop-hex n s

take-drop : (n : ℕ) (s : Bytes) → take n s ++ drop n s ≡ s
take-drop zero s = refl
take-drop (suc n) [] = refl
take-drop (suc n) (c ∷ s) = ap (λ t. c ∷ t) (take-drop n s)

drop_nil : (k : ℕ) → drop {A = ℕ} k [] ≡ []
drop_nil zero = refl
drop_nil (suc k) = refl

drop-drop : (n m : ℕ) (s : Bytes) → drop m (drop n s) ≡ drop (n + m) s
drop-drop zero m s = ap (λ k. drop k s) (omega arith)
drop-drop (suc n) m [] = drop_nil m ∙ sym (drop_nil (suc n + m))
drop-drop (suc n) m (c ∷ s) =
    let sum : suc (n + m) ≡ suc n + m = omega arith in
    drop-drop n m s ∙ ap (λ k. drop k (c ∷ s)) sum

take_all : (n : ℕ) (s : Bytes) → length s ≤ n → take n s ≡ s
take_all zero [] h = refl
take_all zero (c ∷ s) h = absurd (omega arith)
take_all (suc n) [] h = refl
take_all (suc n) (c ∷ s) h = ap (λ t. c ∷ t) (take_all n s (omega arith))

length-drop : (n : ℕ) (s : Bytes) → length (drop n s) ≡ length s - n
length-drop zero s = omega arith
length-drop (suc n) [] = omega arith
length-drop (suc n) (c ∷ s) = omega (arith, length-drop n s)

All-take : (P : ℕ → Type 0) (n : ℕ) (s : Bytes) → All P s → All P (take n s)
All-take P zero s h = tt
All-take P (suc n) [] h = tt
All-take P (suc n) (c ∷ s) h = (h.0, All-take P n s h.1)

All-drop : (P : ℕ → Type 0) (n : ℕ) (s : Bytes) → All P s → All P (drop n s)
All-drop P zero s h = h
All-drop P (suc n) [] h = tt
All-drop P (suc n) (c ∷ s) h = All-drop P n s h.1

hex-append : (s t : Bytes) → hex (s ++ t) ≡ hex s ++ hex t
unfolding hex
hex-append [] t = refl
hex-append (c ∷ s) t = ap (λ r. hex_digit (c / 16) ∷ hex_digit (c % 16) ∷ r) (hex-append s t)

group-without_dashes :
    (x : Bytes) (r : Bytes)
    → All IsByte x
    → without_dashes (hex x ++ (b'-' ∷ r)) ≡ hex x ++ without_dashes r
unfolding without_dashes
group-without_dashes x r h =
    without_dashes-append (hex x) (b'-' ∷ r)
    ∙ ap (λ t. t ++ without_dashes r) (without_dashes-hex x h)

-- The groups of a UUID.
groups_eq :
    (b : Bytes)
    → length b ≡ 16
    → take 4 b
        ++ (take 2 (drop 4 b) ++ (take 2 (drop 6 b) ++ (take 2 (drop 8 b) ++ take 6 (drop 10 b))))
      ≡ b
groups_eq b h =
    ap (λ t. take 4 b ++ (take 2 (drop 4 b) ++ (take 2 (drop 6 b) ++ (take 2 (drop 8 b) ++ t))))
      (take_all 6 (drop 10 b) (omega (arith, length-drop 10 b)) ∙ sym (drop-drop 8 2 b))
    ∙ ap (λ t. take 4 b ++ (take 2 (drop 4 b) ++ (take 2 (drop 6 b) ++ t)))
        (take-drop 2 (drop 8 b) ∙ sym (drop-drop 6 2 b))
    ∙ ap (λ t. take 4 b ++ (take 2 (drop 4 b) ++ t))
        (take-drop 2 (drop 6 b) ∙ sym (drop-drop 4 2 b))
    ∙ ap (λ t. take 4 b ++ t) (take-drop 2 (drop 4 b))
    ∙ take-drop 4 b

part : (n m : ℕ) (b : Bytes) → take (dbl n) (drop (dbl m) (hex b)) ≡ hex (take n (drop m b))
part n m b = ap (take (dbl n)) (drop-hex m b) ∙ take-hex n (drop m b)

nested : (s t u v w : Bytes) → (((s ++ t) ++ u) ++ v) ++ w ≡ s ++ (t ++ (u ++ (v ++ w)))
nested s t u v w =
    append_assoc ((s ++ t) ++ u) v w
    ∙ append_assoc (s ++ t) u (v ++ w)
    ∙ append_assoc s t (u ++ (v ++ w))

uuid_string-hex :
    (b : Bytes)
    → uuid_string b
      ≡ hex (take 4 b)
        ++ (b'-'
            ∷ (hex (take 2 (drop 4 b))
                ++ (b'-'
                    ∷ (hex (take 2 (drop 6 b))
                        ++ (b'-'
                            ∷ (hex (take 2 (drop 8 b)) ++ (b'-' ∷ hex (take 6 (drop 10 b)))))))))
unfolding uuid_string
uuid_string-hex b =
    ap₂
      (λ x y.
        (((x ++ (b'-' ∷ y)) ++ (b'-' ∷ take 4 (drop 12 (hex b))))
          ++ (b'-' ∷ take 4 (drop 16 (hex b))))
        ++ (b'-' ∷ take 12 (drop 20 (hex b))))
      (take-hex 4 b) (part 2 4 b)
    ∙ ap₂
        (λ x y.
          (((hex (take 4 b) ++ (b'-' ∷ hex (take 2 (drop 4 b)))) ++ (b'-' ∷ x)) ++ (b'-' ∷ y))
          ++ (b'-' ∷ take 12 (drop 20 (hex b))))
        (part 2 6 b) (part 2 8 b)
    ∙ ap
        (λ x.
          (((hex (take 4 b) ++ (b'-' ∷ hex (take 2 (drop 4 b))))
              ++ (b'-' ∷ hex (take 2 (drop 6 b))))
            ++ (b'-' ∷ hex (take 2 (drop 8 b))))
          ++ (b'-' ∷ x))
        (part 6 10 b)
    ∙ nested (hex (take 4 b)) (b'-' ∷ hex (take 2 (drop 4 b))) (b'-' ∷ hex (take 2 (drop 6 b)))
        (b'-' ∷ hex (take 2 (drop 8 b))) (b'-' ∷ hex (take 6 (drop 10 b)))

without_dashes-uuid_string :
    (b : Bytes) → length b ≡ 16 → All IsByte b → without_dashes (uuid_string b) ≡ hex b
unfolding without_dashes
without_dashes-uuid_string b n h =
    ap without_dashes (uuid_string-hex b)
    ∙ group-without_dashes (take 4 b) _ (All-take IsByte 4 b h)
    ∙ ap (λ t. hex (take 4 b) ++ t)
        (group-without_dashes (take 2 (drop 4 b)) _ (All-take IsByte 2 _ (All-drop IsByte 4 b h))
          ∙ ap (λ t. hex (take 2 (drop 4 b)) ++ t)
              (group-without_dashes (take 2 (drop 6 b)) _
                  (All-take IsByte 2 _ (All-drop IsByte 6 b h))
                ∙ ap (λ t. hex (take 2 (drop 6 b)) ++ t)
                    (group-without_dashes (take 2 (drop 8 b)) _
                        (All-take IsByte 2 _ (All-drop IsByte 8 b h))
                      ∙ ap (λ t. hex (take 2 (drop 8 b)) ++ t)
                          (without_dashes-hex (take 6 (drop 10 b))
                            (All-take IsByte 6 _ (All-drop IsByte 10 b h)))
                      ∙ sym (hex-append (take 2 (drop 8 b)) _))
                ∙ sym (hex-append (take 2 (drop 6 b)) _))
          ∙ sym (hex-append (take 2 (drop 4 b)) _))
    ∙ sym (hex-append (take 4 b) _)
    ∙ ap hex (groups_eq b n)

-- The printed form of 16 bytes reads as these bytes.
pub uuid_bytes-uuid_string :
    (b : Bytes) → length b ≡ 16 → All IsByte b → uuid_bytes (uuid_string b) ≡ some b
unfolding uuid_bytes
uuid_bytes-uuid_string b n h =
    ap (λ t. sized_id (unhex t)) (without_dashes-uuid_string b n h)
    ∙ ap sized_id (unhex-hex b h)
    ∙ ap (λ k. if k == 16 then some b else none) n

length-append_16 : (a b : Bytes) → length a ≡ 16 → length b ≡ 16 → length (a ++ b) ≡ 32
length-append_16 a b h k = omega (arith, length-append a b)

take-append : (n : ℕ) (s t : Bytes) → length s ≡ n → take n (s ++ t) ≡ s
take-append zero [] t h = refl
take-append zero (c ∷ s) t h = absurd (omega arith)
take-append (suc n) [] t h = absurd (omega arith)
take-append (suc n) (c ∷ s) t h = ap (λ r. c ∷ r) (take-append n s t (omega arith))

drop-append : (n : ℕ) (s t : Bytes) → length s ≡ n → drop n (s ++ t) ≡ t
drop-append zero [] t h = refl
drop-append zero (c ∷ s) t h = absurd (omega arith)
drop-append (suc n) [] t h = absurd (omega arith)
drop-append (suc n) (c ∷ s) t h = drop-append n s t (omega arith)

-- A root hash that joins two 16-byte UUIDs, neither of them zero, is cut back into the two.
pub root_hash_uuids-append :
    (a b : Bytes)
    → length a ≡ 16
    → length b ≡ 16
    → same (uuid_string a) zero_id ≡ false
    → same (uuid_string b) zero_id ≡ false
    → root_hash_uuids (a ++ b) ≡ ok (uuid_string a, uuid_string b)
unfolding root_hash_uuids
root_hash_uuids-append a b h k y z =
    rw (length-append_16 a b h k, take-append 16 a b h, drop-append 16 a b h, y, z) refl
