-- ===== src/Image/Table/Reads.antt =====
-- internal/image/gpt.go: the offsets at which a GPT is read.
use native.Mathlib.Nat.{mul-div-le, mul-le-mul_right, mul_comm}
use sysext_alpine.Base.{
  ℕ, ◌-◌, ◌*◌, ◌/◌, ◌^◌, ◌≤◌, ◌<◌, ◌≡◌, refl, ap, ap₂, ◌∙◌, inl, inr, true, false, not, ◌||◌,
  Option, none, Result, ok, err, ◌>>=◌, Bytes, ltb, ◌==◌, if◌then◌else◌, Bool-cases, arith,
}
use sysext_alpine.Image.Table.{
  le_at, bad_sector_size, too_small, readable, parse_gpt_at, or_alternate, bad_size, parse_gpt,
}
use sysext_alpine.Image.Table.Bounds.{check_header-IsHeader}

same_call-cong :
    {E A B : Type 0} (m : Result E A) (f g : A → Result E B)
    → ((a : A) → m ≡ ok a → f a ≡ g a)
    → (m >>= f) ≡ (m >>= g)
same_call-cong (ok a) f g h = h a refl
same_call-cong (err e) f g h = refl

bind-cong :
    {E A B : Type 0} (m n : Result E A) (f g : A → Result E B)
    → m ≡ n
    → ((a : A) → n ≡ ok a → f a ≡ g a)
    → (m >>= f) ≡ (n >>= g)
bind-cong m n f g e h = ap (λ x. x >>= f) e ∙ same_call-cong n f g h

in_reach : (x n ss : ℕ) → x ≤ n / ss → x * ss ≤ n
in_reach x n ss h = omega (arith, mul-le-mul_right ss h, mul-div-le n ss, mul_comm ss (n / ss))

small_size :
    (ss : ℕ) → not (ss == 512 || ss == 1024 || ss == 2048 || ss == 4096) ≡ false → 1 * ss < 2 ^ 63
small_size ss h = ground arith

-- A file that can be read only at offsets that an int64 holds.
abbrev pub int64_reads :
    {E : Type 0} → (ℕ → ℕ → Result (Option E) Bytes) → ℕ → ℕ → Result (Option E) Bytes
int64_reads read off n = if ltb off (2 ^ 63) then read off n else err none

module _ {E : Type 0} (read : ℕ → ℕ → Result (Option E) Bytes) (crc : Bytes → ℕ) where
  readable-int64_reads :
      (off n : ℕ) → off < 2 ^ 63 → readable (int64_reads read) crc off n ≡ readable read crc off n
  readable-int64_reads off n h =
      let b : ltb off (2 ^ 63) ≡ true = ground arith in
      ap (λ t. readable (λ o m. if t then read off n else err none) crc off n) b

  parse_gpt_at-int64_reads :
      (lba last_lba ss : ℕ)
      → lba * ss < 2 ^ 63
      → parse_gpt_at (int64_reads read) crc lba last_lba ss ≡ parse_gpt_at read crc lba last_lba ss
  unfolding parse_gpt_at
  parse_gpt_at-int64_reads lba last_lba ss h =
      bind-cong _ _ _ _ (readable-int64_reads (lba * ss) ss h) (λ hdr e.
        bind-cong _ _ _ _ refl (λ u c.
          let k = check_header-IsHeader {E = E} crc lba last_lba ss hdr c in
          let reach = in_reach (le_at 72 8 hdr) (2 ^ 63 - 1) ss k.entries_in_reach in
          bind-cong _ _ _ _
            (readable-int64_reads (le_at 72 8 hdr * ss) (le_at 80 4 hdr * 128) (omega arith))
            (λ entries r. refl)))

  -- Reading a GPT never asks for an offset beyond an int64, whatever the header claims: on a file
  -- that refuses such offsets the parser does the same.
  pub parse_gpt-int64_reads :
      (size ss : ℕ)
      → size < 2 ^ 63
      → parse_gpt (int64_reads read) crc size ss ≡ parse_gpt read crc size ss
  unfolding parse_gpt
  parse_gpt-int64_reads size ss w =
      let n = size / ss in
      let last : (n - 1) * ss < 2 ^ 63 = omega (arith, in_reach (n - 1) size ss (omega arith)) in
      elim (Bool-cases (bad_size read crc ss)) [
        | inl b ↦ rw b
        | inr b ↦
            ap₂
              (λ x y.
                if bad_size read crc ss
                then err bad_sector_size
                else if ltb n 3
                then err too_small
                else or_alternate read crc x y)
              (parse_gpt_at-int64_reads 1 (n - 1) ss (small_size ss b))
              (parse_gpt_at-int64_reads (n - 1) (n - 1) ss last)
      ]
