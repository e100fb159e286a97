-- ===== src/Image/Table/Bounds.antt =====
-- internal/image/gpt.go: the partitions of a GPT lie within the image.
use native.Mathlib.Nat.{div-le_self}
use sysext_alpine.Base.{
  ℕ, zero, suc, ◌+◌, ◌-◌, ◌*◌, ◌/◌, ◌%◌, ◌^◌, ◌≤◌, ◌<◌, ◌≡◌, refl, subst, inl, inr, Bool, true,
  false, not, ◌||◌, ◌⊎◌, List, Option, none, some, Result, ok, err, >>=-eq-ok, refuse, refuse-ok,
  >>-ok, ok_eq, some_eq, if_result, if_result-eq, Bytes, same, ltb, ◌==◌, take, drop, if◌then◌else◌,
  All, arith,
}
use sysext_alpine.Image.Gpt.{Partition}
use sysext_alpine.Image.Table.{
  le_at, gpt_signature, TableError, bad_sector_size, too_small, no_header, bad_header_size,
  bad_header_crc, wrong_lba, bad_range, bad_entry_size, bad_count, bad_array_crc, gpt_entry,
  cons_some, gpt_entries, without_crc, check_header, readable, parse_gpt_at, or_alternate, bad_size,
  parse_gpt,
}

-- The partition has a number that the table can hold, is not empty, and ends within `n` sectors.
pub record IsWithin (n : ℕ) (p : Partition) : Type 0 where
  pub numbered : 1 ≤ p.part_index
  pub few : p.part_index ≤ 1024
  pub not_empty : 1 ≤ p.sectors
  pub ends : p.start + p.sectors ≤ n

if_none :
    {A : Type 0} (b : Bool) (x y : A)
    → (if b then none else some x) ≡ some y
    → (b ≡ false) × (x ≡ y)
if_none true x y h = cc
if_none false x y h = (refl, some_eq h)

size-eq : (f l : ℕ) → f ≤ l → l < 2 ^ 63 → (l + 2 ^ 64 - f + 1) % 2 ^ 64 ≡ l - f + 1
size-eq f l h k = omega arith

-- The tests on the first and the last sector of an entry.
in_usable :
    (z : Bool) (f l fu lu : ℕ) → (z || ltb l f || ltb f fu || ltb lu l) ≡ false → (f ≤ l) × (l ≤ lu)
in_usable z f l fu lu h = ground arith

gpt_entry-IsWithin :
    (i fu lu n : ℕ) (e : Bytes) (p : Partition)
    → lu + 1 ≤ n
    → n < 2 ^ 63
    → i < 1024
    → gpt_entry i fu lu e ≡ some p
    → IsWithin n p
unfolding gpt_entry
gpt_entry-IsWithin i fu lu n e p b w c h =
    let (t, q) = if_none _ _ p h in
    let (f, l) = in_usable _ (le_at 32 8 e) (le_at 40 8 e) fu lu t in
    let m = size-eq (le_at 32 8 e) (le_at 40 8 e) f (omega arith) in
    subst (IsWithin n) q (record {
      numbered = omega arith;
      few = omega arith;
      not_empty = omega arith;
      ends = omega arith;
    })

All-cons_some :
    (P : Partition → Type 0) (o : Option Partition) (ps : List Partition)
    → ((p : Partition) → o ≡ some p → P p)
    → All P ps
    → All P (cons_some o ps)
All-cons_some P none ps h k = k
All-cons_some P (some p) ps h k = (h p refl, k)

gpt_entries-IsWithin :
    (m i fu lu n : ℕ) (b : Bytes)
    → lu + 1 ≤ n
    → n < 2 ^ 63
    → i + m ≤ 1024
    → All (IsWithin n) (gpt_entries m i fu lu b)
unfolding gpt_entries
gpt_entries-IsWithin zero i fu lu n b l w c = tt
gpt_entries-IsWithin (suc m) i fu lu n b l w c =
    All-cons_some (IsWithin n) (gpt_entry i fu lu (take 128 b)) _
      (λ p h. gpt_entry-IsWithin i fu lu n (take 128 b) p l w (omega arith) h)
      (gpt_entries-IsWithin m (suc i) fu lu n (drop 128 b) l w (omega arith))

-- What a header that passed its checks says.
pub record IsHeader (last_lba ss : ℕ) (hdr : Bytes) : Type 0 where
  pub usable : le_at 48 8 hdr ≤ last_lba
  pub counted : le_at 80 4 hdr ≤ 1024
  pub entries_in_reach : le_at 72 8 hdr ≤ (2 ^ 63 - 1) / ss

pub not-ltb : (a b : ℕ) → ltb a b ≡ false → b ≤ a
not-ltb a b h = ground arith

or-false : (a b : Bool) → (a || b) ≡ false → b ≡ false
or-false a b h = ground arith

or-false_left : (a b : Bool) → (a || b) ≡ false → a ≡ false
or-false_left a b h = ground arith

pub check_header-IsHeader :
    {E : Type 0} (crc : Bytes → ℕ) (lba last_lba ss : ℕ) (hdr : Bytes)
    → check_header {E = E} crc lba last_lba ss hdr ≡ ok tt
    → IsHeader last_lba ss hdr
unfolding check_header
check_header-IsHeader {E = E} crc lba last_lba ss hdr h =
    let hsz = le_at 12 4 hdr in
    let b1 =
      >>-ok (refuse {E = TableError E} (not (same (take 8 hdr) gpt_signature)) no_header) _ h in
    let b2 = >>-ok (refuse {E = TableError E} (ltb hsz 92 || ltb ss hsz) bad_header_size) _ b1.1 in
    let b3 =
      >>-ok
        (refuse {E = TableError E} (not (crc (without_crc (take hsz hdr)) == le_at 16 4 hdr))
          bad_header_crc)
        _ b2.1 in
    let b4 = >>-ok (refuse {E = TableError E} (not (le_at 24 8 hdr == lba)) wrong_lba) _ b3.1 in
    let b5 =
      >>-ok
        (refuse {E = TableError E}
          (ltb (le_at 48 8 hdr) (le_at 40 8 hdr) || ltb last_lba (le_at 48 8 hdr)) bad_range)
        _ b4.1 in
    let b6 =
      >>-ok (refuse {E = TableError E} (not (le_at 84 4 hdr == 128)) bad_entry_size) _ b5.1 in
    let b7 =
      >>-ok (refuse {E = TableError E} (le_at 80 4 hdr == 0 || ltb 1024 (le_at 80 4 hdr)) bad_count)
        _ b6.1 in
    record {
      usable = not-ltb last_lba (le_at 48 8 hdr) (or-false _ _ (refuse-ok _ _ b5.0));
      counted = not-ltb 1024 (le_at 80 4 hdr) (or-false _ _ (refuse-ok _ _ b7.0));
      entries_in_reach =
          not-ltb ((2 ^ 63 - 1) / ss) (le_at 72 8 hdr) (or-false _ _ (refuse-ok _ _ b7.1));
    }

div_small : (a b : ℕ) → a < 2 ^ 63 → a / b < 2 ^ 63
div_small a b h = omega (arith, div-le_self a b)

module _ {E : Type 0} (read : ℕ → ℕ → Result (Option E) Bytes) (crc : Bytes → ℕ) where
  parse_gpt_at-IsWithin :
      (lba last_lba ss n : ℕ) (ps : List Partition)
      → last_lba + 1 ≤ n
      → n < 2 ^ 63
      → parse_gpt_at read crc lba last_lba ss ≡ ok ps
      → All (IsWithin n) ps
  unfolding parse_gpt_at
  parse_gpt_at-IsWithin lba last_lba ss n ps l w h =
      let a = >>=-eq-ok (readable read crc (lba * ss) ss) _ h in
      let hdr = a.0 in
      let b = >>-ok (check_header {E = E} crc lba last_lba ss hdr) _ a.2 in
      let c = >>=-eq-ok (readable read crc (le_at 72 8 hdr * ss) (le_at 80 4 hdr * 128)) _ b.1 in
      let d =
        >>-ok (refuse {E = TableError E} (not (crc c.0 == le_at 88 4 hdr)) bad_array_crc) _ c.2 in
      let k = check_header-IsHeader {E = E} crc lba last_lba ss hdr b.0 in
      subst (All (IsWithin n)) (ok_eq d.1) (
        gpt_entries-IsWithin (le_at 80 4 hdr) 0 (le_at 40 8 hdr) (le_at 48 8 hdr) n c.0
          (omega (arith, k.usable)) w (omega (arith, k.counted)))

  or_alternate-cases :
      (a b : Result (TableError E) (List Partition)) (ps : List Partition)
      → or_alternate read crc a b ≡ ok ps
      → (a ≡ ok ps) ⊎ (b ≡ ok ps)
  or_alternate-cases (ok x) b ps h = inl h
  or_alternate-cases (err e) (ok x) ps h = inr h
  or_alternate-cases (err e) (err f) ps h = cc

  -- Every partition that a GPT yields, from the primary or the alternate header, is numbered from 1
  -- to 1024, has at least one sector and ends within the sectors of the image, whose size is an
  -- int64. The number of its sectors is the one that the code counts modulo 2^64.
  pub parse_gpt-IsWithin :
      (size ss : ℕ) (ps : List Partition)
      → size < 2 ^ 63
      → parse_gpt read crc size ss ≡ ok ps
      → All (IsWithin (size / ss)) ps
  unfolding parse_gpt
  parse_gpt-IsWithin size ss ps w h =
      let n = size / ss in
      if_result (bad_size read crc ss) (err bad_sector_size) _ (λ e. cc)
        (λ e.
          if_result-eq (ltb n 3) (err too_small) _ (λ t f. cc)
            (λ t f.
              let large : 3 ≤ n = not-ltb n 3 t in
              let last : n - 1 + 1 ≤ n = omega arith in
              let small : n < 2 ^ 63 = div_small size ss w in
              elim (or_alternate-cases _ _ ps f) [
                | inl p ↦ parse_gpt_at-IsWithin 1 (n - 1) ss n ps last small p
                | inr p ↦ parse_gpt_at-IsWithin (n - 1) (n - 1) ss n ps last small p
              ])
            e)
        h
