-- ===== src/Release/EnvFile/Bounds.antt =====
-- internal/release/envfile.go: the slices `key[:lastKeyWS]` and `value[:lastValueWS]`.
use sysext_alpine.Base.{
  ℕ, ◌≡◌, refl, subst, Bool, true, false, not, ◌&&◌, [], ◌∷◌, ◌++◌, Option, none, some, Result, ok,
  err, >>=-eq-ok, Bytes, leb, ◌==◌, length, length-append, &&_iff, if◌then◌else◌, arith,
}
use sysext_alpine.Release.Names.{valid_utf8}
use sysext_alpine.Release.EnvFile.{
  EnvState, pre_key, in_key, pre_value, in_value, value_escape, single_quote, double_quote,
  double_quote_escape, in_comment, comment_escape, is_env_whitespace, is_env_newline,
  is_env_comment, needs_shell_escape, EnvError, bad_key, bad_value, Parser, start, chomp, mark_from,
  mark, push, step, steps,
}

unfoldable pub fits : Option ℕ → Bytes → Bool
fits none s = true
fits (some n) s = leb n (length s)

-- The marks are within the buffers wherever `push` may cut them there.
unfoldable pub in_bounds : EnvState → Parser → Bool
in_bounds pre_key p = true
in_bounds in_comment p = true
in_bounds comment_escape p = true
in_bounds in_key p = fits p.key_ws p.key
in_bounds s p = fits p.key_ws p.key && fits p.value_ws p.value

fits-append : (ws : Option ℕ) (s t : Bytes) → fits ws s ≡ true → fits ws (s ++ t) ≡ true
unfolding fits
fits-append none s t h = refl
fits-append (some n) s t h = ground (arith, length-append s t, h)

fits-mark_from :
    (ws : Option ℕ) (s t : Bytes) → fits ws s ≡ true → fits (mark_from ws s) (s ++ t) ≡ true
unfolding fits mark_from
fits-mark_from none s t h = ground (arith, length-append s t)
fits-mark_from (some n) s t h = ground (arith, length-append s t, h)

fits-if :
    (b : Bool) (ws : Option ℕ) (s : Bytes)
    → fits ws s ≡ true
    → fits (if b then none else ws) s ≡ true
unfolding fits
fits-if true ws s h = refl
fits-if false ws s h = h

fits-mark :
    (c : ℕ) (ws : Option ℕ) (s : Bytes)
    → fits ws s ≡ true
    → fits (mark c ws s) (s ++ (c ∷ [])) ≡ true
unfolding mark
fits-mark c ws s h = fits-if (not (is_env_whitespace c)) _ _ (fits-mark_from ws s (c ∷ []) h)

abbrev InBounds : Parser → Type 0
InBounds p = in_bounds p.state p ≡ true

if-InBounds : (b : Bool) (p q : Parser) → InBounds p → InBounds q → InBounds (if b then p else q)
if-InBounds true p q h k = h
if-InBounds false p q h k = k

if_result-InBounds :
    (b : Bool) (m k : Result EnvError Parser) {q : Parser}
    → (m ≡ ok q → InBounds q)
    → (k ≡ ok q → InBounds q)
    → (if b then m else k) ≡ ok q
    → InBounds q
if_result-InBounds true m k f g h = f h
if_result-InBounds false m k f g h = g h

ok-InBounds :
    {p q : Parser} → InBounds p → ◌≡◌ {A = Result EnvError Parser} (ok p) (ok q) → InBounds q
ok-InBounds h e = subst InBounds (ok_eq e) h
  where
    ok_eq : {p q : Parser} → ◌≡◌ {A = Result EnvError Parser} (ok p) (ok q) → p ≡ q
    ok_eq e = cc

err-InBounds :
    {e : EnvError} {q : Parser} → ◌≡◌ {A = Result EnvError Parser} (err e) (ok q) → InBounds q
err-InBounds h = cc

push-InBounds : (b : Bool) (p q : Parser) → push b pre_key p ≡ ok q → InBounds q
unfolding push in_bounds
push-InBounds b p q h =
    let k = chomp p.key_ws p.key in
    let v = if b then chomp p.value_ws p.value else p.value in
    let done : Parser = record p {
      state = pre_key;
      key = [];
      value = [];
      assigned = (k, v) ∷ p.assigned;
    } in
    if_result-InBounds (not (valid_utf8 k)) (err bad_key)
      (if not (valid_utf8 v) then err bad_value else ok done) err-InBounds
      (if_result-InBounds (not (valid_utf8 v)) (err bad_value) (ok done) err-InBounds
        (ok-InBounds {p = done} refl))
      h

both : {a b : Bool} → a ≡ true → b ≡ true → (a && b) ≡ true
both h k = rw (h, k)

step-InBounds :
    (s : EnvState) (c : ℕ) (p q : Parser)
    → in_bounds s p ≡ true
    → p.state ≡ s
    → step s c p ≡ ok q
    → InBounds q
unfolding step in_bounds fits
step-InBounds pre_key c p q h e k =
    ok-InBounds
      (if-InBounds (is_env_comment c) _ _ refl
        (if-InBounds (not (is_env_whitespace c)) _ _ refl (rw e)))
      k
step-InBounds in_key c p q h e k =
    ok-InBounds
      (if-InBounds (is_env_newline c) _ _ refl
        (if-InBounds (c == b'=') _ _ (both h refl) (rw (e, fits-mark c p.key_ws p.key h))))
      k
step-InBounds pre_value c p q h e k =
    let v = (&&_iff (fits p.key_ws p.key) (fits p.value_ws p.value)).0 h in
    if_result-InBounds (is_env_newline c) (push false pre_key p) _ (push-InBounds false p q)
      (ok-InBounds (
        if-InBounds (c == 39) _ _ h (
          if-InBounds (c == 34) _ _ h (
            if-InBounds (c == 92) _ _ h (
              if-InBounds (not (is_env_whitespace c)) _ _
                (both v.0 (fits-append p.value_ws p.value (c ∷ []) v.1)) (rw (e, h)))))))
      k
step-InBounds in_value c p q h e k =
    let v = (&&_iff (fits p.key_ws p.key) (fits p.value_ws p.value)).0 h in
    if_result-InBounds (is_env_newline c) (push true pre_key p) _ (push-InBounds true p q)
      (ok-InBounds (
        if-InBounds (c == 92) _ _ (both v.0 refl)
          (rw (e, v.0, fits-mark c p.value_ws p.value v.1))))
      k
step-InBounds value_escape c p q h e k =
    let v = (&&_iff (fits p.key_ws p.key) (fits p.value_ws p.value)).0 h in
    ok-InBounds
      (if-InBounds (is_env_newline c) _ _ h
        (both v.0 (fits-append p.value_ws p.value (c ∷ []) v.1)))
      k
step-InBounds single_quote c p q h e k =
    let v = (&&_iff (fits p.key_ws p.key) (fits p.value_ws p.value)).0 h in
    ok-InBounds
      (if-InBounds (c == 39) _ _ h (both v.0 (fits-append p.value_ws p.value (c ∷ []) v.1))) k
step-InBounds double_quote c p q h e k =
    let v = (&&_iff (fits p.key_ws p.key) (fits p.value_ws p.value)).0 h in
    ok-InBounds
      (if-InBounds (c == 34) _ _ h
        (if-InBounds (c == 92) _ _ h (both v.0 (fits-append p.value_ws p.value (c ∷ []) v.1))))
      k
step-InBounds double_quote_escape c p q h e k =
    let v = (&&_iff (fits p.key_ws p.key) (fits p.value_ws p.value)).0 h in
    ok-InBounds
      (if-InBounds (needs_shell_escape c) _ _
        (both v.0 (fits-append p.value_ws p.value (c ∷ []) v.1))
        (if-InBounds (not (c == 10)) _ _
          (both v.0 (fits-append p.value_ws p.value (92 ∷ c ∷ []) v.1)) h))
      k
step-InBounds in_comment c p q h e k =
    ok-InBounds (if-InBounds (c == 92) _ _ refl (if-InBounds (is_env_newline c) _ _ refl (rw e))) k
step-InBounds comment_escape c p q h e k =
    ok-InBounds (if-InBounds (is_env_newline c) _ _ refl refl) k

from-InBounds : (s : Bytes) (p q : Parser) → InBounds p → steps s p ≡ ok q → InBounds q
unfolding steps
from-InBounds [] p q b h = ok-InBounds b h
from-InBounds (c ∷ s) p q b h =
    let r = >>=-eq-ok (step p.state c p) (steps s) h in
    from-InBounds s r.0 q (step-InBounds p.state c p r.0 b refl r.1) r.2

-- Whatever text the parser has read, the white space marks lie within the key and the value
-- wherever a `push` may follow, so that the two slices of `push` are in range.
pub steps-in_bounds : (s : Bytes) (q : Parser) → steps s start ≡ ok q → in_bounds q.state q ≡ true
unfolding in_bounds
steps-in_bounds s q h = from-InBounds s start q refl h
