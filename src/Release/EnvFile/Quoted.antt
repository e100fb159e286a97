-- ===== src/Release/EnvFile/Quoted.antt =====
-- internal/release/envfile.go: a file of quoted assignments reads as what it assigns.
use sysext_alpine.Base.{
  append_assoc, append_nil, ℕ, ◌≡◌, refl, sym, ap, ◌∙◌, inl, inr, Bool, true, false, not, ◌&&◌,
  ◌||◌, List, [], ◌∷◌, ◌++◌, none, ok, ◌>>=◌, Bytes, ◌==◌, &&_iff, if◌then◌else◌, Bool-cases, All,
  all_bytes, all_bytes-append, all_bytes_mono, null, any, take, not-eq-false, arith,
}
use sysext_alpine.Release.Names.{valid_utf8}
use sysext_alpine.Release.EnvFile.{
  EnvState, pre_key, in_key, pre_value, double_quote, double_quote_escape, is_env_whitespace,
  is_env_newline, is_env_comment, needs_shell_escape, Parser, chomp, mark, push, step, steps,
  at_end, until_zero, parse,
}

-- A value between double quotes.
unfoldable pub escape : Bytes → Bytes
escape [] = []
escape (c ∷ v) = let rest = escape v in if needs_shell_escape c then 92 ∷ c ∷ rest else c ∷ rest

unfoldable pub print_env : List (Bytes × Bytes) → Bytes
print_env [] = []
print_env ((k, v) ∷ f) = k ++ (b'=' ∷ 34 ∷ (escape v ++ (34 ∷ 10 ∷ print_env f)))

abbrev key_byte : ℕ → Bool
key_byte c = not (is_env_whitespace c) && not (c == b'=')

abbrev reading : EnvState → Bytes → Bytes → List (Bytes × Bytes) → Parser
reading s k v f = record {
  state = s;
  key = k;
  value = v;
  key_ws = none;
  value_ws = none;
  assigned = f;
}

escaped-step :
    (c : ℕ) (k v : Bytes) (f : List (Bytes × Bytes))
    → needs_shell_escape c ≡ true
    → step double_quote_escape c (reading double_quote_escape k v f)
      ≡ ok (reading double_quote k (v ++ (c ∷ [])) f)
unfolding step
escaped-step c k v f h = rw h

plain-step :
    (c : ℕ) (k v : Bytes) (f : List (Bytes × Bytes))
    → needs_shell_escape c ≡ false
    → step double_quote c (reading double_quote k v f)
      ≡ ok (reading double_quote k (v ++ (c ∷ [])) f)
unfolding step
plain-step c k v f h =
    let q : (c == 34) ≡ false = ground arith in
    let b : (c == 92) ≡ false = ground arith in rw (q, b)

key-step :
    (c : ℕ) (k : Bytes) (f : List (Bytes × Bytes))
    → key_byte c ≡ true
    → step in_key c (reading in_key k [] f) ≡ ok (reading in_key (k ++ (c ∷ [])) [] f)
unfolding step mark
key-step c k f h =
    let w : is_env_whitespace c ≡ false = ground arith in
    let n : is_env_newline c ≡ false = ground arith in
    let e : (c == b'=') ≡ false = ground arith in rw (n, e, w)

first-step :
    (c : ℕ) (f : List (Bytes × Bytes))
    → is_env_comment c ≡ false
    → key_byte c ≡ true
    → step pre_key c (reading pre_key [] [] f) ≡ ok (reading in_key (c ∷ []) [] f)
unfolding step
first-step c f m h = let w : is_env_whitespace c ≡ false = ground arith in rw (m, w)

value-steps :
    (v t k u : Bytes) (f : List (Bytes × Bytes))
    → steps (escape v ++ t) (reading double_quote k u f)
      ≡ steps t (reading double_quote k (u ++ v) f)
unfolding escape steps step
value-steps [] t k u f = ap (λ w. steps t (reading double_quote k w f)) (sym (append_nil u))
value-steps (c ∷ v) t k u f =
    let later =
      value-steps v t k (u ++ (c ∷ [])) f
      ∙ ap (λ w. steps t (reading double_quote k w f)) (append_assoc u (c ∷ []) v) in
    elim (Bool-cases (needs_shell_escape c)) [
      | inl e ↦ rw e (ap (λ r. r >>= steps (escape v ++ t)) (escaped-step c k u f e) ∙ later)
      | inr e ↦ rw e (ap (λ r. r >>= steps (escape v ++ t)) (plain-step c k u f e) ∙ later)
    ]

key-steps :
    (s t k : Bytes) (f : List (Bytes × Bytes))
    → all_bytes key_byte s ≡ true
    → steps (s ++ t) (reading in_key k [] f) ≡ steps t (reading in_key (k ++ s) [] f)
unfolding steps
key-steps [] t k f h = ap (λ w. steps t (reading in_key w [] f)) (sym (append_nil k))
key-steps (c ∷ s) t k f h =
    let (here, rest) = (&&_iff (key_byte c) (all_bytes key_byte s)).0 h in
    ap (λ r. r >>= steps (s ++ t)) (key-step c k f here)
    ∙ key-steps s t (k ++ (c ∷ [])) f rest
    ∙ ap (λ w. steps t (reading in_key w [] f)) (append_assoc k (c ∷ []) s)

-- A key and a value that a file can hold.
pub record IsAssignment (a : Bytes × Bytes) : Type 0 where
  pub key_valid : valid_utf8 a.0 ≡ true
  pub value_valid : valid_utf8 a.1 ≡ true
  pub key_bytes : all_bytes (λ c. key_byte c && not (c == 0)) a.0 ≡ true
  pub value_bytes : all_bytes (λ c. not (c == 0)) a.1 ≡ true
  pub starts : null a.0 ≡ false
  pub no_comment : any is_env_comment (take 1 a.0) ≡ false

true-ne-false : {A : Type 0} → true ≡ false → A
true-ne-false h = cc

equals-steps :
    (k t : Bytes) (f : List (Bytes × Bytes))
    → steps (b'=' ∷ 34 ∷ t) (reading in_key k [] f) ≡ steps t (reading double_quote k [] f)
unfolding steps step
equals-steps k t f = refl

push-reading :
    (k v : Bytes) (f : List (Bytes × Bytes))
    → valid_utf8 k ≡ true
    → valid_utf8 v ≡ true
    → push false pre_key (reading pre_value k v f) ≡ ok (reading pre_key [] [] ((k, v) ∷ f))
unfolding push chomp
push-reading k v f h g = rw (h, g)

end-steps :
    (k v t : Bytes) (f : List (Bytes × Bytes))
    → valid_utf8 k ≡ true
    → valid_utf8 v ≡ true
    → steps (34 ∷ 10 ∷ t) (reading double_quote k v f)
      ≡ steps t (reading pre_key [] [] ((k, v) ∷ f))
unfolding steps step
end-steps k v t f h g = ap (λ r. r >>= steps t) (push-reading k v f h g)

assignment-steps :
    (k v t : Bytes) (f : List (Bytes × Bytes))
    → IsAssignment (k, v)
    → steps (k ++ (b'=' ∷ 34 ∷ (escape v ++ (34 ∷ 10 ∷ t)))) (reading pre_key [] [] f)
      ≡ steps t (reading pre_key [] [] ((k, v) ∷ f))
unfolding steps
assignment-steps [] v t f a = true-ne-false a.starts
assignment-steps (c ∷ s) v t f a =
    let (here, rest) = (&&_iff (key_byte c && not (c == 0)) _).0 a.key_bytes in
    let u = b'=' ∷ 34 ∷ (escape v ++ (34 ∷ 10 ∷ t)) in
    ap (λ r. r >>= steps (s ++ u))
      (first-step c f (comment a.no_comment) ((&&_iff (key_byte c) _).0 here).0)
    ∙ key-steps s u (c ∷ []) f
        (all_bytes_mono _ key_byte (λ d e. ((&&_iff (key_byte d) _).0 e).0) s rest)
    ∙ equals-steps (c ∷ s) (escape v ++ (34 ∷ 10 ∷ t)) f
    ∙ value-steps v (34 ∷ 10 ∷ t) (c ∷ s) [] f
    ∙ end-steps (c ∷ s) v t f a.key_valid a.value_valid
  where
    comment : (is_env_comment c || false) ≡ false → is_env_comment c ≡ false
    comment h = ground (arith, h)

-- The assignments in the order of the parser, the newest first.
unfoldable pub onto : List (Bytes × Bytes) → List (Bytes × Bytes) → List (Bytes × Bytes)
onto [] g = g
onto (a ∷ f) g = onto f (a ∷ g)

print_env-steps :
    (f g : List (Bytes × Bytes))
    → All IsAssignment f
    → steps (print_env f) (reading pre_key [] [] g) ≡ ok (reading pre_key [] [] (onto f g))
unfolding print_env onto
print_env-steps [] g h = unfold steps in refl
print_env-steps ((k, v) ∷ f) g h =
    assignment-steps k v (print_env f) g h.0 ∙ print_env-steps f ((k, v) ∷ g) h.1

until_zero-all_bytes : (s : Bytes) → all_bytes (λ c. not (c == 0)) s ≡ true → until_zero s ≡ s
unfolding until_zero
until_zero-all_bytes [] h = refl
until_zero-all_bytes (c ∷ s) h =
    let (here, rest) = (&&_iff (not (c == 0)) _).0 h in
    rw (not-eq-false (c == 0) here) (ap (λ r. c ∷ r) (until_zero-all_bytes s rest))

escape-nonzero :
    (v : Bytes)
    → all_bytes (λ c. not (c == 0)) v ≡ true
    → all_bytes (λ c. not (c == 0)) (escape v) ≡ true
unfolding escape
escape-nonzero [] h = refl
escape-nonzero (c ∷ v) h =
    let (here, rest) = (&&_iff (not (c == 0)) _).0 h in
    elim (Bool-cases (needs_shell_escape c)) [
      | inl e ↦ rw e (rw (here, escape-nonzero v rest))
      | inr e ↦ rw e (rw (here, escape-nonzero v rest))
    ]

print_env-nonzero :
    (f : List (Bytes × Bytes))
    → All IsAssignment f
    → all_bytes (λ c. not (c == 0)) (print_env f) ≡ true
unfolding print_env
print_env-nonzero [] h = refl
print_env-nonzero ((k, v) ∷ f) h =
    all_bytes-append (λ c. not (c == 0)) k _
      (all_bytes_mono _ (λ c. not (c == 0)) (λ d e. ((&&_iff (key_byte d) _).0 e).1) k
        h.0.key_bytes)
      (all_bytes-append (λ c. not (c == 0)) (escape v) (34 ∷ 10 ∷ print_env f)
        (escape-nonzero v h.0.value_bytes) (print_env-nonzero f h.1))

-- A file of double-quoted assignments, with a backslash before each byte that the shell reads,
-- parses to what it assigns, the newest assignment first, when its keys and values are UTF-8 without
-- NUL and each key is one that the parser takes: `IsAssignment`.
pub parse-print_env :
    (f : List (Bytes × Bytes)) → All IsAssignment f → parse (print_env f) ≡ ok (onto f [])
unfolding parse at_end
parse-print_env f h =
    rw (until_zero-all_bytes (print_env f) (print_env-nonzero f h), print_env-steps f [] h)
