-- ===== src/Release/EnvFile.antt =====
-- internal/release/envfile.go: the parser of os-release(5) files, and booleans.
pub mod Bounds
pub mod Quoted
use sysext_alpine.Base.{
  ℕ, ◌+◌, Bool, true, false, not, ◌&&◌, ◌||◌, List, [], ◌∷◌, ◌++◌, Option, none, some, Result, ok,
  err, ◌>>=◌, Bytes, codes, contains, leb, ◌==◌, length, take, if◌then◌else◌,
}
use sysext_alpine.Release.Names.{valid_utf8}

-- `envState`
pub data EnvState : Type 0 where
  pre_key in_key pre_value in_value value_escape single_quote : EnvState
  double_quote double_quote_escape in_comment comment_escape : EnvState

abbrev pub is_env_whitespace : ℕ → Bool
is_env_whitespace c = c == b' ' || c == 9 || c == 10 || c == 13

abbrev pub is_env_newline : ℕ → Bool
is_env_newline c = c == 10 || c == 13

abbrev pub is_env_comment : ℕ → Bool
is_env_comment c = c == b'#' || c == b';'

abbrev pub needs_shell_escape : ℕ → Bool
needs_shell_escape c = c == 34 || c == 92 || c == 96 || c == b'$'

-- The errors of `push`.
pub data EnvError : Type 0 where
  bad_key bad_value : EnvError

-- The variables of `Parse`; -1 of `lastKeyWS` and `lastValueWS` is `none`. The newest assignment
-- stands first.
pub record Parser : Type 0 where
  pub state : EnvState
  pub key : Bytes
  pub value : Bytes
  pub key_ws : Option ℕ
  pub value_ws : Option ℕ
  pub assigned : List (Bytes × Bytes)

abbrev pub start : Parser
start = record {
  state = pre_key;
  key = [];
  value = [];
  key_ws = none;
  value_ws = none;
  assigned = [];
}

unfoldable pub chomp : Option ℕ → Bytes → Bytes
chomp none s = s
chomp (some n) s = take n s

unfoldable pub mark_from : Option ℕ → Bytes → Option ℕ
mark_from none s = some (length s)
mark_from (some n) s = some n

-- The white space mark of `s` after one more byte.
unfoldable pub mark : ℕ → Option ℕ → Bytes → Option ℕ
mark c ws s = if not (is_env_whitespace c) then none else mark_from ws s

-- `push`, then the state that was set before it.
unfoldable pub push : Bool → EnvState → Parser → Result EnvError Parser
push chomp_value next p =
    let k = chomp p.key_ws p.key in
    let v = if chomp_value then chomp p.value_ws p.value else p.value in
    if not (valid_utf8 k)
    then err bad_key
    else if not (valid_utf8 v)
    then err bad_value
    else ok (record p { state = next; key = []; value = []; assigned = (k, v) ∷ p.assigned })

abbrev pub append_value : ℕ → EnvState → Parser → Parser
append_value c next p = record p { state = next; value = p.value ++ (c ∷ []) }

-- The body of the loop in one state.
unfoldable pub step : EnvState → ℕ → Parser → Result EnvError Parser
step pre_key c p = ok (
    if is_env_comment c
    then record p { state = in_comment }
    else if not (is_env_whitespace c)
    then record p { state = in_key; key_ws = none; key = p.key ++ (c ∷ []) }
    else p)
step in_key c p = ok (
    if is_env_newline c
    then record p { state = pre_key; key = [] }
    else if c == b'='
    then record p { state = pre_value; value_ws = none }
    else record p { key_ws = mark c p.key_ws p.key; key = p.key ++ (c ∷ []) })
step pre_value c p =
    if is_env_newline c
    then push false pre_key p
    else ok (
        if c == 39
        then record p { state = single_quote }
        else if c == 34
        then record p { state = double_quote }
        else if c == 92
        then record p { state = value_escape }
        else if not (is_env_whitespace c)
        then append_value c in_value p
        else p)
step in_value c p =
    if is_env_newline c
    then push true pre_key p
    else ok (
        if c == 92
        then record p { state = value_escape; value_ws = none }
        else record p { value_ws = mark c p.value_ws p.value; value = p.value ++ (c ∷ []) })
step value_escape c p =
    ok (if is_env_newline c then record p { state = in_value } else append_value c in_value p)
step single_quote c p =
    ok (if c == 39 then record p { state = pre_value } else append_value c single_quote p)
step double_quote c p = ok (
    if c == 34
    then record p { state = pre_value }
    else if c == 92
    then record p { state = double_quote_escape }
    else append_value c double_quote p)
step double_quote_escape c p = ok (
    if needs_shell_escape c
    then append_value c double_quote p
    else if not (c == 10)
    then record p { state = double_quote; value = p.value ++ (92 ∷ c ∷ []) }
    else record p { state = double_quote })
step in_comment c p = ok (
    if c == 92
    then record p { state = comment_escape }
    else if is_env_newline c
    then record p { state = pre_key }
    else p)
step comment_escape c p =
    ok (if is_env_newline c then record p { state = pre_key } else record p { state = in_comment })

unfoldable pub steps : Bytes → Parser → Result EnvError Parser
steps [] p = ok p
steps (c ∷ s) p = step p.state c p >>= steps s

-- The switch after the loop.
unfoldable pub at_end : EnvState → Parser → Result EnvError Parser
at_end in_value p = push true in_value p
at_end pre_key p = ok p
at_end in_key p = ok p
at_end in_comment p = ok p
at_end comment_escape p = ok p
at_end s p = push false s p

-- The content up to the first NUL.
unfoldable pub until_zero : Bytes → Bytes
until_zero [] = []
until_zero (c ∷ s) = let rest = until_zero s in if c == 0 then [] else c ∷ rest

unfoldable pub parse : Bytes → Result EnvError (List (Bytes × Bytes))
parse content = steps (until_zero content) start >>= λ p. at_end p.state p >>= λ q. ok q.assigned

-- A byte of no valid rune, which strings.Map replaces, is no letter of a word either way.
unfoldable pub ascii_lower : Bytes → Bytes
ascii_lower [] = []
ascii_lower (c ∷ s) = (if leb b'A' c && leb c b'Z' then c + 32 else c) ∷ ascii_lower s

abbrev true_words : List Bytes
true_words = codes "1" ∷ codes "yes" ∷ codes "y" ∷ codes "true" ∷ codes "t" ∷ codes "on" ∷ []

abbrev false_words : List Bytes
false_words = codes "0" ∷ codes "no" ∷ codes "n" ∷ codes "false" ∷ codes "f" ∷ codes "off" ∷ []

-- `none` is `errInvalidBoolean`.
unfoldable pub parse_boolean : Bytes → Option Bool
parse_boolean s =
    let t = ascii_lower s in
    if contains true_words t then some true else if contains false_words t then some false else none
