-- ===== src/Files/Chase/Below.antt =====
-- filepath.Join of two clean absolute paths: the components of the one, then those of the other.
use sysext_alpine.Base.{
  ℕ, ◌≡◌, refl, sym, ap, ◌∙◌, inl, inr, true, false, List, [], ◌∷◌, ◌++◌, Bytes, same, ◌==◌, All,
  split, join, has_byte, split-join, is_abs, clean, clean_from, cons_head, reversed, join_path,
  append_nil, Bool-cases,
}
use sysext_alpine.Files.Chase.Rooted.{IsComponent}

cons_head-append :
    (c : ℕ) (w : Bytes) (ws vs : List Bytes)
    → cons_head c ((w ∷ ws) ++ vs) ≡ cons_head c (w ∷ ws) ++ vs
cons_head-append c w ws vs = refl

split-cons : (sep : ℕ) (s : Bytes) → (w : Bytes) × (ws : List Bytes) × (split sep s ≡ w ∷ ws)
unfolding split
split-cons sep [] = ([], [], refl)
split-cons sep (c ∷ s) = elim (Bool-cases (c == sep)) [
  | inl e ↦ ([], split sep s, rw e refl)
  | inr e ↦ let (w, ws, q) = split-cons sep s in (c ∷ w, ws, rw (e, q) refl)
]

split-both : (s t : Bytes) → split b'/' (s ++ (b'/' ∷ t)) ≡ split b'/' s ++ split b'/' t
unfolding split
split-both [] t = refl
split-both (c ∷ s) t = elim (Bool-cases (c == b'/')) [
  | inl e ↦ rw e (ap (λ r. [] ∷ r) (split-both s t))
  | inr e ↦
      let (w, ws, q) = split-cons b'/' s in
      rw e (
        ap (cons_head c) (split-both s t ∙ ap (λ r. r ++ split b'/' t) q)
        ∙ sym (ap (λ r. cons_head c r ++ split b'/' t) q))
]

clean_from-append :
    (ws vs kept : List Bytes)
    → clean_from true kept (ws ++ vs) ≡ clean_from true (clean_from true kept ws) vs
unfolding clean_from
clean_from-append [] vs kept = refl
clean_from-append (w ∷ ws) vs kept = clean_from-append ws vs _

clean_from-reversed :
    (ws kept : List Bytes) → All IsComponent ws → clean_from true kept ws ≡ reversed kept ws
unfolding clean_from reversed
clean_from-reversed [] kept h = refl
clean_from-reversed (w ∷ ws) kept ((a, b, d, e), h) =
    rw (a, b, d) (clean_from-reversed ws (w ∷ kept) h)

no_slashes : (ws : List Bytes) → All IsComponent ws → All (λ w. has_byte b'/' w ≡ false) ws
no_slashes [] h = tt
no_slashes (w ∷ ws) ((a, b, d, e), h) = (e, no_slashes ws h)

clean_from-join :
    (ws kept : List Bytes)
    → All IsComponent ws
    → clean_from true kept (split b'/' (join b'/' ws)) ≡ reversed kept ws
clean_from-join [] kept h = unfold join split clean_from reversed in refl
clean_from-join (w ∷ ws) kept ((a, b, d, e), h) =
    ap (clean_from true kept) (split-join b'/' w ws e (no_slashes ws h))
    ∙ clean_from-reversed (w ∷ ws) kept ((a, b, d, e), h)

pub reversed_twice :
    (ws acc done : List Bytes) → reversed done (reversed acc ws) ≡ reversed (ws ++ done) acc
unfolding reversed
reversed_twice [] acc done = refl
reversed_twice (w ∷ ws) acc done = reversed_twice ws (w ∷ acc) done

pub clean_from-slash :
    (ws kept : List Bytes)
    → All IsComponent ws
    → clean_from true kept (split b'/' (b'/' ∷ join b'/' ws)) ≡ reversed kept ws
unfolding split clean_from same
clean_from-slash ws kept h = clean_from-join ws kept h

reversed_back : (rs cs : List Bytes) → reversed [] (reversed (reversed [] rs) cs) ≡ rs ++ cs
unfolding reversed
reversed_back rs cs =
    reversed_twice cs (reversed [] rs) []
    ∙ reversed_twice rs [] (cs ++ [])
    ∙ ap (λ r. rs ++ r) (append_nil cs)

-- The path of `d` below `root`.
pub join_path-below :
    (rs cs : List Bytes)
    → All IsComponent rs
    → All IsComponent cs
    → join_path (b'/' ∷ join b'/' rs) (b'/' ∷ join b'/' cs) ≡ b'/' ∷ join b'/' (rs ++ cs)
unfolding join_path clean is_abs
join_path-below rs cs h k =
    ap (λ r. b'/' ∷ join b'/' (reversed [] r))
      (ap (clean_from true []) (split-both (b'/' ∷ join b'/' rs) (b'/' ∷ join b'/' cs))
        ∙ clean_from-append (split b'/' (b'/' ∷ join b'/' rs)) (split b'/' (b'/' ∷ join b'/' cs)) []
        ∙ ap (λ r. clean_from true r (split b'/' (b'/' ∷ join b'/' cs))) (clean_from-slash rs [] h)
        ∙ clean_from-slash cs (reversed [] rs) k)
    ∙ ap (λ r. b'/' ∷ join b'/' r) (reversed_back rs cs)

-- The path of an entry of a directory.
pub join_path-component :
    (rs : List Bytes) (w : Bytes)
    → All IsComponent rs
    → IsComponent w
    → join_path (b'/' ∷ join b'/' rs) w ≡ b'/' ∷ join b'/' (rs ++ (w ∷ []))
unfolding join_path clean is_abs join
join_path-component rs [] h (a, b, d, e) = cc
join_path-component rs (c ∷ w) h k =
    ap (λ r. b'/' ∷ join b'/' (reversed [] r))
      (ap (clean_from true []) (split-both (b'/' ∷ join b'/' rs) (c ∷ w))
        ∙ clean_from-append (split b'/' (b'/' ∷ join b'/' rs)) (split b'/' (c ∷ w)) []
        ∙ ap (λ r. clean_from true r (split b'/' (c ∷ w))) (clean_from-slash rs [] h)
        ∙ clean_from-join ((c ∷ w) ∷ []) (reversed [] rs) (k, tt))
    ∙ ap (λ r. b'/' ∷ join b'/' r) (reversed_back rs ((c ∷ w) ∷ []))
