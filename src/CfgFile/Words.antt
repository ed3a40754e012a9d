-- ===== src/CfgFile/Words.antt =====
-- Plain words, and argstr as the inverse of parse_args on them.
use mathlib.Core.List.{append-nil, append_assoc}
use edysquelch.Prelude.{
  ℕ, zero, suc, ◌+◌, ◌≤◌, ◌<◌, ◌≡◌, refl, sym, ap, ◌∙◌, ◌≢◌, ◌⊎◌, inl, inr, true, false, some, List,
  [], ◌∷◌, ◌++◌, arith, ◌==◌, length, length-append, take, All, Bytes, codes, isspace,
}
use edysquelch.CfgFile.Values.{skip_space}
use edysquelch.CfgFile.{
  word_of, behind_word, drop_one, add_word, args_loop, max_args, parse_args, cfgline_len,
  append_bounded, argstr_loop, drop_last, argstr,
}

-- A word that needs no quotes: not empty, no blank in it, and no quote in front.
abbrev pub IsPlain : Bytes → Type 0
IsPlain [] = ⊥
IsPlain (c ∷ s) = (c ≢ b'"') × All (λ b. isspace b ≡ false) (c ∷ s)

-- The words with a blank behind each: what the loop of argstr builds.
unfoldable pub spaced : List Bytes → Bytes
spaced [] = []
spaced (w ∷ ws) = w ++ (b' ' ∷ spaced ws)

-- Where a word ends: at the end of the text or at a blank.
Ends : Bytes → Type 0
Ends rest = (rest ≡ []) ⊎ ((c : ℕ) × (s : Bytes) × (rest ≡ c ∷ s) × (isspace c ≡ true))

word_of-append :
    (w rest : Bytes)
    → All (λ b. isspace b ≡ false) w
    → Ends rest
    → (word_of (w ++ rest) ≡ w) × (behind_word (w ++ rest) ≡ rest)
unfolding word_of behind_word Ends
word_of-append [] rest h (inl e) = rw e (refl, refl)
word_of-append [] rest h (inr (c, s, e, y)) = rw (e, y) (refl, refl)
word_of-append (c ∷ w) rest (n, h) e =
    let (p, q) = word_of-append w rest h e in (rw (n, p) refl, rw (n, q) refl)

skip_none : (c : ℕ) (s : Bytes) → isspace c ≡ false → skip_space (c ∷ s) ≡ c ∷ s
unfolding skip_space
skip_none c s h = rw (h, skip_space) refl

args_loop-word :
    (w rest : Bytes) (n : ℕ)
    → IsPlain w
    → Ends rest
    → args_loop (suc n) (w ++ rest) ≡ add_word w (args_loop n (drop_one rest))
unfolding args_loop
args_loop-word [] rest n h e = absurd h
args_loop-word (c ∷ w) rest n (q, (b, h)) e =
    let (p, r) = word_of-append (c ∷ w) rest (b, h) e in
    let not_quote : (c == b'"') ≡ false = ground arith in
    rw (skip_none c (w ++ rest) b, args_loop) (rw not_quote (rw (p, r) refl))

take_all : (n : ℕ) (t : Bytes) → length t ≤ n → take n t ≡ t
take_all zero [] h = refl
take_all zero (c ∷ t) h = absurd (omega arith)
take_all (suc n) [] h = refl
take_all (suc n) (c ∷ t) h = ap (◌∷◌ c) (take_all n t (omega arith))

append_bounded_all : (s t : Bytes) → length s + length t < cfgline_len → append_bounded s t ≡ s ++ t
append_bounded_all s t h = ap (◌++◌ s) (take_all _ t (omega arith))

argstr_loop-spaced :
    (ws : List Bytes) (s : Bytes)
    → length s + length (spaced ws) < cfgline_len
    → argstr_loop s ws ≡ s ++ spaced ws
unfolding argstr_loop spaced
argstr_loop-spaced [] s h = sym (append-nil s)
argstr_loop-spaced (w ∷ ws) s h =
    let l1 = length-append {0} w (b' ' ∷ spaced ws) in
    let l2 = length-append {0} s w in
    let l3 = length-append {0} (s ++ w) (codes " ") in
    let first = append_bounded_all s w (omega arith) in
    let second = append_bounded_all (s ++ w) (codes " ") (omega arith) in
    let both : append_bounded (append_bounded s w) (codes " ") ≡ (s ++ w) ++ codes " " =
      ap (λ x. append_bounded x (codes " ")) first ∙ second in
    ap (λ x. argstr_loop x ws) both
    ∙ argstr_loop-spaced ws ((s ++ w) ++ codes " ") (omega arith)
    ∙ simp append_assoc

drop_last-append :
    (w : Bytes) (c : ℕ) (s : Bytes) → drop_last (w ++ (c ∷ s)) ≡ w ++ drop_last (c ∷ s)
unfolding drop_last
drop_last-append [] c s = refl
drop_last-append (d ∷ []) c s = refl
drop_last-append (d ∷ e ∷ w) c s = ap (◌∷◌ d) (drop_last-append (e ∷ w) c s)

args_loop-end : (n : ℕ) → args_loop n [] ≡ some []
unfolding args_loop skip_space
args_loop-end zero = refl
args_loop-end (suc n) = refl

-- The blank that is cut off stands behind the last word.
drop_last-spaced :
    (w v : Bytes) (ws : List Bytes)
    → IsPlain v
    → drop_last (spaced (w ∷ v ∷ ws)) ≡ w ++ (b' ' ∷ drop_last (spaced (v ∷ ws)))
unfolding spaced
drop_last-spaced w [] ws h = absurd h
drop_last-spaced w (c ∷ v) ws h =
    drop_last-append w b' ' ((c ∷ v) ++ (b' ' ∷ spaced ws)) ∙ ap (◌++◌ w) (unfold drop_last in refl)

args_loop-spaced :
    (ws : List Bytes) (n : ℕ)
    → All IsPlain ws
    → length ws ≤ n
    → args_loop n (drop_last (spaced ws)) ≡ some ws
args_loop-spaced [] zero h l = unfold args_loop spaced drop_last in refl
args_loop-spaced [] (suc n) h l = unfold args_loop spaced drop_last skip_space in refl
args_loop-spaced (w ∷ ws) zero h l = absurd (omega arith)
args_loop-spaced (w ∷ []) (suc n) (h, hs) l =
    let last : drop_last (spaced (w ∷ [])) ≡ w ++ [] =
      unfold spaced in (drop_last-append w b' ' [] ∙ (unfold drop_last in refl)) in
    rw last (args_loop-word w [] n h (unfold Ends in inl refl) ∙ rw (args_loop-end n) refl)
args_loop-spaced (w ∷ v ∷ ws) (suc n) (h, hs) l =
    let later = args_loop-spaced (v ∷ ws) n hs (omega arith) in
    rw (drop_last-spaced w v ws hs.0) (
      args_loop-word w (b' ' ∷ drop_last (spaced (v ∷ ws))) n h
        (unfold Ends in inr (b' ', drop_last (spaced (v ∷ ws)), refl, unfold isspace in refl))
      ∙ rw later refl)

-- argstr puts up to 255 plain words back into a line that parse_args reads as the same words, if
-- with a blank behind each they fit the static buffer of 102400 bytes.
pub parse_args-argstr :
    (ws : List Bytes)
    → All IsPlain ws
    → length ws ≤ max_args
    → length (spaced ws) < cfgline_len
    → parse_args (argstr ws) ≡ ws
unfolding argstr
parse_args-argstr ws h l fits =
    let line : argstr_loop [] ws ≡ spaced ws = argstr_loop-spaced ws [] (omega arith) in
    rw line (unfold parse_args in rw (args_loop-spaced ws max_args h l, parse_args) refl)
