-- ===== src/CfgFile/Commands.antt =====
-- Which command a line runs, and how a file of lines is read.
use edysquelch.Prelude.{
  ℕ, zero, ◌-◌, ◌≤◌, ◌≡◌, refl, ap, ◌∙◌, inl, inr, true, false, ◌||◌, none, some, List, [], ◌∷◌,
  ◌++◌, leb, ◌==◌, Bool-cases, length, All, ℤ, pos, negsuc, Bytes, ◌⊎◌,
}
use edysquelch.CfgFile.Values.{strlwr}
use edysquelch.CfgFile.{
  c_string, max_args, cfgline_len, fits_name, find_command, starts_comment, cmdparse, onto_first,
  fgets_loop, read_lines, Command,
}
use edysquelch.CfgFile.Quoting.{line_of, NoZero, parse_args-line_of}

find_command-first {ℓ} :
    {S : Type ℓ}
    → (before : List (Command S)) → (c : Command S) → (after : List (Command S)) → (w : Bytes)
    → All (λ d. fits_name w d.name ≡ false) before
    → fits_name w c.name ≡ true
    → find_command (before ++ (c ∷ after)) w ≡ some c
unfolding find_command
find_command-first [] c after w h y = rw y refl
find_command-first (d ∷ before) c after w (n, h) y = rw n (find_command-first before c after w h y)

find_command-none {ℓ} :
    {S : Type ℓ}
    → (cmds : List (Command S)) → (w : Bytes) → All (λ d. fits_name w d.name ≡ false) cmds
    → find_command cmds w ≡ none
unfolding find_command
find_command-none [] w h = refl
find_command-none (d ∷ cmds) w (n, h) = rw n (find_command-none cmds w h)

-- A line of quoted words runs the handler of the first row whose name begins with the first word,
-- in any case; the handler gets the first word in lower case and the other words as they were
-- written. The line has at most 255 words, none has a byte 0, and the first does not begin with `#`.
pub cmdparse-first {ℓ} :
    {S : Type ℓ}
    → (before : List (Command S)) → (c : Command S) → (after : List (Command S)) → (st : S)
    → (w : Bytes) → (ws : List Bytes) → All (λ d. fits_name (strlwr w) d.name ≡ false) before
    → fits_name (strlwr w) c.name ≡ true
    → starts_comment w ≡ false
    → All NoZero (w ∷ ws)
    → length (w ∷ ws) ≤ max_args
    → cmdparse (before ++ (c ∷ after)) st (line_of (w ∷ ws)) ≡ c.function st (strlwr w ∷ ws)
unfolding cmdparse
cmdparse-first before c after st w ws h y n z l =
    rw (parse_args-line_of (w ∷ ws) z l, cmdparse)
      (rw n (rw (find_command-first before c after (strlwr w) h y) refl))

-- A line of quoted words with no row for its first word changes nothing and gives -1, under the
-- same conditions on the words.
pub cmdparse-unknown {ℓ} :
    {S : Type ℓ}
    → (cmds : List (Command S)) → (st : S) → (w : Bytes) → (ws : List Bytes)
    → All (λ d. fits_name (strlwr w) d.name ≡ false) cmds
    → starts_comment w ≡ false
    → All NoZero (w ∷ ws)
    → length (w ∷ ws) ≤ max_args
    → cmdparse cmds st (line_of (w ∷ ws)) ≡ (st, negsuc 0)
unfolding cmdparse
cmdparse-unknown cmds st w ws h n z l =
    rw (parse_args-line_of (w ∷ ws) z l, cmdparse)
      (rw n (rw (find_command-none cmds (strlwr w) h) refl))

sign_cases : (z : ℤ) → ((r : ℕ) × (z ≡ pos r)) ⊎ ((r : ℕ) × (z ≡ negsuc r))
sign_cases (pos r) = inl (r, refl)
sign_cases (negsuc r) = inr (r, refl)

-- What becomes of the lines behind those read: they are read if no line failed.
abbrev pub behind {ℓ} : {S : Type ℓ} → List (Command S) → List Bytes → S × ℤ → S × ℤ
behind cmds ls (st, pos zero) = read_lines cmds st ls
behind cmds ls (st, r) = (st, r)

-- Lines are run in order, each on the state that the ones before it left, and nothing behind the
-- first line with a negative value runs; then the value is 2.
pub read_lines-append {ℓ} :
    {S : Type ℓ}
    → (cmds : List (Command S)) → (st : S) → (before bs : List Bytes)
    → read_lines cmds st (before ++ bs) ≡ behind cmds bs (read_lines cmds st before)
unfolding read_lines
read_lines-append cmds st [] bs = refl
read_lines-append cmds st (l ∷ before) bs =
    let (later, ret) = cmdparse cmds st (c_string l) in
    elim (sign_cases ret) [
      | inl (r, e) ↦ rw (e, read_lines) (read_lines-append cmds later before bs)
      | inr (r, e) ↦ rw (e, read_lines) refl
    ]

-- The lines one behind the other.
pub flatten : List Bytes → Bytes
flatten [] = []
flatten (l ∷ ls) = l ++ flatten ls

flatten-onto_first : (c : ℕ) (ls : List Bytes) → flatten (onto_first c ls) ≡ c ∷ flatten ls
unfolding flatten
flatten-onto_first c [] = refl
flatten-onto_first c (l ∷ ls) = refl

-- The lines that fgets reads, one behind the other, are the content of the file.
pub flatten-fgets_loop : (room : ℕ) (s : Bytes) → flatten (fgets_loop room s) ≡ s
unfolding fgets_loop flatten
flatten-fgets_loop room [] = refl
flatten-fgets_loop room (c ∷ s) = elim (Bool-cases (c == 10 || leb room 1)) [
  | inl y ↦ rw (y) (ap (◌∷◌ c) (flatten-fgets_loop (cfgline_len - 1) s))
  | inr n ↦ rw (n) (
      flatten-onto_first c (fgets_loop (room - 1) s) ∙ ap (◌∷◌ c) (flatten-fgets_loop (room - 1) s))
]
