-- ===== src/CfgFile/Keeping.antt =====
-- What every command keeps, reading a file keeps.
use mathlib.Core.Option.{some-injective}
use edysquelch.Prelude.{
  ℕ, ◌-◌, ◌≡◌, refl, subst, ◌⊎◌, inl, inr, Option, some, List, [], ◌∷◌, Bool-cases, Option-cases,
  All, ℤ, pos, negsuc, Bytes, codes,
}
use edysquelch.CfgFile.{
  c_string, parse_args, cfgline_len, Command, fits_name, find_command, starts_comment, cmdparse,
  fgets_loop, read_lines, first_file, read_cfgfile,
}
use edysquelch.CfgFile.Values.{strlwr}

list_cases {ℓ} :
    {A : Type ℓ} (xs : List A) → (xs ≡ []) ⊎ ((x : A) × (rest : List A) × (xs ≡ x ∷ rest))
list_cases [] = inl refl
list_cases (x ∷ rest) = inr (x, rest, refl)

ℤ-signs : (z : ℤ) → ((n : ℕ) × (z ≡ pos n)) ⊎ ((n : ℕ) × (z ≡ negsuc n))
ℤ-signs (pos n) = inl (n, refl)
ℤ-signs (negsuc n) = inr (n, refl)

abbrev searched : Bytes → List Bytes
searched f =
    f
    ∷ codes "/etc/gnuais.conf"
    ∷ codes "/usr/local/etc/gnuais.conf"
    ∷ codes "/usr/etc/gnuais.conf"
    ∷ []

module _ {S : Type 0} (P : S → Type 0) where
  abbrev pub Keeps : Command S → Type 0
  Keeps c = (st : S) (ws : List Bytes) → P st → P (c.function st ws).0

  find_command-Keeps :
      (cmds : List (Command S)) (word : Bytes) {c : Command S}
      → All Keeps cmds
      → find_command cmds word ≡ some c
      → Keeps c
  unfolding find_command
  find_command-Keeps [] word h e = cc
  find_command-Keeps (d ∷ cmds) word {c} (k, ks) e = elim (Bool-cases (fits_name word d.name)) [
    | inl y ↦ subst Keeps (some-injective d c (rw y at e)) k
    | inr n ↦ find_command-Keeps cmds word ks (rw n at e)
  ]

  cmdparse-Keeps :
      (cmds : List (Command S)) (st : S) (line : Bytes)
      → All Keeps cmds
      → P st
      → P (cmdparse cmds st line).0
  unfolding cmdparse
  cmdparse-Keeps cmds st line h p = elim (list_cases (parse_args line)) [
    | inl e ↦ rw (e, cmdparse) p
    | inr (w, ws, e) ↦ elim (Bool-cases (starts_comment w)) [
      | inl y ↦ rw (e, y, cmdparse) p
      | inr n ↦ elim (Option-cases (find_command cmds (strlwr w))) [
        | inl none_fits ↦ rw (e, n, none_fits, cmdparse) p
        | inr (c, fits) ↦
            let kept = find_command-Keeps cmds (strlwr w) h fits st (strlwr w ∷ ws) p in
            rw (e, n, fits, cmdparse) kept
      ]
    ]
  ]

  read_lines-Keeps :
      (cmds : List (Command S)) (st : S) (ls : List Bytes)
      → All Keeps cmds
      → P st
      → P (read_lines cmds st ls).0
  unfolding read_lines
  read_lines-Keeps cmds st [] h p = p
  read_lines-Keeps cmds st (l ∷ ls) h p =
      let kept = cmdparse-Keeps cmds st (c_string l) h p in
      elim (ℤ-signs (cmdparse cmds st (c_string l)).1) [
        | inl (r, e) ↦
            rw (e, read_lines) (read_lines-Keeps cmds (cmdparse cmds st (c_string l)).0 ls h kept)
        | inr (r, e) ↦ rw (e, read_lines) kept
      ]

  -- Whatever file is found and whatever it says: a property of the state that every command of the
  -- table keeps, for all words, holds behind the reading if it held in front of it.
  pub read_cfgfile-Keeps :
      (fopen : Bytes → Option Bytes) (f : Bytes) (cmds : List (Command S)) (st : S)
      → All Keeps cmds
      → P st
      → P (read_cfgfile fopen f cmds st).0
  unfolding read_cfgfile
  read_cfgfile-Keeps fopen f cmds st h p = elim (Option-cases (first_file fopen (searched f))) [
    | inl e ↦ rw (e, read_cfgfile) p
    | inr (content, e) ↦
        rw (e, read_cfgfile) (read_lines-Keeps cmds st (fgets_loop (cfgline_len - 1) content) h p)
  ]
