-- ===== src/CfgFile/Tests.antt =====
-- Runs of the parser on lines of a configuration, and the theorems at concrete inputs.
use edysquelch.Prelude.{
  ◌≡◌, refl, some, List, [], ◌∷◌, arith, All, ℤ, pos, negsuc, Bytes, codes, isdigit, isspace,
  has_prefix, tolower,
}
use edysquelch.CfgFile.Values.{hatoll_loop, hatoll, skip_space, atoi, strlwr, do_int}
use edysquelch.CfgFile.{
  escape_byte, octal_value, skip_octal, string_loop, parse_string, c_string, word_of, behind_word,
  args_loop, parse_args, Command, cmdparse, fits_name,
}
use edysquelch.CfgFile.Words.{IsPlain}
use edysquelch.CfgFile.Quoting.{line_of, NoZero, parse_args-line_of}
use edysquelch.CfgFile.Commands.{cmdparse-first}

parse_args-runs :
    (parse_args (codes "Sound  \"a b\\\"c\" 12\n")
      ≡ codes "Sound" ∷ codes "a b\"c" ∷ codes "12" ∷ [])
    × (parse_args (codes "Sound \"a b") ≡ codes "Sound" ∷ codes "a b" ∷ [])
    × (parse_args (codes "a \"b\"cd") ≡ codes "a" ∷ codes "b" ∷ codes "d" ∷ [])
unfolding parse_args args_loop skip_space word_of behind_word parse_string string_loop c_string
    isspace escape_byte
parse_args-runs = (refl, refl, refl)

-- The digits behind `\x` stay in the text, behind a byte 0.
parse_string-hex : parse_string (codes "\\x41\"") ≡ some (0 ∷ codes "x41", [])
unfolding parse_string string_loop
parse_string-hex = refl

parse_string-octal : parse_string (codes "\\101\" z") ≡ some (codes "A", codes " z")
unfolding parse_string string_loop octal_value skip_octal
parse_string-octal = refl

atoi-runs : (atoi (codes " -42x") ≡ negsuc 41) × (atoi (codes "17") ≡ pos 17)
unfolding atoi skip_space isspace hatoll hatoll_loop isdigit
atoi-runs = (refl, refl)

abbrev words : List Bytes
words = codes "Device" ∷ codes "" ∷ codes "a \"b" ∷ []

words-NoZero : All NoZero words
words-NoZero = (
  (omega arith, (omega arith, (omega arith, (omega arith, (omega arith, (omega arith, tt)))))),
  (tt, ((omega arith, (omega arith, (omega arith, (omega arith, tt)))), tt)),
)

line_of_example : parse_args (line_of words) ≡ words
line_of_example = parse_args-line_of words words-NoZero (omega arith)

abbrev plain : List Bytes
plain = codes "level" ∷ codes "10" ∷ []

plain-IsPlain : All IsPlain plain
unfolding isspace
plain-IsPlain = (
  (omega arith, (refl, (refl, (refl, (refl, (refl, tt)))))),
  ((omega arith, (refl, (refl, tt))), tt),
)

-- A table for a configuration of one number.
abbrev table : List (Command ℤ)
table =
    record { name = codes "setall"; function = λ st ws. (pos 99, pos 0) }
    ∷ record { name = codes "device"; function = do_int }
    ∷ record { name = codes "devices"; function = λ st ws. (st, pos 0) }
    ∷ []

first_example :
    cmdparse table (pos 1) (line_of words)
    ≡ do_int (pos 1) (strlwr (codes "Device") ∷ codes "" ∷ codes "a \"b" ∷ [])
first_example =
    cmdparse-first (record { name = codes "setall"; function = λ st ws. (pos 99, pos 0) } ∷ [])
      (record { name = codes "device"; function = do_int })
      (record { name = codes "devices"; function = λ st ws. (st, pos 0) } ∷ []) (pos 1)
      (codes "Device") (codes "" ∷ codes "a \"b" ∷ [])
      ((unfold fits_name strlwr has_prefix tolower in refl), tt)
      (unfold fits_name strlwr has_prefix tolower in refl) refl words-NoZero (omega arith)
