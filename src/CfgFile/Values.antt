-- ===== src/CfgFile/Values.antt =====
-- The handlers of simple values of src/cfgfile.c.
use edysquelch.Prelude.{
  ℕ, ◌+◌, ◌-◌, ◌*◌, Bool, ◌||◌, Option, some, List, [], ◌∷◌, map, ◌==◌, if◌then◌else◌, ℤ, pos,
  negsuc, sub_ℕ, Bytes, codes, tolower, isdigit, isspace, str_case_equal,
}

-- The digits at the start of a text, as a number: the loop of hatoll. A number that overflows a
-- `long long` is undefined in C, and is not cut here.
unfoldable pub hatoll_loop : Bytes → ℕ → ℕ
unfolding isdigit
hatoll_loop [] res = res
hatoll_loop (c ∷ s) res =
    let rest = hatoll_loop s (res * 10 + (c - b'0')) in if isdigit c then rest else res

unfoldable pub hatoll : Bytes → ℕ
unfolding hatoll_loop
hatoll s = hatoll_loop s 0

unfoldable pub skip_space : Bytes → Bytes
unfolding isspace
skip_space [] = []
skip_space (c ∷ s) = if isspace c then skip_space s else c ∷ s

-- atoi, for the values that an `int` holds: blanks, a sign, digits.
signed_digits : Bytes → ℤ
signed_digits [] = pos 0
signed_digits (c ∷ s) =
    if c == b'-'
    then sub_ℕ 0 (hatoll s)
    else if c == b'+'
    then pos (hatoll s)
    else pos (hatoll (c ∷ s))

unfoldable pub atoi : Bytes → ℤ
unfolding signed_digits skip_space hatoll
atoi s = signed_digits (skip_space s)

unfoldable pub strlwr : Bytes → Bytes
unfolding tolower
strlwr s = map tolower s

-- A handler gets the words of the line and gives the new value with its return value.
unfoldable pub do_string : Option Bytes → List Bytes → Option Bytes × ℤ
do_string dest (w ∷ v ∷ rest) = (some v, pos 0)
do_string dest _ = (dest, negsuc 0)

unfoldable pub do_int : ℤ → List Bytes → ℤ × ℤ
do_int dest (w ∷ v ∷ rest) = (atoi v, pos 0)
do_int dest _ = (dest, negsuc 0)

is_true_word : Bytes → Bool
unfolding str_case_equal
is_true_word v =
    str_case_equal v (codes "true")
    || str_case_equal v (codes "on")
    || str_case_equal v (codes "1")
    || str_case_equal v (codes "enable")
    || str_case_equal v (codes "enabled")
    || str_case_equal v (codes "yes")

unfoldable pub do_toggle : ℤ → List Bytes → ℤ × ℤ
unfolding is_true_word
do_toggle dest (w ∷ v ∷ rest) = if is_true_word v then (pos 1, pos 1) else (pos 0, pos 0)
do_toggle dest _ = (dest, negsuc 0)
