-- ===== src/Prelude/Text.antt =====
-- C strings as lists of bytes with no final NUL, and the string functions of the C library that the
-- program calls.
use Prim.Native.Char.{code}
use Prim.Native.Nat.{ℕ, ◌+◌, ◌-◌}
use Prim.Native.String.{String}
use mathlib.Core.Bool.{Bool, true, false, ◌&&◌, ◌||◌}
use mathlib.Core.List.{List, [], ◌∷◌, ◌++◌, map}
use mathlib.Core.Logic.{◌↔◌, inl, inr}
use mathlib.Core.Option.{Option, none, some}
use mathlib.Core.Path.{◌≡◌, refl, ap}
use native.Mathlib.Omega.{arith}
use edysquelch.Prelude.Lists.{length, length-append}
use edysquelch.Prelude.Tests.{leb, ◌==◌, if◌then◌else◌, Bool-cases}

abbrev pub Bytes : Type 0
Bytes = List ℕ

-- The bytes of an ASCII literal.
abbrev pub codes : String → Bytes
codes String.[] = []
codes (String.◌∷◌ c s) = code c ∷ codes s

-- strcmp(a, b) == 0
unfoldable pub str_equal : Bytes → Bytes → Bool
str_equal [] [] = true
str_equal [] (y ∷ ys) = false
str_equal (x ∷ xs) [] = false
str_equal (x ∷ xs) (y ∷ ys) = x == y && str_equal xs ys

pub str_equal_iff : (a b : Bytes) → (str_equal a b ≡ true) ↔ (a ≡ b)
unfolding str_equal
str_equal_iff (x ∷ a) (y ∷ b) = ground (arith, str_equal_iff a b)
str_equal_iff _ _ = ground arith

-- strncmp(p, s, strlen(p)) == 0
unfoldable pub has_prefix : Bytes → Bytes → Bool
has_prefix [] s = true
has_prefix (p ∷ ps) [] = false
has_prefix (p ∷ ps) (c ∷ s) = p == c && has_prefix ps s

-- strstr: the rest of the text from the first place where the needle stands.
unfoldable pub strstr : Bytes → Bytes → Option Bytes
strstr [] needle = if has_prefix needle [] then some [] else none
strstr (c ∷ s) needle = if has_prefix needle (c ∷ s) then some (c ∷ s) else strstr s needle

pub has_prefix-append : (p s : Bytes) → has_prefix p (p ++ s) ≡ true
unfolding has_prefix
has_prefix-append [] s = refl
has_prefix-append (c ∷ p) s = ground (arith, has_prefix-append p s)

-- A text that begins with a prefix of its own length is that prefix.
pub has_prefix-eq : (p s : Bytes) → has_prefix p s ≡ true → length s ≡ length p → s ≡ p
unfolding has_prefix
has_prefix-eq [] [] h e = refl
has_prefix-eq [] (c ∷ s) h e = absurd (omega arith)
has_prefix-eq (p ∷ ps) [] h e = absurd (omega arith)
has_prefix-eq (p ∷ ps) (c ∷ s) h e = ground (arith, has_prefix-eq ps s)

-- What strstr finds is a part of the text that reaches to its end, and begins with the needle.
pub strstr-some :
    (s needle : Bytes) {t : Bytes}
    → strstr s needle ≡ some t
    → (stem : Bytes) × (s ≡ stem ++ t) × (has_prefix needle t ≡ true)
unfolding strstr
strstr-some [] needle h = ([], ground arith, ground arith)
strstr-some (c ∷ s) needle {t} h = elim (Bool-cases (has_prefix needle (c ∷ s))) [
  | inl e ↦ ([], ground arith, ground arith)
  | inr e ↦ let (stem, p, q) = strstr-some s needle (ground arith) in (c ∷ stem, ap (◌∷◌ c) p, q)
]

-- tolower, toupper, isdigit and isspace, in the C locale.
unfoldable pub tolower : ℕ → ℕ
tolower c = if leb b'A' c && leb c b'Z' then c + 32 else c

unfoldable pub toupper : ℕ → ℕ
toupper c = if leb b'a' c && leb c b'z' then c - 32 else c

unfoldable pub isdigit : ℕ → Bool
isdigit c = leb b'0' c && leb c b'9'

unfoldable pub isspace : ℕ → Bool
isspace c = c == b' ' || (leb 9 c && leb c 13)

-- strcasecmp(a, b) == 0
unfoldable pub str_case_equal : Bytes → Bytes → Bool
unfolding str_equal tolower
str_case_equal a b = str_equal (map tolower a) (map tolower b)

-- The pieces of a printed text, one behind the other.
abbrev pub joined : List Bytes → Bytes
joined [] = []
joined (b ∷ bs) = b ++ joined bs

abbrev pub total : List Bytes → ℕ
total [] = 0
total (b ∷ bs) = length b + total bs

pub length-joined : (bs : List Bytes) → length (joined bs) ≡ total bs
length-joined [] = refl
length-joined (b ∷ bs) = omega (arith, length-append {0} b (joined bs), length-joined bs)
