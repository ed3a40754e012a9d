-- ===== src/CfgFile/Quoting.antt =====
-- Quoted words are read back.
use edysquelch.Prelude.{
  ℕ, zero, suc, ◌≤◌, ◌<◌, ◌≡◌, refl, ◌∙◌, ◌≢◌, ◌⊎◌, inl, inr, ◌||◌, some, List, [], ◌∷◌, ◌++◌,
  arith, ◌==◌, if◌then◌else◌, Bool-cases, length, All, Bytes,
}
use edysquelch.CfgFile.Values.{skip_space}
use edysquelch.CfgFile.{put, string_loop, parse_string, c_string, args_loop, max_args, parse_args}

-- How a word is written between quotes: a quote and a backslash get a backslash.
pub escaped : Bytes → Bytes
escaped [] = []
escaped (c ∷ s) = if c == b'"' || c == 92 then 92 ∷ c ∷ escaped s else c ∷ escaped s

abbrev pub quoted : Bytes → Bytes
quoted w = b'"' ∷ (escaped w ++ b'"' ∷ [])

-- Quoted words with a blank behind each.
pub line_of : List Bytes → Bytes
line_of [] = []
line_of (w ∷ ws) = b'"' ∷ (escaped w ++ (b'"' ∷ b' ' ∷ line_of ws))

-- No byte of the word is 0.
abbrev pub NoZero : Bytes → Type 0
NoZero w = All (λ c. c ≢ 0) w

string_loop-plain :
    (f c : ℕ) (s : Bytes)
    → c ≢ b'"'
    → c ≢ 92
    → s ≢ []
    → string_loop (suc f) (c ∷ s) ≡ put c (string_loop f s)
unfolding string_loop
string_loop-plain f c [] q b h = absurd (h refl)
string_loop-plain f c (e ∷ s) q b h = ground arith

string_loop-escape :
    (f c : ℕ) (s : Bytes)
    → (c ≡ b'"') ⊎ (c ≡ 92)
    → string_loop (suc f) (92 ∷ c ∷ s) ≡ put c (string_loop f s)
unfolding string_loop
string_loop-escape f c s h = ground arith

escaped-ne-nil : (w rest : Bytes) → escaped w ++ (b'"' ∷ rest) ≢ []
unfolding escaped
escaped-ne-nil [] rest e = cc
escaped-ne-nil (c ∷ w) rest e = elim (Bool-cases (c == b'"' || c == 92)) [
  | inl y ↦ cc (rw y at e)
  | inr n ↦ cc (rw n at e)
]

string_loop-end : (f : ℕ) (rest : Bytes) → string_loop (suc f) (b'"' ∷ rest) ≡ some ([], rest)
unfolding string_loop
string_loop-end f [] = refl
string_loop-end f (e ∷ s) = refl

string_loop-escaped :
    (w rest : Bytes) (f : ℕ)
    → length w < f
    → string_loop f (escaped w ++ (b'"' ∷ rest)) ≡ some (w, rest)
unfolding escaped
string_loop-escaped w rest zero h = elim h [ ]
string_loop-escaped [] rest (suc f) h = string_loop-end f rest
string_loop-escaped (c ∷ w) rest (suc f) h =
    let later = string_loop-escaped w rest f (omega arith) in
    elim (Bool-cases (c == b'"' || c == 92)) [
      | inl y ↦
          rw (y)
            (string_loop-escape f c (escaped w ++ (b'"' ∷ rest)) (ground arith) ∙ rw later refl)
      | inr n ↦ rw n (
          string_loop-plain f c (escaped w ++ (b'"' ∷ rest)) (ground arith) (ground arith)
            (escaped-ne-nil w rest)
          ∙ rw later refl)
    ]

length-escaped : (w rest : Bytes) → length w ≤ length (escaped w ++ rest)
unfolding escaped
length-escaped [] rest = omega arith
length-escaped (c ∷ w) rest = ground (arith, length-escaped w rest)

-- parse_string reads an escaped word up to its closing quote, and gives the word and what stands
-- behind the quote, whatever that is.
pub parse_string-escaped :
    (w rest : Bytes) → parse_string (escaped w ++ (b'"' ∷ rest)) ≡ some (w, rest)
unfolding parse_string
parse_string-escaped w rest =
    string_loop-escaped w rest (suc (length (escaped w ++ (b'"' ∷ rest))))
      (omega (arith, length-escaped w (b'"' ∷ rest)))

c_string-NoZero : (w : Bytes) → NoZero w → c_string w ≡ w
unfolding c_string
c_string-NoZero [] h = refl
c_string-NoZero (c ∷ w) (ne, h) = ground (arith, c_string-NoZero w h)

args_loop-line_of :
    (ws : List Bytes) (n : ℕ) → All NoZero ws → length ws ≤ n → args_loop n (line_of ws) ≡ some ws
unfolding args_loop line_of skip_space
args_loop-line_of [] zero h l = refl
args_loop-line_of [] (suc n) h l = refl
args_loop-line_of (w ∷ ws) zero h l = absurd (omega arith)
args_loop-line_of (w ∷ ws) (suc n) (h, hs) l =
    let first = parse_string-escaped w (b' ' ∷ line_of ws) in
    let later = args_loop-line_of ws n hs (omega arith) in
    rw (first, args_loop) (rw (c_string-NoZero w h, later) refl)

-- A line of up to 255 words, each quoted and escaped, with a blank behind each, is read back as
-- exactly these words; they may hold any bytes but 0, blanks, quotes and backslashes included, and
-- may be empty.
pub parse_args-line_of :
    (ws : List Bytes) → All NoZero ws → length ws ≤ max_args → parse_args (line_of ws) ≡ ws
unfolding parse_args
parse_args-line_of ws h l = rw (args_loop-line_of ws max_args h l, parse_args) refl
