-- ===== src/CfgFile.antt =====
-- src/cfgfile.c: the configuration file's words, commands and simple values.
pub mod Values
pub mod Words
pub mod Quoting
pub mod Commands
pub mod Keeping
mod Tests
use edysquelch.CfgFile.Values.{skip_space, strlwr}
use edysquelch.Prelude.{
  ℕ, zero, suc, ◌+◌, ◌-◌, ◌*◌, ◌%◌, ◌^◌, min, Bool, true, false, ◌&&◌, ◌||◌, Option, none, some,
  List, [], ◌∷◌, ◌++◌, map, leb, ◌==◌, if◌then◌else◌, length, take, ℤ, pos, negsuc, Bytes, codes,
  tolower, isspace, has_prefix, not,
}

-- The escapes of parse_string that stand for one fixed byte; any other byte stands for itself.
unfoldable pub escape_byte : ℕ → ℕ
escape_byte c =
    if c == b'n'
    then 10
    else if c == b't'
    then 9
    else if c == b'v'
    then 11
    else if c == b'b'
    then 8
    else if c == b'r'
    then 13
    else if c == b'f'
    then 12
    else if c == b'a'
    then 7
    else c

abbrev pub is_octal : ℕ → Bool
is_octal c = leb b'0' c && leb c b'7'

-- strtoul(str, &str, 8) at an octal digit: the value, which stops at the largest unsigned long,
-- and the text behind the digits.
unfoldable pub octal_value : Bytes → ℕ → ℕ
octal_value [] num = min num (2 ^ 64 - 1)
octal_value (c ∷ s) num =
    if is_octal c then octal_value s (num * 8 + (c - b'0')) else min num (2 ^ 64 - 1)

unfoldable pub skip_octal : Bytes → Bytes
skip_octal [] = []
skip_octal (c ∷ s) = if is_octal c then skip_octal s else c ∷ s

-- The bytes written and the text behind the final quote; `none` is NULL.
abbrev pub Parsed : Type 0
Parsed = Option (Bytes × Bytes)

abbrev pub put : ℕ → Parsed → Parsed
put c none = none
put c (some (out, rest)) = some (c ∷ out, rest)

-- The loop of parse_string on fuel. At `\x` the text given to strtoul begins with the `x`, so that
-- nothing is converted: a 0 is written and the `x` stays to be read.
unfoldable pub string_loop : ℕ → Bytes → Parsed
unfolding escape_byte octal_value skip_octal
string_loop zero s = none
string_loop (suc f) [] = some ([], [])
string_loop (suc f) (c ∷ []) =
    if c == b'"' || c == 92
    then (if c == b'"' then some ([], []) else none)
    else put c (string_loop f [])
string_loop (suc f) (c ∷ e ∷ s) =
    let plain = put c (string_loop f (e ∷ s)) in
    let hex = put 0 (string_loop f (e ∷ s)) in
    let octal = put (octal_value (e ∷ s) 0 % 256) (string_loop f (skip_octal (e ∷ s))) in
    let fixed = put (escape_byte e) (string_loop f s) in
    if c == b'"'
    then some ([], e ∷ s)
    else if not (c == 92)
    then plain
    else if e == b'x'
    then hex
    else if is_octal e
    then octal
    else fixed

-- The fuel is one more than the bytes of the text.
unfoldable pub parse_string : Bytes → Parsed
unfolding string_loop
parse_string s = string_loop (suc (length s)) s

-- The C string that stands in a buffer: it ends before the first 0.
unfoldable pub c_string : Bytes → Bytes
c_string [] = []
c_string (c ∷ s) = if c == 0 then [] else c ∷ c_string s

unfoldable pub word_of : Bytes → Bytes
unfolding isspace
word_of [] = []
word_of (c ∷ s) = if isspace c then [] else c ∷ word_of s

unfoldable pub behind_word : Bytes → Bytes
unfolding isspace
behind_word [] = []
behind_word (c ∷ s) = if isspace c then c ∷ s else behind_word s

-- `if (*cmd) *cmd++ = 0;`: whatever stands behind a word is dropped.
abbrev pub drop_one : Bytes → Bytes
drop_one [] = []
drop_one (c ∷ s) = s

abbrev pub add_word : Bytes → Option (List Bytes) → Option (List Bytes)
add_word w none = none
add_word w (some ws) = some (w ∷ ws)

-- The loop of parse_args with the rounds left, of 255; `none` is the return after a NULL.
unfoldable pub args_loop : ℕ → Bytes → Option (List Bytes)
args_loop zero s = some []
args_loop (suc n) s = elim (skip_space s) [
  | [] ↦ some []
  | c ∷ rest ↦ elim (c == b'"') [
    | true ↦ elim (parse_string rest) [
      | none ↦ none
      | some (out, behind) ↦ add_word (c_string out) (args_loop n (drop_one behind))
    ]
    | false ↦ add_word (word_of (c ∷ rest)) (args_loop n (drop_one (behind_word (c ∷ rest))))
  ]
]

abbrev pub max_args : ℕ
max_args = 255

-- The words; the number returned is their number, and 0 after a NULL.
unfoldable pub parse_args : Bytes → List Bytes
unfolding args_loop
parse_args cmd = elim (args_loop max_args cmd) [ none ↦ [] | some ws ↦ ws ]

-- CFGLINE_LEN
abbrev pub cfgline_len : ℕ
cfgline_len = 102400

-- strncat(s, t, sizeof(s)-strlen(s)-1)
abbrev pub append_bounded : Bytes → Bytes → Bytes
append_bounded s t = s ++ take (cfgline_len - length s - 1) t

unfoldable pub argstr_loop : Bytes → List Bytes → Bytes
argstr_loop s [] = s
argstr_loop s (w ∷ ws) = argstr_loop (append_bounded (append_bounded s w) (codes " ")) ws

-- The last byte is cut off.
unfoldable pub drop_last : Bytes → Bytes
drop_last [] = []
drop_last (c ∷ []) = []
drop_last (c ∷ d ∷ s) = c ∷ drop_last (d ∷ s)

-- argstr for the words from index `arg` on.
unfoldable pub argstr : List Bytes → Bytes
unfolding argstr_loop drop_last
argstr words = drop_last (argstr_loop [] words)

-- One row of a command table; the handler keeps its destination in the state.
pub record Command {ℓ} (S : Type ℓ) : Type ℓ where
  pub name : Bytes
  pub function : S → List Bytes → S × ℤ

-- strncasecmp(cmdp->name, argv[0], strlen(argv[0])) == 0
unfoldable pub fits_name : Bytes → Bytes → Bool
unfolding has_prefix tolower
fits_name word name = has_prefix (map tolower word) (map tolower name)

-- The first row that fits; `none` is the row with the NULL function that ends the table.
unfoldable pub find_command {ℓ} : {S : Type ℓ} → List (Command S) → Bytes → Option (Command S)
unfolding fits_name
find_command [] word = none
find_command (c ∷ cmds) word = if fits_name word c.name then some c else find_command cmds word

abbrev pub starts_comment : Bytes → Bool
starts_comment [] = false
starts_comment (c ∷ w) = c == b'#'

-- The value next to the state is what the source returns.
unfoldable pub cmdparse {ℓ} : {S : Type ℓ} → List (Command S) → S → Bytes → S × ℤ
unfolding parse_args strlwr find_command
cmdparse cmds st cmdline = elim (parse_args cmdline) [
  | [] ↦ (st, pos 0)
  | w ∷ ws ↦ elim (starts_comment w) [
    | true ↦ (st, pos 0)
    | false ↦ elim (find_command cmds (strlwr w)) [
      | none ↦ (st, negsuc 0)
      | some c ↦ c.function st (strlwr w ∷ ws)
    ]
  ]
]

-- A byte goes in front of the first line.
abbrev pub onto_first : ℕ → List Bytes → List Bytes
onto_first c [] = (c ∷ []) ∷ []
onto_first c (l ∷ ls) = (c ∷ l) ∷ ls

-- What fgets reads call by call, with the room left in the buffer beside the final 0.
unfoldable pub fgets_loop : ℕ → Bytes → List Bytes
fgets_loop room [] = []
fgets_loop room (c ∷ s) =
    let ends = c == 10 || leb room 1 in
    let rest = fgets_loop (if ends then cfgline_len - 1 else room - 1) s in
    if ends then (c ∷ []) ∷ rest else onto_first c rest

-- Each line is parsed as the C string in the buffer; a negative value ends the reading with 2.
unfoldable pub read_lines {ℓ} : {S : Type ℓ} → List (Command S) → S → List Bytes → S × ℤ
read_lines cmds st [] = (st, pos 0)
read_lines cmds st (l ∷ ls) =
    let (later, ret) = cmdparse cmds st (c_string l) in
    elim ret [ pos r ↦ read_lines cmds later ls | negsuc r ↦ (later, pos 2) ]

-- The first of the files that opens.
unfoldable pub first_file : (Bytes → Option Bytes) → List Bytes → Option Bytes
first_file fopen [] = none
first_file fopen (f ∷ fs) = elim (fopen f) [
  | some content ↦ some content
  | none ↦ first_file fopen fs
]

-- `fopen` gives the content of a file that opens.
unfoldable pub read_cfgfile {ℓ} :
    {S : Type ℓ} → (Bytes → Option Bytes) → Bytes → List (Command S) → S → S × ℤ
unfolding first_file read_lines fgets_loop
read_cfgfile fopen f cmds st =
    elim (first_file fopen (
      f
      ∷ codes "/etc/gnuais.conf"
      ∷ codes "/usr/local/etc/gnuais.conf"
      ∷ codes "/usr/etc/gnuais.conf"
      ∷ [])) [
        | none ↦ (st, pos 1)
        | some content ↦ read_lines cmds st (fgets_loop (cfgline_len - 1) content)
      ]
