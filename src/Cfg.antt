-- ===== src/Cfg.antt =====
-- src/cfg.c: the handlers of configuration values that are its own.
pub mod Intervals
pub mod Uplinks
pub mod Reading
pub mod Complete
pub mod CommandLine
pub mod Options
pub mod Pointers
mod Tests
use edysquelch.Prelude.{
  ℕ, ◌+◌, ◌*◌, List, [], ◌∷◌, ◌++◌, ◌==◌, if◌then◌else◌, ℤ, pos, negsuc, sub_ℕ, ◌+ℤ◌, to_int, Bytes,
  codes, tolower, isdigit, str_case_equal, null_followed, Outcome, done, halted, map, toupper, Bool,
  true, false,
}
use edysquelch.CfgFile.Values.{atoi}

-- The seconds of a unit, and 0 for any other character.
unfoldable pub unit_of : ℕ → ℕ
unit_of c =
    if c == b's'
    then 1
    else if c == b'm'
    then 60
    else if c == b'h'
    then 60 * 60
    else if c == b'd'
    then 24 * 60 * 60
    else 0

abbrev pub scale : ℕ → ℤ → ℤ
scale k (pos n) = pos (k * n)
scale k (negsuc n) = sub_ℕ 0 (k * (n + 1))

-- What stands at the end with no unit counts as seconds.
abbrev pub last_part : Bytes → ℤ → ℤ
last_part [] t = t
last_part (c ∷ number) t = t +ℤ to_int (atoi (c ∷ number))

-- The loop of parse_interval with the text from `np` to `p`, and `t`. `i` and the products
-- are an int. Their overflow, undefined in C, is taken to wrap; `t`, of 64 bits, is not bounded.
unfoldable pub interval_loop : Bytes → ℤ → Bytes → ℤ
unfolding unit_of
interval_loop number t [] = last_part number t
interval_loop number t (c ∷ s) =
    let digit = isdigit c in
    interval_loop (if digit then number ++ (c ∷ []) else [])
      (if digit then t else t +ℤ to_int (scale (unit_of (tolower c)) (to_int (atoi number)))) s

unfoldable pub parse_interval : Bytes → ℤ
unfolding interval_loop
parse_interval origs = interval_loop [] (pos 0) origs

-- `*dest` is an int.
unfoldable pub do_interval : ℤ → List Bytes → ℤ × ℤ
unfolding parse_interval
do_interval dest (w ∷ v ∷ rest) = (to_int (parse_interval v), pos 0)
do_interval dest _ = (dest, negsuc 0)

-- SOUND_CHANNELS_MONO and so on
pub data SoundChannels : Type 0 where
  mono both left_only right_only : SoundChannels

abbrev pub is_mono : SoundChannels → Bool
is_mono mono = true
is_mono _ = false

unfoldable pub do_sound_ch : SoundChannels → List Bytes → SoundChannels × ℤ
unfolding str_case_equal
do_sound_ch dest (w ∷ v ∷ rest) =
    if str_case_equal v (codes "mono")
    then (mono, pos 0)
    else if str_case_equal v (codes "both")
    then (both, pos 0)
    else if str_case_equal v (codes "left")
    then (left_only, pos 0)
    else if str_case_equal v (codes "right")
    then (right_only, pos 0)
    else (dest, negsuc 0)
do_sound_ch dest _ = (dest, negsuc 0)

-- struct uplink_config_t; the list stands for the chain of `next` pointers, and `proto` is
-- UPLINK_JSON always.
pub record UplinkConfig : Type 0 where
  pub name : Bytes
  pub url : Bytes

-- With three words argv[3] is the NULL behind them, which hstrdup follows.
unfoldable pub do_uplink : List UplinkConfig → List Bytes → Outcome (List UplinkConfig × ℤ)
unfolding str_case_equal
do_uplink lq (w ∷ label ∷ proto ∷ rest) =
    if str_case_equal proto (codes "json")
    then elim rest [
      | [] ↦ halted null_followed
      | url ∷ _ ↦ done (record { name = label; url = url } ∷ lq, pos 0)
    ]
    else done (lq, negsuc 1)
do_uplink lq _ = done (lq, negsuc 0)

unfoldable pub strupr : Bytes → Bytes
unfolding toupper
strupr s = map toupper s
