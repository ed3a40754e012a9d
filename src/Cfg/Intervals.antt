-- ===== src/Cfg/Intervals.antt =====
-- An interval is the sum of its parts.
use edysquelch.Prelude.{
  ℕ, ◌≡◌, sym, ap, ◌∙◌, true, false, List, [], ◌∷◌, ◌++◌, All, ℤ, pos, ◌+ℤ◌, IsInt, to_int-IsInt,
  Bytes, tolower, isdigit, refl,
}
use edysquelch.CfgFile.Values.{atoi}
use edysquelch.Cfg.{unit_of, scale, last_part, interval_loop, parse_interval}
use mathlib.Core.List.{append-nil, append_assoc}

-- Digits with a unit behind them.
pub record Part : Type 0 where
  pub digits : Bytes
  pub unit : ℕ

abbrev pub IsPart : Part → Type 0
IsPart p = All (λ c. isdigit c ≡ true) p.digits × (isdigit p.unit ≡ false)

-- The part's number fits an int, and so do its seconds.
abbrev pub FitsInt : Part → Type 0
FitsInt p = IsInt (atoi p.digits) × IsInt (scale (unit_of (tolower p.unit)) (atoi p.digits))

pub text_of : List Part → Bytes → Bytes
text_of [] tail = tail
text_of (p ∷ ps) tail = p.digits ++ (p.unit ∷ text_of ps tail)

-- The seconds of the parts, on top of `t`.
pub seconds : List Part → ℤ → ℤ
seconds [] t = t
seconds (p ∷ ps) t = seconds ps (t +ℤ scale (unit_of (tolower p.unit)) (atoi p.digits))

-- The seconds with those of the digits behind the last part.
abbrev pub seconds_in_all : List Part → Bytes → ℤ
seconds_in_all ps [] = seconds ps (pos 0)
seconds_in_all ps (c ∷ number) = seconds ps (pos 0) +ℤ atoi (c ∷ number)

interval_loop-digits :
    (number ds rest : Bytes) (t : ℤ)
    → All (λ c. isdigit c ≡ true) ds
    → interval_loop number t (ds ++ rest) ≡ interval_loop (number ++ ds) t rest
unfolding interval_loop
interval_loop-digits number [] rest t h = ap (λ x. interval_loop x t rest) (sym (append-nil number))
interval_loop-digits number (c ∷ ds) rest t (d, h) =
    rw (d, interval_loop)
      (interval_loop-digits (number ++ (c ∷ [])) ds rest t h
        ∙ ap (λ x. interval_loop x t rest) (append_assoc number (c ∷ []) ds))

interval_loop-text_of :
    (ps : List Part) (tail : Bytes) (t : ℤ)
    → All IsPart ps
    → All FitsInt ps
    → All (λ c. isdigit c ≡ true) tail
    → interval_loop [] t (text_of ps tail) ≡ last_part tail (seconds ps t)
unfolding interval_loop text_of seconds
interval_loop-text_of [] tail t h fits d =
    ap (interval_loop [] t) (sym (append-nil tail)) ∙ interval_loop-digits [] tail [] t d
interval_loop-text_of (p ∷ ps) tail t ((ds, u), h) ((number, product), fits) d =
    interval_loop-digits [] p.digits (p.unit ∷ text_of ps tail) t ds
    ∙ rw
        (
          u,
          interval_loop,
          to_int-IsInt (atoi p.digits) number,
          to_int-IsInt (scale (unit_of (tolower p.unit)) (atoi p.digits)) product,
        )
        (interval_loop-text_of ps tail _ h fits d)

last_part-IsInt :
    (ps : List Part) (tail : Bytes)
    → IsInt (atoi tail)
    → last_part tail (seconds ps (pos 0)) ≡ seconds_in_all ps tail
last_part-IsInt ps [] h = refl
last_part-IsInt ps (c ∷ number) h =
    ap (λ n. seconds ps (pos 0) +ℤ n) (to_int-IsInt (atoi (c ∷ number)) h)

-- An interval of parts, each of digits with a unit behind them, and digits behind the last part, is
-- the sum of the parts' numbers times the seconds of their units and of the last number, where each
-- number and each product fits an int of 32 bits; a unit may be in upper case, and one that is none
-- of s, m, h and d counts nothing.
pub parse_interval-text_of :
    (ps : List Part) (tail : Bytes)
    → All IsPart ps
    → All FitsInt ps
    → All (λ c. isdigit c ≡ true) tail
    → IsInt (atoi tail)
    → parse_interval (text_of ps tail) ≡ seconds_in_all ps tail
unfolding parse_interval
parse_interval-text_of ps tail h fits d last =
    interval_loop-text_of ps tail (pos 0) h fits d ∙ last_part-IsInt ps tail last
