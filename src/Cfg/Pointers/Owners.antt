-- ===== src/Cfg/Pointers/Owners.antt =====
-- Who owns which block: every variable owns its own.
use edysquelch.Prelude.{ℕ, ◌+◌, ◌≡◌, ◌⊎◌, inr, true, false, List, [], ◌∷◌, arith, All, Bytes}
use edysquelch.Memory.{Static, def_cfgfile, def_logname, Pointer, null, Heap, Allocator, hstrdup}
use edysquelch.Memory.Safety.{Safe, Safe->>=, points, is_static, Exactly, hstrdup-Safe}
use edysquelch.Cfg.Pointers.{UplinkNode, Variables, is_default, State, assign}

abbrev pub IsPlain : Pointer → Type 0
IsPlain x = is_static x ≡ false

-- A pointer that may also be at its default.
abbrev pub CanFree : Static → Pointer → Type 0
CanFree s x = (is_default x s ≡ true) ⊎ IsPlain x

abbrev pub IsPlainNode : UplinkNode → Type 0
IsPlainNode u = IsPlain u.node × IsPlain u.name × IsPlain u.url

-- What the variables may point at, with what the sound device may.
abbrev pub Kinds : (Pointer → Type 0) → Variables → Type 0
Kinds D v =
    CanFree def_cfgfile v.cfgfile
    × IsPlain v.pidfile
    × IsPlain v.logdir
    × IsPlain v.log_dir
    × IsPlain v.fpdir
    × CanFree def_logname v.logname
    × D v.sound_device
    × IsPlain v.sound_in_file
    × IsPlain v.sound_out_file
    × All IsPlainNode v.uplink_config
    × All IsPlainNode v.new_uplink_config

-- How many of the variables' pointers are the address of a block.
abbrev pub own_list : List UplinkNode → ℕ → ℕ
own_list [] b = 0
own_list (u ∷ us) b = points u.name b + points u.url b + points u.node b + own_list us b

abbrev pub own : Variables → ℕ → ℕ
own v b =
    points v.cfgfile b
    + points v.pidfile b
    + points v.logdir b
    + points v.log_dir b
    + points v.fpdir b
    + points v.logname b
    + points v.sound_device b
    + points v.sound_in_file b
    + points v.sound_out_file b
    + own_list v.uplink_config b
    + own_list v.new_uplink_config b

abbrev pub points_all : List Pointer → ℕ → ℕ
points_all [] b = 0
points_all (x ∷ xs) b = points x b + points_all xs b

-- The blocks that are allocated are those that variables point at, each once for each of them, and
-- those that `lost` points at.
abbrev pub Owned : (Pointer → Type 0) → List Pointer → State → Type 0
Owned D lost s = Kinds D s.0 × Exactly (λ b. own s.0 b + points_all lost b) s.1

-- One of the variables, with its value and how it is set.
pub record Settable (D : Pointer → Type 0) (v : Variables) (dest : Pointer)
    (place : Pointer → Variables) : Type 0 where
  pub keeps : (b : ℕ) → points dest b + own (place null) b ≡ own v b
  pub sets : (x : Pointer) (b : ℕ) → own (place x) b ≡ points x b + own (place null) b
  pub kinds : (x : Pointer) → IsPlain x → Kinds D (place x)

pub cfgfile-Settable :
    {D : Pointer → Type 0} (v : Variables)
    → Kinds D v
    → Settable D v v.cfgfile (λ x. record v { cfgfile = x })
cfgfile-Settable v (c, p, l, ld, f, ln, d, si, so, us, ns) = record {
  keeps = λ b. omega arith;
  sets = λ x b. omega arith;
  kinds = λ x plain. (inr plain, p, l, ld, f, ln, d, si, so, us, ns);
}

pub logdir-Settable :
    {D : Pointer → Type 0} (v : Variables)
    → Kinds D v
    → Settable D v v.logdir (λ x. record v { logdir = x })
logdir-Settable v (c, p, l, ld, f, ln, d, si, so, us, ns) = record {
  keeps = λ b. omega arith;
  sets = λ x b. omega arith;
  kinds = λ x plain. (c, p, plain, ld, f, ln, d, si, so, us, ns);
}

pub log_dir-Settable :
    {D : Pointer → Type 0} (v : Variables)
    → Kinds D v
    → Settable D v v.log_dir (λ x. record v { log_dir = x })
log_dir-Settable v (c, p, l, ld, f, ln, d, si, so, us, ns) = record {
  keeps = λ b. omega arith;
  sets = λ x b. omega arith;
  kinds = λ x plain. (c, p, l, plain, f, ln, d, si, so, us, ns);
}

pub fpdir-Settable :
    {D : Pointer → Type 0} (v : Variables)
    → Kinds D v
    → Settable D v v.fpdir (λ x. record v { fpdir = x })
fpdir-Settable v (c, p, l, ld, f, ln, d, si, so, us, ns) = record {
  keeps = λ b. omega arith;
  sets = λ x b. omega arith;
  kinds = λ x plain. (c, p, l, ld, plain, ln, d, si, so, us, ns);
}

pub logname-Settable :
    {D : Pointer → Type 0} (v : Variables)
    → Kinds D v
    → Settable D v v.logname (λ x. record v { logname = x })
logname-Settable v (c, p, l, ld, f, ln, d, si, so, us, ns) = record {
  keeps = λ b. omega arith;
  sets = λ x b. omega arith;
  kinds = λ x plain. (c, p, l, ld, f, inr plain, d, si, so, us, ns);
}

pub sound_device-Settable :
    (v : Variables)
    → Kinds IsPlain v
    → Settable IsPlain v v.sound_device (λ x. record v { sound_device = x })
sound_device-Settable v (c, p, l, ld, f, ln, d, si, so, us, ns) = record {
  keeps = λ b. omega arith;
  sets = λ x b. omega arith;
  kinds = λ x plain. (c, p, l, ld, f, ln, plain, si, so, us, ns);
}

pub sound_in_file-Settable :
    {D : Pointer → Type 0} (v : Variables)
    → Kinds D v
    → Settable D v v.sound_in_file (λ x. record v { sound_in_file = x })
sound_in_file-Settable v (c, p, l, ld, f, ln, d, si, so, us, ns) = record {
  keeps = λ b. omega arith;
  sets = λ x b. omega arith;
  kinds = λ x plain. (c, p, l, ld, f, ln, d, plain, so, us, ns);
}

pub sound_out_file-Settable :
    {D : Pointer → Type 0} (v : Variables)
    → Kinds D v
    → Settable D v v.sound_out_file (λ x. record v { sound_out_file = x })
sound_out_file-Settable v (c, p, l, ld, f, ln, d, si, so, us, ns) = record {
  keeps = λ b. omega arith;
  sets = λ x b. omega arith;
  kinds = λ x plain. (c, p, l, ld, f, ln, d, si, plain, us, ns);
}

module _ (malloc : Allocator) where
  pub assign-Owned :
      {D : Pointer → Type 0} {v : Variables} {dest : Pointer} {place : Pointer → Variables}
      (s : Bytes) (h : Heap) (lost : List Pointer)
      → Settable D v dest place
      → Exactly (λ b. own (place null) b + points_all lost b) h
      → Safe (Owned D lost) (assign malloc place s h)
  assign-Owned s h lost var owns =
      Safe->>= _ _ (hstrdup malloc s h) _ (hstrdup-Safe malloc s h)
        λ r given. (var.kinds r.0 given.0, λ b. omega (arith, given.1 b, var.sets r.0 b, owns b))
