-- ===== src/Cfg/Pointers/Keeping.antt =====
-- Every command of the file keeps the blocks of the variables apart and loses none.
use edysquelch.Prelude.{
  ℕ, ◌+◌, refl, ap, List, [], ◌∷◌, arith, if◌then◌else◌, All, ℤ, pos, Bytes, codes, str_case_equal,
}
use edysquelch.Memory.{
  Pointer, null, static, block, Heap, Run, runs, stopped, corrupted, Allocator, hmalloc, hfree,
  hstrdup,
}
use edysquelch.Memory.Safety.{
  Safe, Safe->>=, if-Safe, points, count, Exactly, hfree-Exactly, hmalloc-Safe, hstrdup-Safe,
}
use edysquelch.Cfg.Pointers.{
  Variables, is_null, State, uplink_size, settle, assign, do_string_heap, do_interval_heap,
  link_heap, do_uplink_heap, row_heap, cfg_cmds_heap,
}
use edysquelch.CfgFile.Values.{do_int}
use edysquelch.CfgFile.Keeping.{Keeps}
use edysquelch.Cfg.{mono, do_sound_ch}
use edysquelch.Cfg.Pointers.Owners.{
  IsPlain, Kinds, own, points_all, Owned, Settable, logdir-Settable, fpdir-Settable,
  sound_device-Settable, sound_in_file-Settable, sound_out_file-Settable, assign-Owned,
}

pub free_old :
    (rest : ℕ → ℕ) (x : Pointer) (h : Heap)
    → IsPlain x
    → Exactly (λ b. points x b + rest b) h
    → Safe (Exactly rest) (if is_null x then runs h else hfree x h)
free_old rest null h plain owns = λ b. omega (arith, owns b)
free_old rest (static s) h plain owns = absurd (cc)
free_old rest (block p) h plain owns = hfree-Exactly (block p) h rest plain owns

module _ (malloc : Allocator) (lost : List Pointer) where
  do_string_heap-Owned :
      {D : Pointer → Type 0} {v : Variables} {dest : Pointer} {place : Pointer → Variables}
      (ws : List Bytes) (h : Heap)
      → Settable D v dest place
      → IsPlain dest
      → Owned D lost (v, h)
      → Safe (λ r. Owned D lost r.0) (do_string_heap malloc dest place v ws h)
  unfolding do_string_heap
  do_string_heap-Owned {D = D} {dest = dest} {place = place} (w ∷ s ∷ rest) h var plain
        (kinds, owns) =
      Safe->>= _ (Exactly (λ b. own (place null) b + points_all lost b))
        (if is_null dest then runs h else hfree dest h) _
        (free_old (λ b. own (place null) b + points_all lost b) dest h plain
          (λ b. omega (arith, var.keeps b, owns b)))
        λ h1 left.
          Safe->>= _ (Owned D lost) (assign malloc place s h1) _
            (assign-Owned malloc s h1 lost var left) λ state owned. owned
  do_string_heap-Owned [] h var plain owned = owned
  do_string_heap-Owned (w ∷ []) h var plain owned = owned

  do_interval_heap-Owned :
      (v : Variables) (ws : List Bytes) (h : Heap)
      → Owned IsPlain lost (v, h)
      → Safe (λ r. Owned IsPlain lost r.0) (do_interval_heap malloc v ws h)
  unfolding do_interval_heap
  do_interval_heap-Owned v (w ∷ s ∷ rest) h (kinds, owns) =
      Safe->>= _ _ (hstrdup malloc s h) _ (hstrdup-Safe malloc s h) λ r given.
        Safe->>= _ _ (hfree r.0 r.1) _
          (hfree-Exactly r.0 r.1 (λ b. own v b + points_all lost b) given.0
            (λ b. omega (arith, given.1 b, owns b)))
          λ h2 left. (kinds, left)
  do_interval_heap-Owned v [] h owned = owned
  do_interval_heap-Owned v (w ∷ []) h owned = owned

  -- The rest of do_uplink, with what is allocated so far for the new uplink.
  link-Owned :
      (v : Variables) (node name : Pointer) (rest : List Bytes) (h : Heap)
      → Kinds IsPlain v
      → IsPlain node
      → IsPlain name
      → Exactly (λ b. points node b + points name b + own v b + points_all lost b) h
      → Safe (λ r. Owned IsPlain lost r.0) (link_heap malloc v node name rest h)
  unfolding link_heap
  link-Owned v node name [] h kinds p n owns = tt
  link-Owned v node name (url ∷ rest) h (c, pid, l, ld, f, ln, d, si, so, us, ns) p n owns =
      Safe->>= _ _ (hstrdup malloc url h) _ (hstrdup-Safe malloc url h) λ r given. (
        (c, pid, l, ld, f, ln, d, si, so, us, ((p, n, given.0), ns)),
        λ b. omega (arith, owns b, given.1 b),
      )

  do_uplink_heap-Owned :
      (v : Variables) (ws : List Bytes) (h : Heap)
      → Owned IsPlain lost (v, h)
      → Safe (λ r. Owned IsPlain lost r.0) (do_uplink_heap malloc v ws h)
  unfolding do_uplink_heap
  do_uplink_heap-Owned v (w ∷ label ∷ proto ∷ rest) h (kinds, owns) =
      if-Safe _ (str_case_equal proto (codes "json")) _ _
        (Safe->>= _ _ (hmalloc malloc uplink_size h) _ (hmalloc-Safe malloc uplink_size h)
          λ r given.
            Safe->>= _ _ (hstrdup malloc label r.1) _ (hstrdup-Safe malloc label r.1) λ n named.
              link-Owned v (block r.0) n.0 rest n.1 kinds refl named.0
                (λ b. omega (arith, ap (λ ps. count ps b) given.0, named.1 b, owns b)))
        (kinds, owns)
  do_uplink_heap-Owned v [] h owned = owned
  do_uplink_heap-Owned v (w ∷ []) h owned = owned
  do_uplink_heap-Owned v (w ∷ l ∷ []) h owned = owned

  settle-Safe :
      (m : Run (State × ℤ))
      → Safe (λ r. Owned IsPlain lost r.0) m
      → Safe (Owned IsPlain lost) (settle m).0
  settle-Safe (runs r) h = h
  settle-Safe (stopped x) h = tt
  settle-Safe corrupted h = h

  row-Keeps :
      (name : Bytes) (f : Variables → List Bytes → Heap → Run (State × ℤ))
      → ((v : Variables) (ws : List Bytes) (h : Heap)
          → Owned IsPlain lost (v, h)
          → Safe (λ r. Owned IsPlain lost r.0) (f v ws h))
      → Keeps (Safe (Owned IsPlain lost)) (row_heap malloc name f)
  row-Keeps name f keeps (runs (v, h)) ws owned = settle-Safe (f v ws h) (keeps v ws h owned)
  row-Keeps name f keeps (stopped x) ws owned = tt
  row-Keeps name f keeps corrupted ws owned = owned

  string-Keeps :
      (name : Bytes) (dest : Variables → Pointer) (place : Variables → Pointer → Variables)
      → ((v : Variables)
          → Kinds IsPlain v
          → IsPlain (dest v) × Settable IsPlain v (dest v) (place v))
      → Keeps
          (Safe (Owned IsPlain lost))
          (row_heap malloc name (λ v. do_string_heap malloc (dest v) (place v) v))
  string-Keeps name dest place var =
      row-Keeps name (λ v. do_string_heap malloc (dest v) (place v) v)
        λ v ws h owned.
          let (plain, settable) = var v owned.0 in do_string_heap-Owned ws h settable plain owned

  pub cfg_cmds_heap-Keep : All (Keeps (Safe (Owned IsPlain lost))) (cfg_cmds_heap malloc)
  unfolding cfg_cmds_heap
  cfg_cmds_heap-Keep = (
    string-Keeps (codes "logdir") (λ v. v.logdir) (λ v x. record v { logdir = x })
        (λ v kinds. (kinds.2, logdir-Settable v kinds)),
    (
      string-Keeps (codes "fingerprints") (λ v. v.fpdir) (λ v x. record v { fpdir = x })
          (λ v kinds. (kinds.4, fpdir-Settable v kinds)),
      (
        row-Keeps (codes "statsinterval") (do_interval_heap malloc) do_interval_heap-Owned,
        (
          row-Keeps (codes "expiryinterval") (do_interval_heap malloc) do_interval_heap-Owned,
          (
            row-Keeps (codes "uplink") (do_uplink_heap malloc) do_uplink_heap-Owned,
            (
              string-Keeps (codes "sounddevice") (λ v. v.sound_device)
                  (λ v x. record v { sound_device = x })
                  (λ v kinds. (kinds.6, sound_device-Settable v kinds)),
              (
                string-Keeps (codes "soundinfile") (λ v. v.sound_in_file)
                    (λ v x. record v { sound_in_file = x })
                    (λ v kinds. (kinds.7, sound_in_file-Settable v kinds)),
                (
                  string-Keeps (codes "soundoutfile") (λ v. v.sound_out_file)
                      (λ v x. record v { sound_out_file = x })
                      (λ v kinds. (kinds.8, sound_out_file-Settable v kinds)),
                  (
                    row-Keeps (codes "soundchannels")
                        (λ v ws h. runs ((v, h), (do_sound_ch mono ws).1)) (λ v ws h owned. owned),
                    (
                      row-Keeps (codes "soundlevellog")
                          (λ v ws h. runs ((v, h), (do_int (pos 0) ws).1)) (λ v ws h owned. owned),
                      tt,
                    ),
                  ),
                ),
              ),
            ),
          ),
        ),
      ),
    ),
  )
