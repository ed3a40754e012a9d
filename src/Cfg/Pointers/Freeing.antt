-- ===== src/Cfg/Pointers/Freeing.antt =====
-- What is freed: the sound device, the old uplinks, and everything at the end.
use edysquelch.Prelude.{ℕ, ◌+◌, ◌≡◌, refl, inl, inr, List, [], ◌∷◌, arith, All}
use edysquelch.Memory.{
  Static, def_cfgfile, def_logname, def_sound_device, Pointer, null, static, block, Heap, hfree,
}
use edysquelch.Memory.Safety.{Safe, Safe->>=, points, Exactly, hfree-Exactly}
use edysquelch.Cfg.Pointers.{UplinkNode, State}
use edysquelch.Cfg.Pointers.Ending.{
  free_uplink_config_heap, device_of, choose_device, put_uplinks_in, free_unless, free_config_heap,
}
use edysquelch.Cfg.Pointers.Owners.{IsPlain, CanFree, IsPlainNode, own_list, own, points_all, Owned}

-- What the sound device may point at when the configuration is complete.
abbrev pub IsDevice : Pointer → Type 0
IsDevice = CanFree def_sound_device

pub free_unless-Safe :
    (s : Static) (x : Pointer) (h : Heap) (rest : ℕ → ℕ)
    → CanFree s x
    → Exactly (λ b. points x b + rest b) h
    → Safe (Exactly rest) (free_unless s x h)
unfolding hfree
free_unless-Safe s null h rest kind owns = λ b. omega (arith, owns b)
free_unless-Safe s (static t) h rest (inl default) owns =
    rw (default, Safe) (λ b. omega (arith, owns b))
free_unless-Safe s (static t) h rest (inr plain) owns = absurd (cc)
free_unless-Safe s (block p) h rest kind owns = hfree-Exactly (block p) h rest refl owns

pub free_uplink_config_heap-Safe :
    (lc : List UplinkNode) (h : Heap) (rest : ℕ → ℕ)
    → All IsPlainNode lc
    → Exactly (λ b. own_list lc b + rest b) h
    → Safe (Exactly rest) (free_uplink_config_heap lc h)
unfolding free_uplink_config_heap
free_uplink_config_heap-Safe [] h rest plain owns = λ b. omega (arith, owns b)
free_uplink_config_heap-Safe (u ∷ lc) h rest ((node, name, url), plain) owns =
    let later : ℕ → ℕ = λ b. own_list lc b + rest b in
    Safe->>= _ _ (hfree u.name h) _
      (hfree-Exactly u.name h (λ b. points u.url b + points u.node b + later b) name
        (λ b. omega (arith, owns b)))
      λ h1 owns1.
        Safe->>= _ _ (hfree u.url h1) _
          (hfree-Exactly u.url h1 (λ b. points u.node b + later b) url
            (λ b. omega (arith, owns1 b)))
          λ h2 owns2.
            Safe->>= _ _ (hfree u.node h2) _
              (hfree-Exactly u.node h2 later node (λ b. omega (arith, owns2 b)))
              λ h3 owns3. free_uplink_config_heap-Safe lc h3 rest plain owns3

pub device_of-Safe :
    (file device : Pointer) (h : Heap) (rest : ℕ → ℕ)
    → IsPlain device
    → Exactly (λ b. points device b + rest b) h
    → Safe (λ r. IsDevice r.0 × Exactly (λ b. points r.0 b + rest b) r.1) (device_of file device h)
unfolding device_of
device_of-Safe file (static s) h rest plain owns = absurd (cc)
device_of-Safe null null h rest plain owns = (inl refl, owns)
device_of-Safe null (block p) h rest plain owns = (inr refl, owns)
device_of-Safe (static s) null h rest plain owns = (inr refl, owns)
device_of-Safe (block q) null h rest plain owns = (inr refl, owns)
device_of-Safe (static s) (block p) h rest plain owns =
    Safe->>= _ _ (hfree (block p) h) _ (hfree-Exactly (block p) h rest plain owns)
      λ h1 owns1. (inr refl, λ b. omega (arith, owns1 b))
device_of-Safe (block q) (block p) h rest plain owns =
    Safe->>= _ _ (hfree (block p) h) _ (hfree-Exactly (block p) h rest plain owns)
      λ h1 owns1. (inr refl, λ b. omega (arith, owns1 b))

pub choose_device-Owned :
    (lost : List Pointer) (state : State)
    → Owned IsPlain lost state
    → Safe (Owned IsDevice lost) (choose_device state)
unfolding choose_device
choose_device-Owned lost (v, h) ((c, p, l, ld, f, ln, d, si, so, us, ns), owns) =
    Safe->>= _ _ (device_of v.sound_in_file v.sound_device h) _
      (device_of-Safe v.sound_in_file v.sound_device h
        (λ b. own (record v { sound_device = null }) b + points_all lost b) d
        (λ b. omega (arith, owns b)))
      λ r (kind, owns1). ((c, p, l, ld, f, ln, kind, si, so, us, ns), λ b. omega (arith, owns1 b))

-- The blocks are owned, and no uplink is left to be put in.
abbrev pub Done : List Pointer → State → Type 0
Done lost s = Owned IsDevice lost s × (s.0.new_uplink_config ≡ [])

pub put_uplinks_in-Owned :
    (lost : List Pointer) (state : State)
    → Owned IsDevice lost state
    → Safe (Done lost) (put_uplinks_in state)
unfolding put_uplinks_in
put_uplinks_in-Owned lost (v, h) ((c, p, l, ld, f, ln, d, si, so, us, ns), owns) =
    Safe->>= _ _ (free_uplink_config_heap v.uplink_config h) _
      (free_uplink_config_heap-Safe v.uplink_config h
        (λ b. own (record v { uplink_config = [] }) b + points_all lost b) us
        (λ b. omega (arith, owns b)))
      λ h1 owns1. (((c, p, l, ld, f, ln, d, si, so, ns, tt), λ b. omega (arith, owns1 b)), refl)

pub free_config_heap-Exactly :
    (lost : List Pointer) (state : State)
    → Done lost state
    → Safe
        (Exactly (λ b. points state.0.log_dir b + (points state.0.fpdir b + points_all lost b)))
        (free_config_heap state)
unfolding free_config_heap
free_config_heap-Exactly lost (v, h) (((c, p, l, ld, f, ln, d, si, so, us, ns), owns), no_new) =
    let r8 : ℕ → ℕ = λ b. points v.log_dir b + (points v.fpdir b + points_all lost b) in
    let r7 : ℕ → ℕ = λ b. own_list v.uplink_config b + r8 b in
    let r6 : ℕ → ℕ = λ b. points v.sound_out_file b + r7 b in
    let r5 : ℕ → ℕ = λ b. points v.sound_in_file b + r6 b in
    let r4 : ℕ → ℕ = λ b. points v.sound_device b + r5 b in
    let r3 : ℕ → ℕ = λ b. points v.logname b + r4 b in
    let r2 : ℕ → ℕ = λ b. points v.cfgfile b + r3 b in
    let r1 : ℕ → ℕ = λ b. points v.pidfile b + r2 b in
    let none_new : (b : ℕ) → own_list v.new_uplink_config b ≡ 0 = λ b. rw no_new refl in
    Safe->>= _ _ (hfree v.logdir h) _
      (hfree-Exactly v.logdir h r1 l (λ b. omega (arith, owns b, none_new b)))
      λ h1 o1. Safe->>= _ _ (hfree v.pidfile h1) _ (hfree-Exactly v.pidfile h1 r2 p o1) λ h2 o2.
        Safe->>= _ _ (free_unless def_cfgfile v.cfgfile h2) _
          (free_unless-Safe def_cfgfile v.cfgfile h2 r3 c o2)
          λ h3 o3.
            Safe->>= _ _ (free_unless def_logname v.logname h3) _
              (free_unless-Safe def_logname v.logname h3 r4 ln o3)
              λ h4 o4.
                Safe->>= _ _ (free_unless def_sound_device v.sound_device h4) _
                  (free_unless-Safe def_sound_device v.sound_device h4 r5 d o4)
                  λ h5 o5.
                    Safe->>= _ _ (hfree v.sound_in_file h5) _
                      (hfree-Exactly v.sound_in_file h5 r6 si o5)
                      λ h6 o6.
                        Safe->>= _ _ (hfree v.sound_out_file h6) _
                          (hfree-Exactly v.sound_out_file h6 r7 so o6)
                          λ h7 o7. free_uplink_config_heap-Safe v.uplink_config h7 r8 us o7
