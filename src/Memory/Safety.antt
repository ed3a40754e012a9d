-- ===== src/Memory/Safety.antt =====
-- What keeps the memory whole: the blocks that pointers own are counted against those allocated.
use edysquelch.Prelude.{
  ℕ, ◌+◌, ◌≤◌, ◌<◌, ◌≡◌, refl, ap, ◌∙◌, ◌≢◌, inl, inr, Bool, true, false, some, List, [], ◌∷◌,
  arith, ◌==◌, if◌then◌else◌, Bool-cases, Option-cases, length, Bytes,
}
use edysquelch.Memory.{
  Pointer, null, static, block, Heap, Run, runs, stopped, corrupted, ◌>>=◌, put_at, release,
  Allocator, hmalloc, hfree, write_text, hstrdup,
}

-- The memory is never corrupted, and `P` holds of what a call that goes on returns.
abbrev pub Safe : {A : Type 0} → (A → Type 0) → Run A → Type 0
Safe P (runs a) = P a
Safe P (stopped h) = Unit
Safe P corrupted = ⊥

pub Safe->>= :
    {A B : Type 0} (P : B → Type 0) (Q : A → Type 0) (m : Run A) (f : A → Run B)
    → Safe Q m
    → ((a : A) → Q a → Safe P (f a))
    → Safe P (m >>= f)
Safe->>= P Q (runs a) f h k = k a h
Safe->>= P Q (stopped x) f h k = tt
Safe->>= P Q corrupted f h k = elim h [ ]

pub Safe-whole : {A : Type 0} (P : A → Type 0) (m : Run A) → Safe P m → m ≢ corrupted
Safe-whole P (runs a) h e = cc
Safe-whole P (stopped x) h e = cc
Safe-whole P corrupted h e = elim h [ ]

pub Safe-weaken :
    {A : Type 0} (P Q : A → Type 0) (m : Run A) → Safe Q m → ((a : A) → Q a → P a) → Safe P m
Safe-weaken P Q (runs a) h k = k a h
Safe-weaken P Q (stopped x) h k = tt
Safe-weaken P Q corrupted h k = elim h [ ]

pub if-Safe :
    {A : Type 0} (P : A → Type 0) (b : Bool) (x y : Run A)
    → Safe P x
    → Safe P y
    → Safe P (if b then x else y)
if-Safe P true x y h k = h
if-Safe P false x y h k = k

-- How often a pointer is the address of a block, and how often the block is allocated.
abbrev pub points : Pointer → ℕ → ℕ
points null b = 0
points (static s) b = 0
points (block p) b = if b == p then 1 else 0

abbrev pub count : List ℕ → ℕ → ℕ
count [] b = 0
count (p ∷ ps) b = points (block p) b + count ps b

abbrev pub is_static : Pointer → Bool
is_static null = false
is_static (static s) = true
is_static (block p) = false

pub points_self : (p : ℕ) → points (block p) p ≡ 1
points_self p = ground arith

points_other : (p q : ℕ) → (p == q) ≡ false → points (block q) p ≡ 0
points_other p q n = ground arith

same_points : (p q b : ℕ) → (p == q) ≡ true → points (block p) b ≡ points (block q) b
same_points p q b y = ground arith

pub release-count :
    (p : ℕ) (ps : List ℕ)
    → 1 ≤ count ps p
    → (left : List ℕ) × (release p ps ≡ some left)
      × ((b : ℕ) → points (block p) b + count left b ≡ count ps b)
unfolding release
release-count p [] h = absurd (omega arith)
release-count p (q ∷ ps) h = elim (Bool-cases (p == q)) [
  | inl y ↦ (ps, rw y refl, λ b. omega (arith, same_points p q b y))
  | inr n ↦
      let (left, e, same) = release-count p ps (omega (arith, points_other p q n)) in
      (q ∷ left, rw (n, e) refl, λ b. omega (arith, same b))
]

pub hfree-Safe :
    (x : Pointer) (h : Heap) (rest : ℕ → ℕ)
    → is_static x ≡ false
    → ((b : ℕ) → points x b + rest b ≤ count h.live b)
    → Safe (λ h'. (b : ℕ) → rest b ≤ count h'.live b) (hfree x h)
unfolding hfree
hfree-Safe null h rest n owns = λ b. omega (arith, owns b)
hfree-Safe (static s) h rest n owns = absurd (cc)
hfree-Safe (block p) h rest n owns =
    let (left, e, same) = release-count p h.live (omega (arith, owns p, points_self p)) in
    rw (e, Safe) (λ b. omega (arith, owns b, same b))

-- Exactly what `rest` counts is allocated.
abbrev pub Exactly : (ℕ → ℕ) → Heap → Type 0
Exactly rest h = (b : ℕ) → count h.live b ≡ rest b

pub hfree-Exactly :
    (x : Pointer) (h : Heap) (rest : ℕ → ℕ)
    → is_static x ≡ false
    → Exactly (λ b. points x b + rest b) h
    → Safe (Exactly rest) (hfree x h)
unfolding hfree
hfree-Exactly null h rest n owns = λ b. omega (arith, owns b)
hfree-Exactly (static s) h rest n owns = absurd (cc)
hfree-Exactly (block p) h rest n owns =
    let (left, e, same) = release-count p h.live (omega (arith, owns p, points_self p)) in
    rw (e, Safe) (λ b. omega (arith, owns b, same b))

-- hmalloc gives a block of the size, and leaves the texts.
abbrev pub Allocated : ℕ → Heap → ℕ × Heap → Type 0
Allocated size h (p, h') = (h'.live ≡ p ∷ h.live) × (h'.size p ≡ size) × (h'.text ≡ h.text)

pub put_at_self : {A : Type 0} (p : ℕ) (a : A) (f : ℕ → A) → put_at p a f p ≡ a
put_at_self p a f = ground arith

pub hmalloc-Safe :
    (malloc : Allocator) (size : ℕ) (h : Heap) → Safe (Allocated size h) (hmalloc malloc size h)
unfolding hmalloc
hmalloc-Safe malloc size h = elim (Option-cases (malloc h.calls size)) [
  | inl e ↦ rw (e, Safe) tt
  | inr (p, e) ↦ rw (e, Safe) (refl, put_at_self p size h.size, refl)
]

-- A text and its 0 fit a block of one more byte.
pub write_text-Safe :
    (p : ℕ) (s : Bytes) (h : Heap)
    → length s < h.size p
    → Safe (λ h'. h'.live ≡ h.live) (write_text p s h)
unfolding write_text
write_text-Safe p s h l = ground arith

-- hstrdup gives a block that is counted once more than before.
abbrev pub Given : Heap → Pointer × Heap → Type 0
Given h (x, h') = (is_static x ≡ false) × ((b : ℕ) → count h'.live b ≡ points x b + count h.live b)

pub hstrdup-Safe : (malloc : Allocator) (s : Bytes) (h : Heap) → Safe (Given h) (hstrdup malloc s h)
unfolding hstrdup
hstrdup-Safe malloc s h =
    Safe->>= _ _ (hmalloc malloc (length s + 1) h) _ (hmalloc-Safe malloc (length s + 1) h)
      λ r given.
        Safe->>= _ _ (write_text r.0 s r.1) _ (write_text-Safe r.0 s r.1 (omega (arith, given.1)))
          λ h2 same. (refl, λ b. ap (λ ps. count ps b) (same ∙ given.0))

-- A block that is asked for is counted once more, and the texts are left.
pub hmalloc-Exactly :
    (malloc : Allocator) (size : ℕ) (h : Heap)
    → Safe
        (λ r. Exactly (λ b. points (block r.0) b + count h.live b) r.1 × (r.1.size r.0 ≡ size))
        (hmalloc malloc size h)
hmalloc-Exactly malloc size h =
    Safe-weaken _ _ (hmalloc malloc size h) (hmalloc-Safe malloc size h)
      λ r given. (λ b. ap (λ ps. count ps b) given.0, given.1)
