-- ===== src/Log/Appending.antt =====
-- str_append of src/hlog.c in the memory.
use edysquelch.Prelude.{
  ℕ, zero, suc, ◌+◌, ◌-◌, ◌≤◌, ◌<◌, ◌≡◌, refl, ap, ◌∙◌, inl, inr, true, false, Option, none, some,
  [], ◌∷◌, ◌++◌, arith, ltb, Option-cases, length, take, Bytes,
}
use edysquelch.Memory.{
  Pointer, null, static, block, Heap, Run, runs, ◌>>=◌, Allocator, hmalloc, hrealloc, write_behind,
  text_at,
}
use edysquelch.Memory.Safety.{
  Safe, Safe->>=, Safe-weaken, points, count, is_static, points_self, release-count, Exactly,
  put_at_self, hmalloc-Exactly,
}
use edysquelch.Log.{log_len, str_append}

-- `message` is what is formatted.
unfoldable pub str_append_heap : Allocator → Pointer → Bytes → Heap → Run (Pointer × Heap)
unfolding hrealloc write_behind
str_append_heap realloc s message h = do
  (ret, h1) ← hrealloc realloc s (length (text_at s h) + length (take (log_len - 1) message) + 1) h
  h2 ← write_behind ret (length (text_at s h)) (take (log_len - 1) message) h1
  runs (block ret, h2)

-- The string at a pointer that may be NULL.
abbrev pub string_at : Pointer → Heap → Option Bytes
string_at null h = none
string_at x h = some (text_at x h)

-- What hrealloc gives for `size` bytes, of which the first `len` were there.
abbrev Moved : ℕ → Bytes → (ℕ → ℕ) → ℕ × Heap → Type 0
Moved size old rest (q, h) =
    (h.size q ≡ size)
    × (take (length old) (h.text q) ≡ old)
    × Exactly (λ b. points (block q) b + rest b) h

take_kept : (n : ℕ) (s : Bytes) → length s ≤ n → take (length s) (take n s) ≡ s
take_kept n [] h = refl
take_kept zero (c ∷ s) h = absurd (omega arith)
take_kept (suc n) (c ∷ s) h = ap (λ t. c ∷ t) (take_kept n s (omega arith))

write_behind-Safe :
    (p len : ℕ) (s : Bytes) (h : Heap)
    → len + length s < h.size p
    → Safe
        (λ h'. (h'.live ≡ h.live) × (h'.text p ≡ take len (h.text p) ++ s))
        (write_behind p len s h)
unfolding write_behind
write_behind-Safe p len s h l =
    let fits : ltb (len + length s) (h.size p) ≡ true = ground (arith, l) in
    rw (fits, Safe) (refl, put_at_self p (take len (h.text p) ++ s) h.text)

-- The text in front of the message, where NULL is empty.
appended :
    (s : Pointer) (h : Heap) (message : Bytes)
    → text_at s h ++ take (log_len - 1) message ≡ str_append (string_at s h) message
unfolding str_append
appended null h message = refl
appended (static t) h message = refl
appended (block p) h message = refl

hrealloc-Moved :
    (realloc : Allocator) (s : Pointer) (size : ℕ) (h : Heap) (rest : ℕ → ℕ)
    → is_static s ≡ false
    → length (text_at s h) ≤ size
    → Exactly (λ b. points s b + rest b) h
    → Safe (Moved size (text_at s h) rest) (hrealloc realloc s size h)
unfolding hrealloc
hrealloc-Moved realloc null size h rest plain fits owns =
    Safe-weaken _ _ (hmalloc realloc size h) (hmalloc-Exactly realloc size h)
      λ r given. (given.1, refl, λ b. omega (arith, given.0 b, owns b))
hrealloc-Moved realloc (static t) size h rest plain fits owns = absurd (cc)
hrealloc-Moved realloc (block p) size h rest plain fits owns =
    let (left, released, same) = release-count p h.live (omega (arith, owns p, points_self p)) in
    elim (Option-cases (realloc h.calls size)) [
      | inl e ↦ rw (e, Safe) tt
      | inr (q, e) ↦
          rw (e, released, Safe)
            (
              put_at_self q size h.size,
              ap (take (length (h.text p))) (put_at_self q (take size (h.text p)) h.text)
                  ∙ take_kept size (h.text p) fits,
              λ b. omega (arith, owns b, same b),
            )
    ]

-- Appending gives the string that str_append gives, in one block for the one before, whatever the
-- string and the message: the block that is asked for holds it, and nothing else is freed or lost.
pub str_append_heap-str_append :
    (realloc : Allocator) (s : Pointer) (message : Bytes) (h : Heap) (rest : ℕ → ℕ)
    → is_static s ≡ false
    → Exactly (λ b. points s b + rest b) h
    → Safe
        (λ r.
          (string_at r.0 r.1 ≡ some (str_append (string_at s h) message))
          × Exactly (λ b. points r.0 b + rest b) r.1)
        (str_append_heap realloc s message h)
unfolding str_append_heap
str_append_heap-str_append realloc s message h rest plain owns =
    let buf = take (log_len - 1) message in
    let len = length (text_at s h) in
    let size = len + length buf + 1 in
    Safe->>= _ _ (hrealloc realloc s size h) _
      (hrealloc-Moved realloc s size h rest plain (omega arith) owns)
      λ r (sized, kept, moved).
        Safe->>= _ _ (write_behind r.0 len buf r.1) _
          (write_behind-Safe r.0 len buf r.1 (omega (arith, sized)))
          λ h2 (live, text). (
            ap some (text ∙ ap (λ t. t ++ buf) kept ∙ appended s h message),
            λ b. ap (λ ps. count ps b) live ∙ moved b,
          )
