-- ===== src/Memory.antt =====
-- src/hmalloc.c: allocation, and the strings that pointers point at. malloc and realloc are the C
-- library's.
pub mod Safety
pub mod Objects
pub mod Balance
mod Tests
use edysquelch.Prelude.{
  ℕ, ◌+◌, Bool, Option, none, some, List, [], ◌∷◌, ◌++◌, ltb, ◌==◌, if◌then◌else◌, length, take,
  Bytes, codes, Halt, exited,
}

-- The static strings of cfg.c.
pub data Static : Type 0 where
  def_cfgfile def_logname def_sound_device : Static

-- A `char *` or the address of a structure.
pub data Pointer : Type 0 where
  null : Pointer
  static : Static → Pointer
  block : ℕ → Pointer

-- The blocks that are allocated, the bytes asked for and the text of each, the number of calls of
-- the allocator so far, and `mem_panic`.
pub record Heap : Type 0 where
  pub live : List ℕ
  pub size : ℕ → ℕ
  pub text : ℕ → Bytes
  pub calls : ℕ
  pub mem_panic : Bool

-- A call goes on, stops the process, or corrupts the memory: it frees what is no allocated block, or
-- writes behind the end of one.
pub data Run (A : Type 0) : Type 0 where
  runs : A → Run A
  stopped : Halt → Run A
  corrupted : Run A

infixl 5 ◌>>=◌
abbrev pub ◌>>=◌ : {A B : Type 0} → Run A → (A → Run B) → Run B
runs a >>= f = f a
stopped h >>= f = stopped h
corrupted >>= f = corrupted

-- A function of the blocks, changed at one.
abbrev pub put_at : {A : Type 0} → ℕ → A → (ℕ → A) → ℕ → A
put_at p a f q = if q == p then a else f q

abbrev pub onto : ℕ → Option (List ℕ) → Option (List ℕ)
onto q none = none
onto q (some qs) = some (q ∷ qs)

-- The blocks without one of them; `none` where it is none of them.
unfoldable pub release : ℕ → List ℕ → Option (List ℕ)
release p [] = none
release p (q ∷ qs) = let rest = release p qs in if p == q then some qs else onto q rest

-- What malloc or realloc returns at a call for a size; `none` is NULL.
abbrev pub Allocator : Type 0
Allocator = ℕ → ℕ → Option ℕ

-- `mem_panic` only decides whether the message is printed before the exit.
unfoldable pub hmalloc : Allocator → ℕ → Heap → Run (ℕ × Heap)
hmalloc malloc size h = elim (malloc h.calls size) [
  | none ↦ stopped exited
  | some p ↦
      runs (p, record h { live = p ∷ h.live; size = put_at p size h.size; calls = h.calls + 1 })
]

-- The text is kept as far as it fits the new size.
unfoldable pub hrealloc : Allocator → Pointer → ℕ → Heap → Run (ℕ × Heap)
unfolding hmalloc release
hrealloc realloc null size h = hmalloc realloc size h
hrealloc realloc (static s) size h = corrupted
hrealloc realloc (block p) size h = elim (realloc h.calls size) [
  | none ↦ stopped exited
  | some q ↦ elim (release p h.live) [
    | none ↦ corrupted
    | some left ↦ runs (
      q,
      record h {
        live = q ∷ left;
        size = put_at q size h.size;
        text = put_at q (take size (h.text p)) h.text;
        calls = h.calls + 1;
      },
    )
  ]
]

unfoldable pub hfree : Pointer → Heap → Run Heap
unfolding release
hfree null h = runs h
hfree (static s) h = corrupted
hfree (block p) h = elim (release p h.live) [
  | none ↦ corrupted
  | some left ↦ runs (record h { live = left })
]

-- A text and its final 0 written to the start of a block.
unfoldable pub write_text : ℕ → Bytes → Heap → Run Heap
write_text p s h =
    if ltb (length s) (h.size p) then runs (record h { text = put_at p s h.text }) else corrupted

-- A text and its 0 written behind the first `len` bytes of a block's text.
unfoldable pub write_behind : ℕ → ℕ → Bytes → Heap → Run Heap
write_behind p len s h =
    if ltb (len + length s) (h.size p)
    then runs (record h { text = put_at p (take len (h.text p) ++ s) h.text })
    else corrupted

unfoldable pub hstrdup : Allocator → Bytes → Heap → Run (Pointer × Heap)
unfolding hmalloc write_text
hstrdup malloc s h = do
  (p, h1) ← hmalloc malloc (length s + 1) h
  h2 ← write_text p s h1
  runs (block p, h2)

-- The text at a pointer that is followed.
abbrev pub text_of : Static → Bytes
text_of def_cfgfile = codes "edysquelch.conf"
text_of def_logname = codes "edysquelch"
text_of def_sound_device = codes "default"

abbrev pub text_at : Pointer → Heap → Bytes
text_at null h = []
text_at (static s) h = text_of s
text_at (block p) h = h.text p
