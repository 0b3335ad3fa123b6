-- ===== src/Prelude/Heap.antt =====
-- The objects behind Go's pointers: `&T{...}` adds an object, and a pointer is its position.
use Prim.Native.Nat.{ℕ}
use mathlib.Core.Option.{Option}
use mathlib.Core.List.{List, [], ◌∷◌, ◌++◌}
use mockgatehub.Prelude.Lists.{length, get_elem?, set}

abbrev pub Heap {ℓ} : Type ℓ → Type ℓ
Heap A = List A

abbrev pub Ptr : Type 0
Ptr = ℕ

module _ {ℓ} {A : Type ℓ} where
  -- the pointer that the next `&T{...}` returns
  abbrev pub next : Heap A → Ptr
  next h = length h

  abbrev pub alloc : A → Heap A → Heap A
  alloc a h = h ++ a ∷ []

  abbrev pub deref : Ptr → Heap A → Option A
  deref p h = get_elem? h p

  abbrev pub assign : Ptr → A → Heap A → Heap A
  assign p a h = set h p a
