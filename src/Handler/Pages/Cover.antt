-- ===== src/Handler/Pages/Cover.antt =====
-- The pages are the windows of the list, and all of them together are the list.
use mockgatehub.Prelude.{
  ℕ, zero, suc, ◌+◌, ◌-◌, ◌*◌, ◌%◌, ◌≤◌, ◌<◌, ◌≡◌, refl, ap, sym, ◌∙◌, Option, none, some, List, [],
  ◌∷◌, ◌++◌, ltb, not, length, take, drop, length-drop, ltb→lt, arith, if◌then◌else◌, Bool-cases,
  inl, inr,
}
use mockgatehub.Prelude.Int.{pos, negsuc, ◌+ℤ◌, ◌-ℤ◌, ◌*ℤ◌, ltb_ℤ, wrap, signed}
use native.Mathlib.Nat.{div-add-mod', mod-lt}
use mockgatehub.Handler.Pages.{slice, paginate, total_pages}

wrap_small : (n : ℕ) → n < 9_223_372_036_854_775_808 → wrap (pos n) ≡ pos n
wrap_small n h = ground arith

minus_one : (k : ℕ) → pos (suc k) -ℤ pos 1 ≡ pos k
unfolding ◌-ℤ◌
minus_one k = ground arith

plus : (a b : ℕ) → pos a +ℤ pos b ≡ pos (a + b)
unfolding ◌+ℤ◌
plus a b = ground arith

times : (a b : ℕ) → pos a *ℤ pos b ≡ pos (a * b)
unfolding ◌*ℤ◌
times a b = ground arith

-- The pages that `total_pages` counts hold all of `n` items, and less than a page more.
total_pages_enough : (n size : ℕ) → 1 ≤ size → n ≤ total_pages n (pos size) * size
unfolding total_pages
total_pages_enough n size h =
    ground (arith, div-add-mod' (n + size - 1) size, mod-lt (n + size - 1) h)

total_pages_small : (n size : ℕ) → 1 ≤ size → total_pages n (pos size) * size ≤ n + size
unfolding total_pages
total_pages_small n size h =
    ground (arith, div-add-mod' (n + size - 1) size, mod-lt (n + size - 1) h)

at_least : (n size : ℕ) → 1 ≤ size → n ≤ n * size
at_least n zero h = absurd (omega arith)
at_least n (suc m) h = omega arith

module _ {A : Type 0} where
  drop_all : (n : ℕ) (xs : List A) → length xs ≤ n → drop n xs ≡ []
  drop_all zero [] h = refl
  drop_all (suc n) [] h = refl
  drop_all zero (x ∷ xs) h = absurd (omega arith)
  drop_all (suc n) (x ∷ xs) h = drop_all n xs (omega arith)

  take_all : (n : ℕ) (xs : List A) → length xs ≤ n → take n xs ≡ xs
  take_all zero [] h = refl
  take_all (suc n) [] h = refl
  take_all zero (x ∷ xs) h = absurd (omega arith)
  take_all (suc n) (x ∷ xs) h = ap (λ ys. x ∷ ys) (take_all n xs (omega arith))

  -- the window of `size` items after the first `i`, as `paginate` takes it
  window :
      (items : List A) (i size : ℕ)
      → (if not (ltb_ℤ (pos i) (pos (length items)))
          then some []
          else slice items (pos i) (
              if ltb_ℤ (pos (length items)) (pos (i + size))
              then pos (length items)
              else pos (i + size)))
        ≡ some (take size (drop i items))
  window items i size = elim (Bool-cases (ltb i (length items))) [
    | inr past ↦
        let empty = drop_all i items (ground arith) in
        let none_left : take size (drop i items) ≡ [] =
          ap (λ (ys : List A). take size ys) empty ∙ take_all size [] (omega arith) in
        ground (arith, none_left)
    | inl within ↦ elim (Bool-cases (ltb (length items) (i + size))) [
      | inl short ↦
          let all =
            take_all size (drop i items) (omega (arith, length-drop i items, ltb→lt _ _ short)) in
          let all' =
            take_all (length items - i) (drop i items) (omega (arith, length-drop i items)) in
          ground (arith, all, all')
      | inr full ↦
          let width : i + size - i ≡ size = omega arith in
          let same : take (i + size - i) (drop i items) ≡ take size (drop i items) =
            ap (λ (n : ℕ). take n (drop i items)) width in
          ground (arith, same)
    ]
  ]

  -- Page `k + 1` is the window of `size` items after the first `k * size`, which is empty past the end,
  -- where its bounds stay below the largest `int`.
  pub paginate-window :
      (items : List A) (k size : ℕ)
      → k * size + size < 9_223_372_036_854_775_808
      → k < 9_223_372_036_854_775_808
      → paginate items (pos (suc k)) (pos size) ≡ some (take size (drop (k * size) items))
  unfolding paginate
  paginate-window items k size h h' =
      rw
        (
          minus_one k,
          wrap_small k h',
          times k size,
          wrap_small (k * size) (omega arith),
          plus (k * size) size,
          wrap_small (k * size + size) h,
        )
        (window items (k * size) size)

  take-drop : (n : ℕ) (xs : List A) → take n xs ++ drop n xs ≡ xs
  take-drop zero xs = refl
  take-drop (suc n) [] = refl
  take-drop (suc n) (x ∷ xs) = ap (λ (ys : List A). x ∷ ys) (take-drop n xs)

  drop-drop : (m n : ℕ) (xs : List A) → drop m (drop n xs) ≡ drop (n + m) xs
  drop-drop m zero xs = ap (λ (k : ℕ). drop k xs) (omega arith)
  drop-drop m (suc n) [] = drop_all m [] (omega arith) ∙ sym (drop_all (suc n + m) [] (omega arith))
  drop-drop m (suc n) (x ∷ xs) =
      let there : suc (n + m) ≡ suc n + m = omega arith in
      drop-drop m n xs ∙ ap (λ (k : ℕ). drop k (x ∷ xs)) there

  -- what `count` calls of `paginate` from page `k + 1` on answer, one after the other
  unfoldable pub pages_from : List A → ℕ → ℕ → ℕ → Option (List A)
  pages_from items size k zero = some []
  pages_from items size k (suc count) =
      let rest = pages_from items size (suc k) count in
      elim (paginate items (pos (suc k)) (pos size)) [
        | none ↦ none
        | some page ↦ elim rest [ none ↦ none | some others ↦ some (page ++ others) ]
      ]

  pages_from_lem :
      (items : List A) (size k count : ℕ)
      → length items ≤ (k + count) * size
      → (k + count) * size < 9_223_372_036_854_775_808
      → k + count < 9_223_372_036_854_775_808
      → pages_from items size k count ≡ some (drop (k * size) items)
  unfolding pages_from
  pages_from_lem items size k zero h h' h'' =
      ap some (sym (drop_all (k * size) items (omega arith)))
  pages_from_lem items size k (suc count) h h' h'' =
      let later =
        pages_from_lem items size (suc k) count (omega arith) (omega arith) (omega arith) in
      let this = paginate-window items k size (omega arith) (omega arith) in
      let whole : take size (drop (k * size) items) ++ drop (suc k * size) items
          ≡ drop (k * size) items =
        let step : drop (suc k * size) items ≡ drop size (drop (k * size) items) =
          let sum : suc k * size ≡ k * size + size = omega arith in
          ap (λ (n : ℕ). drop n items) sum ∙ sym (drop-drop size (k * size) items) in
        ap (λ (ys : List A). take size (drop (k * size) items) ++ ys) step
        ∙ take-drop size (drop (k * size) items) in
      rw (pages_from, this, later) (ap some whole)

  -- Where the sizes stay below the largest `int`, the pages that `totalPages` counts, one after the
  -- other, are the list.
  pub pages_from-total_pages :
      (items : List A) (size : ℕ)
      → 1 ≤ size
      → length items + size < 9_223_372_036_854_775_808
      → pages_from items size 0 (total_pages (length items) (pos size)) ≡ some items
  pages_from-total_pages items size h h' =
      let n = total_pages (length items) (pos size) in
      let enough = total_pages_enough (length items) size h in
      let small = total_pages_small (length items) size h in
      let start : 0 * size ≡ 0 = omega arith in
      pages_from_lem items size 0 n (omega (arith, enough)) (omega (arith, small))
        (omega (arith, small, at_least n size h))
      ∙ ap (λ (j : ℕ). some (drop j items)) start

wrapped_start :
    (s : ℕ)
    → 1 ≤ s
    → s ≤ 100
    → wrap (pos (9_223_372_036_854_775_806 * (2 * s))) ≡ negsuc (4 * s - 1)
wrapped_start s h h' =
    let left : 9_223_372_036_854_775_806 * (2 * s) % 18_446_744_073_709_551_616
        ≡ 18_446_744_073_709_551_616 - 4 * s =
      omega arith in
    ap signed left ∙ ground arith

-- At the largest page number an even page size, of at most 200, makes the first bound wrap round to a
-- negative number, and the slice panics, whatever the list.
pub paginate_panics :
    {A : Type 0} (items : List A) (s : ℕ)
    → 1 ≤ s
    → s ≤ 100
    → paginate items (pos 9_223_372_036_854_775_807) (pos (2 * s)) ≡ none
unfolding paginate
paginate_panics items s h h' =
    let first = wrapped_start s h h' in
    rw (minus_one 9_223_372_036_854_775_806, times 9_223_372_036_854_775_806 (2 * s), first)
      (ground arith)
