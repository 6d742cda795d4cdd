-- ===== src/Tvm/Stack/Refine.antt =====
-- Each method of the stack does on its view what the specification does on a list of items.
use tvmjs_monorepo.Prelude.{
  ℕ, zero, suc, ◌+◌, ◌-◌, ◌≤◌, ◌<◌, ◌≡◌, refl, ap, ◌∙◌, sym, List, [], ◌∷◌, ◌++◌, reverse, arith,
  length, take, get_or, set, ok, leb, ltb, ◌==◌, inl, inr, Bool-cases, result_map,
}
use mathlib.Core.List.{reverse-append}
use native.Mathlib.Numerals.{add-one}
use tvmjs_monorepo.Tvm.Stack.{
  Stack, assign, read, push, pop_n, peek, peek_loop, swap, dup, exchange, get_stack,
}
use tvmjs_monorepo.Tvm.Stack.Spec.{
  push_spec, pop_n_spec, peek_spec, swapped, exchange_spec, dup_spec, swap_spec,
}
use tvmjs_monorepo.Tvm.Stack.View.{
  items, view, IsValid, length-items, items-assign, items-push, pop_loop-items, drop-items,
  read-items,
}

-- For every stack, push puts the value on top of the items, and throws a stack overflow where the
-- maximal height is reached.
pub view-push : (s : Stack) (v : ℕ) → result_map view (push v s) ≡ push_spec s.max_height v (view s)
unfolding push view
view-push s v = rw length-items (elim (Bool-cases (leb s.max_height s.len)) [
  | inl full ↦ rw full
  | inr room ↦ rw room (rw add-one (ap ok (items-push s.store s.len v)))
])

abbrev pub shown : List ℕ × Stack → List ℕ × List ℕ
shown p = (p.0, view p.1)

-- For every stack and number, popN returns the topmost items, the top first, and leaves the
-- others, and throws a stack underflow if there are too few.
pub view-pop_n : (s : Stack) (num : ℕ) → result_map shown (pop_n num s) ≡ pop_n_spec num (view s)
unfolding pop_n view
view-pop_n s num = rw length-items (elim (Bool-cases (ltb s.len num)) [
  | inl few ↦ rw few
  | inr enough ↦ rw enough (elim (Bool-cases (num == 0)) [
    | inl none_asked ↦ let z : num ≡ 0 = ground arith in rw z refl
    | inr some_asked ↦ rw (
      some_asked,
      pop_loop-items s.store num s.len (ground arith),
      drop-items s.store num s.len (ground arith),
    )
  ])
])

peek_loop_lem : (store : List ℕ) (num n : ℕ) → peek_loop store num n ≡ peek_spec num (items store n)
unfolding peek_loop items
peek_loop_lem store zero zero = refl
peek_loop_lem store zero (suc n) = ground arith
peek_loop_lem store (suc num) zero = ground arith
peek_loop_lem store (suc num) (suc n) =
    rw (pred_of_suc, peek_loop_lem store num n, length-items)
      (elim (Bool-cases (ltb n num)) [ inl few ↦ ground arith | inr enough ↦ ground arith ])
  where
    pred_of_suc : suc n - 1 ≡ n
    pred_of_suc = omega arith

-- For every stack and number, peek returns the topmost items, the top first, and throws a stack
-- underflow if there are too few.
pub peek_lem : (s : Stack) (num : ℕ) → peek num s ≡ peek_spec num (view s)
unfolding peek view
peek_lem s num = peek_loop_lem s.store num s.len

-- The code's exchange of two array entries, seen on the items.
items-exchange :
    (store : List ℕ) (n i j : ℕ)
    → i < n
    → j < n
    → items
        (assign
          (assign store (n - 1 - j) (read store (n - 1 - i)))
          (n - 1 - i)
          (read store (n - 1 - j)))
        n
      ≡ swapped i j (items store n)
items-exchange store n i j hi hj =
    items-assign _ n (n - 1 - i) _ i (omega arith)
    ∙ rw (read-items store n i hi, read-items store n j hj)
        (ap (λ (xs : List ℕ). set xs i (read store (n - 1 - j)))
          (items-assign store n (n - 1 - j) _ j (omega arith)))

-- For every stack, exchange swaps the items at two depths, and throws a stack underflow if there
-- are too few items.
pub view-exchange :
    (s : Stack) (i j : ℕ) → result_map view (exchange i j s) ≡ exchange_spec i j (view s)
unfolding exchange view
view-exchange s i j = rw length-items (elim (Bool-cases (ltb s.len (i + 1))) [
  | inl few ↦ rw few
  | inr ei ↦ rw ei (elim (Bool-cases (ltb s.len (j + 1))) [
    | inl few ↦ rw few
    | inr ej ↦ rw ej (ap ok (items-exchange s.store s.len i j (ground arith) (ground arith)))
  ])
])

-- For every stack, swap swaps the top and the item at a depth, and throws a stack underflow if
-- there are too few items.
pub view-swap :
    (s : Stack) (position : ℕ) → result_map view (swap position s) ≡ swap_spec position (view s)
unfolding swap view
view-swap s position = rw length-items (elim (Bool-cases (leb s.len position)) [
  | inl few ↦ rw few
  | inr enough ↦
      rw enough
        (ap ok (rw head at (items-exchange s.store s.len position 0 (ground arith) (ground arith))))
])
  where
    head : s.len - 1 - 0 ≡ s.len - 1
    head = omega arith

-- For every stack and every position from 1 on, dup pushes a copy of the item at the position, and
-- throws a stack underflow if there are too few items, and else a stack overflow where the maximal
-- height is reached.
pub view-dup :
    (s : Stack) (position : ℕ)
    → 1 ≤ position
    → result_map view (dup position s) ≡ dup_spec s.max_height position (view s)
unfolding dup view
view-dup s position h = rw length-items (elim (Bool-cases (ltb s.len position)) [
  | inl few ↦ rw few
  | inr enough ↦ rw enough (elim (Bool-cases (leb s.max_height s.len)) [
    | inl full ↦ rw full
    | inr room ↦ rw room (rw add-one (ap ok (copied (ground arith))))
  ])
])
  where
    copied :
        position ≤ s.len
        → items (assign s.store s.len (read s.store (s.len - position))) (suc s.len)
          ≡ get_or (items s.store s.len) (position - 1) 0 ∷ items s.store s.len
    copied le =
        let e : s.len - position ≡ s.len - 1 - (position - 1) = omega arith in
        items-push s.store s.len _
        ∙ ap (◌∷ items s.store s.len)
            (ap (read s.store) e ∙ sym (read-items s.store s.len (position - 1) (omega arith)))

-- Each method of the stack does on every stack what its specification does on the list of items,
-- errors included: push, popN, peek, exchange at two depths, swap, and dup for a position from 1
-- on.
pub stack_ops :
    (s : Stack) (v num i j position : ℕ)
    → 1 ≤ position
    → (result_map view (push v s) ≡ push_spec s.max_height v (view s))
      × (result_map shown (pop_n num s) ≡ pop_n_spec num (view s))
      × (peek num s ≡ peek_spec num (view s))
      × (result_map view (exchange i j s) ≡ exchange_spec i j (view s))
      × (result_map view (swap position s) ≡ swap_spec position (view s))
      × (result_map view (dup position s) ≡ dup_spec s.max_height position (view s))
stack_ops s v num i j position h = (
  view-push s v,
  view-pop_n s num,
  peek_lem s num,
  view-exchange s i j,
  view-swap s position,
  view-dup s position h,
)

take-suc :
    (store : List ℕ) (n : ℕ)
    → suc n ≤ length store
    → take (suc n) store ≡ take n store ++ read store n ∷ []
take-suc [] n h = elim h [ ]
take-suc (x ∷ xs) zero h = refl
take-suc (x ∷ xs) (suc n) h = ap (x ∷◌) (take-suc xs n (omega arith))

reverse-take : (store : List ℕ) (n : ℕ) → n ≤ length store → reverse (take n store) ≡ items store n
unfolding items
reverse-take store zero h = refl
reverse-take store (suc n) h =
    rw (take-suc store n h, reverse-append)
      (ap (read store n ∷◌) (reverse-take store n (omega arith)))

-- For every valid stack, getStack lists the items from the bottom to the top, and no stale entry.
pub reverse-get_stack : (s : Stack) → IsValid s → reverse (get_stack s) ≡ view s
unfolding get_stack view
reverse-get_stack s h = reverse-take s.store s.len h.stored
