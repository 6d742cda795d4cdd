-- ===== src/Tvm/Stack/Steps.antt =====
-- `push` and `pop_n` where they succeed, as equations with the new stack.
use tvmjs_monorepo.Prelude.{
  ℕ, zero, suc, ◌+◌, ◌-◌, ◌≤◌, ◌<◌, ◌≡◌, refl, ap, ◌∙◌, List, [], ◌∷◌, ◌++◌, arith, length, take,
  drop, get_or, ok, length-append,
}
use native.Mathlib.Nat.{sub-zero}
use native.Mathlib.Numerals.{add-one}
use tvmjs_monorepo.Tvm.Stack.{Stack, assign, read, push, pop, pop_n}
use tvmjs_monorepo.Tvm.Stack.View.{
  view, IsValid, length-view, items-push, pop_loop-items, drop-items, read-items, length-assign_end,
}

-- The stack without its `n` topmost items.
unfoldable pub shrunk : ℕ → Stack → Stack
shrunk n s = record s { len = s.len - n }

unfoldable pub grown : ℕ → Stack → Stack
grown v s = record s { store = assign s.store s.len v; len = s.len + 1 }

take-append : (xs ys : List ℕ) (n : ℕ) → length xs ≡ n → take n (xs ++ ys) ≡ xs
take-append [] ys zero e = refl
take-append [] ys (suc n) e = absurd (omega arith)
take-append (x ∷ xs) ys zero e = absurd (omega arith)
take-append (x ∷ xs) ys (suc n) e = ap (x ∷◌) (take-append xs ys n (omega arith))

drop-append : (xs ys : List ℕ) (n : ℕ) → length xs ≡ n → drop n (xs ++ ys) ≡ ys
drop-append [] ys zero e = refl
drop-append [] ys (suc n) e = absurd (omega arith)
drop-append (x ∷ xs) ys zero e = absurd (omega arith)
drop-append (x ∷ xs) ys (suc n) e = drop-append xs ys n (omega arith)

pop_n_lem : (s : Stack) (n : ℕ) → n ≤ s.len → pop_n n s ≡ ok (take n (view s), shrunk n s)
unfolding pop_n shrunk view
pop_n_lem s zero h = ground (arith, ap (λ (l : ℕ). record s { len = l }) (sub-zero s.len))
pop_n_lem s (suc n) h = ground (arith, pop_loop-items s.store (suc n) s.len h)

module _ (s : Stack) (valid : IsValid s) where
  pub push-grown :
      (v : ℕ)
      → s.len < s.max_height
      → (push v s ≡ ok (grown v s)) × IsValid (grown v s) × (view (grown v s) ≡ v ∷ view s)
  unfolding push grown view
  push-grown v room = (
    ground arith,
    omega (arith, length-assign_end s.store s.len v),
    rw add-one (items-push s.store s.len v),
  )

  module _ (vs rest : List ℕ) (shows : view s ≡ vs ++ rest) where
    pub len-view : s.len ≡ length vs + length rest
    len-view = omega (arith, length-view s, ap length shows, length-append vs rest)

    pub pop_n-shrunk :
        (n : ℕ)
        → length vs ≡ n
        → (pop_n n s ≡ ok (vs, shrunk n s)) × IsValid (shrunk n s) × (view (shrunk n s) ≡ rest)
    unfolding shrunk
    pop_n-shrunk n e = (
      popped,
      omega (arith, valid.stored, valid.bounded),
      unfold view in
          drop-items s.store n s.len fits
          ∙ ap (drop n) (unfold view in shows)
          ∙ drop-append vs rest n e,
    )
      where
        fits : n ≤ s.len
        fits = omega (arith, len-view)

        taken : take n (view s) ≡ vs
        taken = rw shows (take-append vs rest n e)

        popped : pop_n n s ≡ ok (vs, shrunk n s)
        popped = pop_n_lem s n fits ∙ ap (λ (xs : List ℕ). ok (xs, shrunk n s)) taken

-- `pop` where there is an item.
pub pop-shrunk :
    (s : Stack) (a : ℕ) (rest : List ℕ) → view s ≡ a ∷ rest → pop s ≡ ok (a, shrunk 1 s)
unfolding pop shrunk
pop-shrunk s a rest shows =
    let some_item : 0 < s.len = omega (arith, length-view s, ap length shows) in
    let top : get_or (view s) 0 0 ≡ read s.store (s.len - 1) =
      unfold view in read-items s.store s.len 0 some_item ∙ ap (read s.store) (omega arith) in
    ground (arith, top, ap (λ (xs : List ℕ). get_or xs 0 0) shows)
