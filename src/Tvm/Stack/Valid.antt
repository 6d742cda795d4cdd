-- ===== src/Tvm/Stack/Valid.antt =====
-- The class invariant: the length stays within the array and within the maximal height.
use tvmjs_monorepo.Prelude.{ℕ, ◌-◌, ◌≡◌, List, arith, ok}
use tvmjs_monorepo.Tvm.Stack.{Stack, new, assign, read, push, pop, pop_n, swap, dup, exchange}
use tvmjs_monorepo.Tvm.Stack.View.{IsValid, length-assign_end, length-le-assign}

pub new-IsValid : (h : ℕ) → IsValid (new h)
unfolding new
new-IsValid h = omega arith

module _ {s s' : Stack} (h : IsValid s) where
  pub push-IsValid : (v : ℕ) → push v s ≡ ok s' → IsValid s'
  unfolding push
  push-IsValid v e = ground (arith, length-assign_end s.store s.len v)

  pub dup-IsValid : (n : ℕ) → dup n s ≡ ok s' → IsValid s'
  unfolding dup
  dup-IsValid n e = ground (arith, length-assign_end s.store s.len (read s.store (s.len - n)))

  pub swap-IsValid : (n : ℕ) → swap n s ≡ ok s' → IsValid s'
  unfolding swap
  swap-IsValid n e = ground (
    arith,
    length-le-assign s.store (s.len - 1) (read s.store (s.len - 1 - n)),
    length-le-assign (assign s.store (s.len - 1) (read s.store (s.len - 1 - n))) (s.len - 1 - n)
        (read s.store (s.len - 1)),
  )

  -- An exchange that succeeds on a valid stack leaves a valid stack.
  pub exchange-IsValid : (i j : ℕ) → exchange i j s ≡ ok s' → IsValid s'
  unfolding exchange
  exchange-IsValid i j e = ground (
    arith,
    length-le-assign s.store (s.len - 1 - j) (read s.store (s.len - 1 - i)),
    length-le-assign (assign s.store (s.len - 1 - j) (read s.store (s.len - 1 - i))) (s.len - 1 - i)
        (read s.store (s.len - 1 - j)),
  )

  pub pop_n-IsValid : (n : ℕ) {xs : List ℕ} → pop_n n s ≡ ok (xs, s') → IsValid s'
  unfolding pop_n
  pop_n-IsValid n e = ground arith

  pub pop-IsValid : {x : ℕ} → pop s ≡ ok (x, s') → IsValid s'
  unfolding pop
  pop-IsValid e = ground arith
