-- ===== src/Tvm/Ops/Frame.antt =====
-- Handlers that replace the topmost items of the stack by one item.
use tvmjs_monorepo.Prelude.{ℕ, suc, ◌<◌, ◌≡◌, refl, ap, ◌∙◌, List, [], ◌∷◌, ◌++◌, arith, length, ok}
use tvmjs_monorepo.Tvm.Stack
use tvmjs_monorepo.Tvm.Stack.{Stack}
use tvmjs_monorepo.Tvm.Stack.View.{view, IsValid}
use tvmjs_monorepo.Tvm.Stack.Steps.{shrunk, grown, push-grown, len-view, pop_n-shrunk, pop-shrunk}
use tvmjs_monorepo.Tvm.Machine.{RunState, Exec, ◌>>=◌, push, pop, pop_n}

-- The handler returns, it leaves these items on a valid stack, and changes nothing else.
abbrev pub Leaves : Exec (Unit {0}) → RunState → List ℕ → Type 0
Leaves h s items =
    (st : Stack) × (h s ≡ ok (tt, record s { stack = st })) × IsValid st × (view st ≡ items)

module _ (s : RunState) (valid : IsValid s.stack) (vs rest : List ℕ)
    (shows : view s.stack ≡ vs ++ rest) where
  -- A handler that pops `n ≥ 1` items and pushes one.
  pub replaces :
      (n : ℕ) (body : List ℕ → Exec (Unit {0})) (v : ℕ)
      → length vs ≡ suc n
      → ((t : RunState) → body vs t ≡ push v t)
      → Leaves (pop_n (suc n) >>= body) s (v ∷ rest)
  replaces n body v e pushes = (grown v t, ran, pushed.1, pushed.2 ∙ ap (v ∷◌) popped.2)
    where
      t : Stack
      t = shrunk (suc n) s.stack

      popped : (Stack.pop_n (suc n) s.stack ≡ ok (vs, t)) × IsValid t × (view t ≡ rest)
      popped = pop_n-shrunk s.stack valid vs rest shows (suc n) e

      pushed :
          (Stack.push v t ≡ ok (grown v t)) × IsValid (grown v t) × (view (grown v t) ≡ v ∷ view t)
      pushed =
          push-grown t popped.1 v
            (unfold shrunk in omega (arith, len-view s.stack valid vs rest shows, valid.bounded))

      ran : (pop_n (suc n) >>= body) s ≡ ok (tt, record s { stack = grown v t })
      ran = ground (arith, popped.0, pushes (record s { stack = t }), pushed.0)

module _ (s : RunState) (valid : IsValid s.stack) (a : ℕ) (rest : List ℕ)
    (shows : view s.stack ≡ a ∷ rest) where
  -- A handler that pops one item and pushes one, which the rest of the state may determine.
  pub replaces_one_at :
      (body : ℕ → Exec (Unit {0})) (v : ℕ)
      → body a (record s { stack = shrunk 1 s.stack })
        ≡ push v (record s { stack = shrunk 1 s.stack })
      → Leaves (pop >>= body) s (v ∷ rest)
  replaces_one_at body v pushes =
      let popped = pop-shrunk s.stack a rest shows in
      let popped_n = pop_n-shrunk s.stack valid (a ∷ []) rest shows 1 refl in
      let (st, ran, ok_st, shows') =
        replaces s valid (a ∷ []) rest shows 0 (λ vs. push v) v refl (λ t. refl) in
      (st, ground (arith, popped, popped_n.0, pushes, ran), ok_st, shows')

  pub replaces_one :
      (body : ℕ → Exec (Unit {0})) (v : ℕ)
      → ((t : RunState) → body a t ≡ push v t)
      → Leaves (pop >>= body) s (v ∷ rest)
  replaces_one body v pushes = replaces_one_at body v (pushes _)

-- A handler that pushes a value, where there is room for it.
pub pushes_value :
    (h : Exec (Unit {0})) (s : RunState) (v : ℕ)
    → IsValid s.stack
    → s.stack.len < s.stack.max_height
    → h s ≡ push v s
    → Leaves h s (v ∷ view s.stack)
pushes_value h s v valid room pushes =
    let (pushed, ok_g, shows) = push-grown s.stack valid v room in
    (grown v s.stack, ground (arith, pushes, pushed), ok_g, shows)
