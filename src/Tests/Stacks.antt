-- ===== src/Tests/Stacks.antt =====
-- The stack's laws, and runs of its operations.
use tvmjs_monorepo.Prelude.{◌≡◌, ◌≤◌, refl, [], ◌∷◌, result_map, ok, err, arith}
use tvmjs_monorepo.Tvm.Errors.{stack_underflow}
use tvmjs_monorepo.Tvm.Stack.{Stack, push, peek, pop_n, exchange, swap, dup}
use tvmjs_monorepo.Tvm.Stack.View.{view}
use tvmjs_monorepo.Tvm.Stack.Spec.{
  push_spec, peek_spec, pop_n_spec, exchange_spec, swap_spec, dup_spec,
}
use tvmjs_monorepo.Tvm.Stack.Refine.{shown, stack_ops}
use tvmjs_monorepo.Tests.Data.{items_3_2_1}

at_least_one : 1 ≤ 2
at_least_one = ground arith

stack_ops_example :
    (result_map view (push 5 items_3_2_1) ≡ push_spec 1024 5 (view items_3_2_1))
    × (result_map shown (pop_n 2 items_3_2_1) ≡ pop_n_spec 2 (view items_3_2_1))
    × (peek 2 items_3_2_1 ≡ peek_spec 2 (view items_3_2_1))
    × (result_map view (exchange 0 2 items_3_2_1) ≡ exchange_spec 0 2 (view items_3_2_1))
    × (result_map view (swap 2 items_3_2_1) ≡ swap_spec 2 (view items_3_2_1))
    × (result_map view (dup 2 items_3_2_1) ≡ dup_spec 1024 2 (view items_3_2_1))
stack_ops_example = stack_ops items_3_2_1 5 2 0 2 2 at_least_one

abbrev items_1_2_3 : Stack
items_1_2_3 = record { store = 3 ∷ 2 ∷ 1 ∷ 9 ∷ []; max_height = 1024; len = 3 }

exchanged : exchange 0 2 items_3_2_1 ≡ ok items_1_2_3
unfolding exchange
exchanged = refl

too_deep : exchange 0 3 items_3_2_1 ≡ err stack_underflow
unfolding exchange
too_deep = refl
