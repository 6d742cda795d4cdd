-- ===== src/Tests/Storage.antt =====
-- A checkpoint, a put and a revert.
use tvmjs_monorepo.Prelude.{ℕ, ◌≡◌, refl, List, [], ◌∷◌, ok, arith}
use tvmjs_monorepo.Tvm.Stack.View.{view}
use tvmjs_monorepo.Tvm.Stack.Steps.{shrunk}
use tvmjs_monorepo.Tvm.Word.{IsWord}
use tvmjs_monorepo.Tvm.Machine.{RunState}
use tvmjs_monorepo.Tvm.Ops.Frame.{Leaves}
use tvmjs_monorepo.Tvm.Ops.Transient.{tload, tstore}
use tvmjs_monorepo.Tvm.Ops.Transient.Laws.{tstore_lem, tload-tstore}
use tvmjs_monorepo.Tests.Data.{state, items_3_2_1, items_3_2_1-IsValid, view_3_2_1}
use tvmjs_monorepo.Tvm.TransientStorage.{
  TransientStorage, modification, zeros, new, get, put, checkpoint, revert,
}
use tvmjs_monorepo.Tvm.TransientStorage.Rollback.{puts, revert-puts}

abbrev after_checkpoint : TransientStorage
after_checkpoint = record { storage = []; change_journal = []; indices = 0 ∷ 0 ∷ [] }

abbrev after_put : TransientStorage
after_put = record {
  storage = (1 ∷ [], (zeros, 7 ∷ []) ∷ []) ∷ [];
  change_journal = modification (1 ∷ []) zeros zeros ∷ [];
  indices = 0 ∷ 0 ∷ [];
}

one_put : put (1 ∷ []) zeros (7 ∷ []) after_checkpoint ≡ ok after_put
unfolding put
one_put = refl

some_puts : puts ((1 ∷ [], zeros, 7 ∷ []) ∷ []) (checkpoint new) ≡ ok after_put
unfolding puts checkpoint new put
some_puts = refl

revert-puts_example :
    (t : TransientStorage) × (revert after_put ≡ ok t)
    × ((a k : List ℕ) → get a k t ≡ get a k new)
    × (t.change_journal ≡ new.change_journal)
    × (t.indices ≡ new.indices)
revert-puts_example = revert-puts ((1 ∷ [], zeros, 7 ∷ []) ∷ []) new after_put some_puts

three-IsWord : IsWord 3
three-IsWord = omega arith

two-IsWord : IsWord 2
two-IsWord = omega arith

stored :
    (ts : TransientStorage) × (tstore state
      ≡ ok (tt, record state { stack = shrunk 2 items_3_2_1; transient_storage = ts }))
    × (view (shrunk 2 items_3_2_1) ≡ 1 ∷ [])
stored = tstore_lem state items_3_2_1-IsValid refl 3 2 (1 ∷ []) view_3_2_1 three-IsWord two-IsWord

abbrev after_tstore : RunState
after_tstore = record state { stack = shrunk 2 items_3_2_1; transient_storage = stored.0 }

abbrev later : RunState
later = record state { transient_storage = stored.0 }

tload-tstore_example : Leaves tload later (2 ∷ 2 ∷ 1 ∷ [])
tload-tstore_example =
    tload-tstore state items_3_2_1-IsValid refl 3 2 (1 ∷ []) view_3_2_1 three-IsWord two-IsWord
      after_tstore stored.1 later (2 ∷ 1 ∷ []) items_3_2_1-IsValid refl refl view_3_2_1
