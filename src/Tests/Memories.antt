-- ===== src/Tests/Memories.antt =====
-- The laws of the memory, its handlers and its gas.
use tvmjs_monorepo.Prelude.{
  ℕ, ◌+◌, ◌-◌, ◌*◌, ◌≤◌, ◌<◌, ◌≡◌, ◌⊎◌, inr, refl, true, List, [], ◌∷◌, length, ◌==◌, if◌then◌else◌,
  ok, arith,
}
use tvmjs_monorepo.Util.Bytes.{bytes_to_bigint}
use tvmjs_monorepo.Tvm.Memory.{Memory, extend, blit, write, read}
use tvmjs_monorepo.Tvm.Memory.Bytes.{byte_at}
use tvmjs_monorepo.Tvm.Memory.Access.{in_range}
use tvmjs_monorepo.Tvm.Memory.ReadWrite.{Stores, write_ok, read-write, read-write_disjoint}
use tvmjs_monorepo.Tvm.Stack.{Stack}
use tvmjs_monorepo.Tvm.Stack.View.{view, IsValid}
use tvmjs_monorepo.Tvm.Word.{IsWord}
use tvmjs_monorepo.Tvm.Machine.{RunState}
use tvmjs_monorepo.Tvm.Gas.{sub_mem_usage}
use tvmjs_monorepo.Tvm.Gas.Growth.{memory_cost, IsPaid, sub_mem_usage_lem}
use tvmjs_monorepo.Tvm.Ops.Mem.{mload, mstore, mcopy, calldatacopy, codecopy, returndatacopy}
use tvmjs_monorepo.Tvm.Ops.Mem.Laws.{LeavesMemory, Copies, mstore_lem, mcopy_lem, copy_ops}
use tvmjs_monorepo.Tvm.Ops.Mem.RoundTrip.{mload-mstore}
use tvmjs_monorepo.Tests.Data.{state, state_of, items_3_2_1-IsValid, view_3_2_1, common_example}

-- A small memory that a write of two bytes does not grow.
abbrev four_bytes : Memory
four_bytes = record { store = 1 ∷ 2 ∷ 3 ∷ 4 ∷ [] }

abbrev empty_memory : Memory
empty_memory = record { store = [] }

write_ok_example :
    (m' : Memory) × (write 1 2 (8 ∷ 9 ∷ []) empty_memory ≡ ok m')
    × Stores 1 (8 ∷ 9 ∷ []) empty_memory m'
write_ok_example = write_ok 1 (8 ∷ 9 ∷ []) empty_memory

abbrev full : Memory
full = record {
  store =
      1 ∷ 2 ∷ 3 ∷ 4 ∷ 0 ∷ 0 ∷ 0 ∷ 0 ∷ 0 ∷ 0 ∷ 0 ∷ 0 ∷ 0 ∷ 0 ∷ 0 ∷ 0 ∷ 0 ∷ 0 ∷ 0 ∷ 0 ∷ 0 ∷ 0 ∷ 0 ∷ 0
      ∷ 0 ∷ 0 ∷ 0 ∷ 0 ∷ 0 ∷ 0 ∷ 0 ∷ 0 ∷ [];
}

abbrev full' : Memory
full' = record {
  store =
      1 ∷ 8 ∷ 9 ∷ 4 ∷ 0 ∷ 0 ∷ 0 ∷ 0 ∷ 0 ∷ 0 ∷ 0 ∷ 0 ∷ 0 ∷ 0 ∷ 0 ∷ 0 ∷ 0 ∷ 0 ∷ 0 ∷ 0 ∷ 0 ∷ 0 ∷ 0 ∷ 0
      ∷ 0 ∷ 0 ∷ 0 ∷ 0 ∷ 0 ∷ 0 ∷ 0 ∷ 0 ∷ [];
}

wrote : write 1 2 (8 ∷ 9 ∷ []) full ≡ ok full'
unfolding write extend blit
wrote = refl

read-write_example : (read 1 2 true full').0 ≡ 8 ∷ 9 ∷ []
read-write_example = read-write 1 (8 ∷ 9 ∷ []) full full' true wrote

apart : (3 + 2 ≤ 1) ⊎ (1 + 2 ≤ 3)
apart = inr (ground arith)

read-write_disjoint_example : (read 3 2 true full').0 ≡ (read 3 2 true full).0
read-write_disjoint_example = read-write_disjoint 1 (8 ∷ 9 ∷ []) full full' 3 2 true wrote apart

two-IsWord : IsWord 2
two-IsWord = ground arith

mstored :
    (value : List ℕ) × (length value ≡ 32)
    × (bytes_to_bigint value ≡ 2)
    × LeavesMemory mstore state (1 ∷ []) (Stores 3 value state.memory)
mstored = mstore_lem state items_3_2_1-IsValid 3 2 (1 ∷ []) view_3_2_1 two-IsWord

abbrev offset_3 : Stack
offset_3 = record { store = 3 ∷ []; max_height = 1024; len = 1 }

offset_3-IsValid : IsValid offset_3
offset_3-IsValid = record { stored = omega arith; bounded = omega arith }

view-offset_3 : view offset_3 ≡ 3 ∷ []
unfolding view
view-offset_3 = refl

stored : LeavesMemory mstore state (1 ∷ []) (Stores 3 mstored.0 state.memory)
stored = mstored.3

abbrev after : RunState
after = record state { stack = stored.0; memory = stored.1 }

abbrev loading : RunState
loading = record (state_of offset_3) { memory = stored.1 }

mload-mstore_example :
    LeavesMemory mload loading
      (2 ∷ [])
      (λ m. (i : ℕ) → byte_at m.store i ≡ byte_at loading.memory.store i)
mload-mstore_example =
    mload-mstore state after items_3_2_1-IsValid 3 2 (1 ∷ []) view_3_2_1 two-IsWord stored.2 loading
      [] offset_3-IsValid refl view-offset_3

mcopy_lem_example : LeavesMemory mcopy state [] (λ m.
    (i : ℕ)
    → byte_at m.store i ≡ (
        if in_range 3 1 i
        then byte_at state.memory.store (2 + (i - 3))
        else byte_at state.memory.store i))
mcopy_lem_example = mcopy_lem state items_3_2_1-IsValid 3 2 1 [] view_3_2_1

copy_ops_example :
    Copies calldatacopy state [] 3 2 1 state.env.call_data
    × Copies codecopy state [] 3 2 1 state.env.code
    × Copies returndatacopy state [] 3 2 1 state.return_bytes
copy_ops_example = copy_ops state items_3_2_1-IsValid 3 2 1 [] view_3_2_1

price_positive : 0 < common_example.memory_gas
price_positive = ground arith

divisor_positive : 0 < common_example.quad_coefficient_div_gas
divisor_positive = ground arith

nothing_owed : IsPaid common_example state
nothing_owed = refl

sub_mem_usage_lem_example :
    (charge : ℕ) × (t : RunState) × (sub_mem_usage 30 4 common_example state ≡ ok (charge, t))
    × IsPaid common_example t
    × (state.memory_word_count ≤ t.memory_word_count)
    × ((if 4 == 0 then 0 else 30 + 4) ≤ t.memory_word_count * 32)
    × (memory_cost common_example state.memory_word_count + charge
        ≡ memory_cost common_example t.memory_word_count)
sub_mem_usage_lem_example =
    sub_mem_usage_lem common_example 30 4 state price_positive divisor_positive nothing_owed
