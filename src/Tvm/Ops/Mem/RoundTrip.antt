-- ===== src/Tvm/Ops/Mem/RoundTrip.antt =====
-- A word that MSTORE stored is the word that MLOAD loads.
use tvmjs_monorepo.Prelude.{ℕ, ◌≡◌, ap, ◌∙◌, List, ◌∷◌, ok, ok_unique}
use tvmjs_monorepo.Util.Bytes.{bytes_to_bigint}
use tvmjs_monorepo.Tvm.Memory.Bytes.{byte_at}
use tvmjs_monorepo.Tvm.Memory.ReadWrite.{window, window-Stores_self}
use tvmjs_monorepo.Tvm.Stack.View.{view, IsValid}
use tvmjs_monorepo.Tvm.Word.{IsWord}
use tvmjs_monorepo.Tvm.Machine.{RunState}
use tvmjs_monorepo.Tvm.Ops.Mem.{mload, mstore}
use tvmjs_monorepo.Tvm.Ops.Mem.Laws.{LeavesMemory, mload_lem, mstore_lem}

-- After an MSTORE of a word at an offset, MLOAD of that offset, in every later state with this
-- memory and a valid stack with the offset on top, succeeds, leaves the word in place of the
-- offset, and changes no byte.
pub mload-mstore :
    (s s' : RunState)
    → IsValid s.stack
    → (offset word : ℕ) (rest : List ℕ) → view s.stack ≡ offset ∷ word ∷ rest
    → IsWord word
    → mstore s ≡ ok (tt, s')
    → (t : RunState) (items : List ℕ) → IsValid t.stack
    → t.memory ≡ s'.memory
    → view t.stack ≡ offset ∷ items
    → LeavesMemory mload t
        (word ∷ items)
        (λ m. (i : ℕ) → byte_at m.store i ≡ byte_at t.memory.store i)
mload-mstore s s' valid offset word rest shows hw ran' t items ok_t e shows_t =
    let (value, len, num, (st, m, ran, ok_st, shows', stores)) =
      mstore_lem s valid offset word rest shows hw in
    let same : s'.memory ≡ m = ap (λ r. r.1.memory) (ok_unique ran' ran) in
    let stored : window m offset 32 ≡ value =
      rw (← len) (window-Stores_self offset value s.memory m stores) in
    let loaded : bytes_to_bigint (window t.memory offset 32) ≡ word =
      ap (λ k. bytes_to_bigint (window k offset 32)) (e ∙ same) ∙ ap bytes_to_bigint stored ∙ num in
    rw (← loaded) (mload_lem t ok_t offset items shows_t)
