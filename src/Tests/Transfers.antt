-- ===== src/Tests/Transfers.antt =====
-- A transfer of value and tokens, and accounts that are changed in place within a checkpoint.
use tvmjs_monorepo.Prelude.{
  ℕ, ◌≡◌, ◌⊎◌, refl, inl, false, List, [], ◌∷◌, Option, some, none, ok, arith,
}
use tvmjs_monorepo.Prelude.Maps.{Map}
use tvmjs_monorepo.Tvm.Errors.{TvmError}
use tvmjs_monorepo.Util.Account.{Account, new_account}
use tvmjs_monorepo.StateManager.Simple.{SimpleStateManager}
use tvmjs_monorepo.StateManager.Simple.Levels.{HasLevel}
use tvmjs_monorepo.StateManager.Simple.Objects.{Heap, Objects, allocate, checkpoint, commit, revert}
use tvmjs_monorepo.StateManager.Simple.Objects.Changes.{
  Phase, idle, changed, reverted, run_change, fields_change, token_change, delete_change, objects,
}
use tvmjs_monorepo.StateManager.Simple.Objects.Reverts.{
  AreOnHeap, SameLevels, account_of, Phase-revert_isolated,
}
use tvmjs_monorepo.Tvm.Call.Transfer.{Message, transfer}
use tvmjs_monorepo.Tvm.Call.Transfer.Accounts.{IsShort, IsFull}
use tvmjs_monorepo.Tvm.Call.Transfer.Balances.{account_at, IsMoved, transfer_lem}

abbrev rich : Account
rich = record new_account { balance = 10; asset = (1000001, 5) ∷ [] }

abbrev funded : SimpleStateManager
funded = record {
  account_stack = ((1 ∷ [], some rich) ∷ []) ∷ [];
  code_stack = [] ∷ [];
  storage_stack = [] ∷ [];
  token_id_stack = (1000001 ∷ []) ∷ [];
}

funded-HasLevel : HasLevel funded
funded-HasLevel = (
  record { accounts = (1 ∷ [], some rich) ∷ []; code = []; storage = []; token_ids = 1000001 ∷ [] },
  record { account_stack = []; code_stack = []; storage_stack = []; token_id_stack = [] },
  refl,
)

abbrev message : Message
message = record {
  caller = 1 ∷ [];
  to = 2 ∷ [];
  value = 3;
  token_id = 1000001;
  token_value = 2;
  delegatecall = false;
  has_code = false;
}

transfer_lem_example :
    ((t : SimpleStateManager) × (e : TvmError) × (transfer message funded ≡ (t, ok (some e)))
      × (IsShort message (account_at (1 ∷ []) funded)
          ⊎ IsFull message (account_at (2 ∷ []) funded)))
    ⊎ ((t : SimpleStateManager) × (transfer message funded ≡ (t, ok none))
        × IsMoved message funded t)
transfer_lem_example = transfer_lem message funded funded-HasLevel refl (inl (ground arith))

abbrev empty_heap : Heap
empty_heap = record {
  accounts = λ r. record { nonce = 0; balance = 0; storage_root = []; code_hash = []; asset = 0 };
  assets = λ r. [];
  next = 0;
}

-- The rich account at an address.
abbrev stored : Heap
stored = allocate rich empty_heap

abbrev level : Map (Option ℕ)
level = (1 ∷ [], some 0) ∷ []

stored-AreOnHeap : AreOnHeap stored (level ∷ [])
stored-AreOnHeap = (((omega arith, omega arith, omega arith, omega arith), tt), tt)

-- Its balance and its tokens change in place, and it is deleted in an inner checkpoint that is reverted.
abbrev spent : Objects
spent =
    run_change (token_change (1 ∷ []) 1000001 0)
      (run_change (fields_change (1 ∷ []) 1 7 [] []) (checkpoint (objects stored level [])))

abbrev inner : Objects
inner = revert (run_change (delete_change (1 ∷ [])) (checkpoint spent))

spending : Phase (checkpoint (objects stored level [])) inner
spending = changed (fields_change (1 ∷ []) 1 7 [] []) (
    changed (token_change (1 ∷ []) 1000001 0)
      (reverted (changed (delete_change (1 ∷ [])) idle) idle))

Phase-revert_isolated_example :
    ((k : List ℕ)
      → account_of k (checkpoint (objects stored level []))
        ≡ account_of k (objects stored level []))
    × ((revert inner).account_stack ≡ level ∷ [])
    × SameLevels stored (revert inner).heap (level ∷ [])
    × ((revert (commit inner)).account_stack ≡ [])
    × SameLevels stored (commit inner).heap []
    × ((k : List ℕ) → account_of k (commit inner) ≡ account_of k inner)
Phase-revert_isolated_example =
    Phase-revert_isolated stored level [] inner stored-AreOnHeap spending
