-- ===== src/StateManager/Simple/Levels.antt =====
-- packages/statemanager/src/simpleStateManager.ts: the four stacks with their newest level apart.
use tvmjs_monorepo.Prelude.{ℕ, ◌≡◌, List, ◌∷◌, Option}
use tvmjs_monorepo.Prelude.Maps.{Map}
use tvmjs_monorepo.Util.Account.{Account}
use tvmjs_monorepo.StateManager.Simple.{SimpleStateManager}

pub record Level : Type 0 where
  pub accounts : Map (Option Account)
  pub code : Map (List ℕ)
  pub storage : Map (List ℕ)
  pub token_ids : List ℕ

abbrev pub push_level : Level → SimpleStateManager → SimpleStateManager
push_level l below = record {
  account_stack = l.accounts ∷ below.account_stack;
  code_stack = l.code ∷ below.code_stack;
  storage_stack = l.storage ∷ below.storage_stack;
  token_id_stack = l.token_ids ∷ below.token_id_stack;
}

abbrev pub HasLevel : SimpleStateManager → Type 0
HasLevel s = (l : Level) × (below : SimpleStateManager) × (s ≡ push_level l below)
