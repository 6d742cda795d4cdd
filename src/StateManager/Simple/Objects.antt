-- ===== src/StateManager/Simple/Objects.antt =====
-- packages/statemanager/src/simpleStateManager.ts: the levels of accounts as objects on a heap. An account has
-- its assets in an object of its own; what `getAccount` returns is the stored object, which its reader may
-- change in place. References are numbers.
use tvmjs_monorepo.Prelude.{ℕ, suc, ◌==◌, List, [], ◌∷◌, Option, some, none, if◌then◌else◌}
use tvmjs_monorepo.Prelude.Maps.{Map, map_get, map_set}
use tvmjs_monorepo.Util.Account.{Account, asset_set}
use tvmjs_monorepo.StateManager.Simple.{found, splice_second, pop_level}
pub mod Isolation
pub mod Changes
pub mod Reverts

pub record AccountObject : Type 0 where
  pub nonce : ℕ
  pub balance : ℕ
  pub storage_root : List ℕ
  pub code_hash : List ℕ
  pub asset : ℕ

pub record Heap : Type 0 where
  pub accounts : ℕ → AccountObject
  pub assets : ℕ → List (ℕ × ℕ)
  pub next : ℕ

pub record Objects : Type 0 where
  pub heap : Heap
  pub account_stack : List (Map (Option ℕ))

abbrev pub set_at {ℓ} : {A : Type ℓ} → ℕ → A → (ℕ → A) → ℕ → A
set_at r v f r' = if r' == r then v else f r'

-- The value of an object.
abbrev pub value_of : Heap → ℕ → Account
value_of h r = record {
  nonce = (h.accounts r).nonce;
  balance = (h.accounts r).balance;
  storage_root = (h.accounts r).storage_root;
  code_hash = (h.accounts r).code_hash;
  asset = h.assets (h.accounts r).asset;
}

abbrev pub value_at : Heap → Option ℕ → Option Account
value_at h none = none
value_at h (some r) = some (value_of h r)

-- A new object with assets of its own.
abbrev pub allocate : Account → Heap → Heap
allocate a h = record {
  accounts =
      set_at h.next
        (record {
          nonce = a.nonce;
          balance = a.balance;
          storage_root = a.storage_root;
          code_hash = a.code_hash;
          asset = h.next;
        })
        h.accounts;
  assets = set_at h.next a.asset h.assets;
  next = suc h.next;
}

-- `copyAccount`, with a copy of the assets.
unfoldable pub copy_account : Option ℕ → Heap → Heap × Option ℕ
copy_account none h = (h, none)
copy_account (some r) h = (allocate (value_of h r) h, some h.next)

-- The loop of `checkpointSync` over the accounts.
unfoldable pub copy_level : Map (Option ℕ) → Heap → Heap × Map (Option ℕ)
unfolding copy_account
copy_level [] h = (h, [])
copy_level ((k, o) ∷ m) h =
    let copied = copy_account o h in
    let rest = copy_level m copied.0 in (rest.0, (k, copied.1) ∷ rest.1)

abbrev pub newest : List (Map (Option ℕ)) → Map (Option ℕ)
newest [] = []
newest (m ∷ below) = m

unfoldable pub checkpoint : Objects → Objects
unfolding copy_level
checkpoint s =
    let copied = copy_level (newest s.account_stack) s.heap in
    record { heap = copied.0; account_stack = copied.1 ∷ s.account_stack }

unfoldable pub commit : Objects → Objects
commit s = record s { account_stack = splice_second s.account_stack }

unfoldable pub revert : Objects → Objects
revert s = record s { account_stack = pop_level s.account_stack }

unfoldable pub get_account : List ℕ → Objects → Option ℕ
get_account address s = found (map_get address (newest s.account_stack))

abbrev pub set_newest :
    (Map (Option ℕ) → Map (Option ℕ)) → List (Map (Option ℕ)) → List (Map (Option ℕ))
set_newest f [] = []
set_newest f (m ∷ below) = f m ∷ below

unfoldable pub put_account : List ℕ → Option ℕ → Objects → Objects
put_account address o s = record s {
  account_stack = set_newest (map_set address o) s.account_stack;
}

-- Changes of an account in place: of its fields, and of the balance of a token.
abbrev pub set_fields : ℕ → ℕ → ℕ → List ℕ → List ℕ → Heap → Heap
set_fields r nonce balance storage_root code_hash h = record h {
  accounts =
      set_at r
        (record {
          nonce = nonce;
          balance = balance;
          storage_root = storage_root;
          code_hash = code_hash;
          asset = (h.accounts r).asset;
        })
        h.accounts;
}

abbrev pub set_token_balance : ℕ → ℕ → ℕ → Heap → Heap
set_token_balance r id balance h = record h {
  assets =
      set_at (h.accounts r).asset (asset_set id balance (h.assets (h.accounts r).asset)) h.assets;
}
