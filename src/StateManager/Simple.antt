-- ===== src/StateManager/Simple.antt =====
-- packages/statemanager/src/simpleStateManager.ts: the state manager that keeps a map for each level of
-- checkpoints. The stacks have their newest level first. Accounts are values here: an account that is changed
-- by its reader counts when it is put. Objects has them as objects, which checkpoints copy.
pub mod Levels
pub mod Objects
use tvmjs_monorepo.Prelude.{
  ℕ, ◌==◌, ◌||◌, Bool, true, false, List, [], ◌∷◌, ◌++◌, length, Option, some, none, if◌then◌else◌,
  Result, ok, err,
}
use tvmjs_monorepo.Prelude.Maps.{Map, map_get, map_set}
use tvmjs_monorepo.Prelude.Effects.{Effect, ◌>>=◌, ◌>>◌, return, reading, update}
use tvmjs_monorepo.Tvm.Errors.{TvmError, internal}
use tvmjs_monorepo.Util.Account.{Account, new_account, token_ids}

pub record SimpleStateManager : Type 0 where
  pub account_stack : List (Map (Option Account))
  pub code_stack : List (Map (List ℕ))
  pub storage_stack : List (Map (List ℕ))
  pub token_id_stack : List (List ℕ)

abbrev pub Managed {ℓ} : Type ℓ → Type ℓ
Managed A = Effect SimpleStateManager TvmError A

module _ {ℓ} {L : Type ℓ} where
  -- The newest level; without one the runtime throws.
  abbrev pub top : List L → Result TvmError L
  top [] = err internal
  top (level ∷ below) = ok level

  abbrev pub with_top : (L → L) → List L → Result TvmError (List L)
  with_top f [] = err internal
  with_top f (level ∷ below) = ok (f level ∷ below)

  -- A new level with what the newest has, or with nothing.
  abbrev pub copy_top : L → List L → List L
  copy_top nothing [] = nothing ∷ []
  copy_top nothing (level ∷ below) = level ∷ level ∷ below

  -- `splice(-2, 1)`, which drops the only element of an array of one.
  abbrev pub splice_second : List L → List L
  splice_second [] = []
  splice_second (level ∷ []) = []
  splice_second (level ∷ second ∷ below) = level ∷ below

  -- `pop`
  abbrev pub pop_level : List L → List L
  pop_level [] = []
  pop_level (level ∷ below) = below

abbrev pub found {ℓ} : {A : Type ℓ} → Option (Option A) → Option A
found none = none
found (some o) = o

abbrev pub add_id : ℕ → List ℕ → List ℕ
add_id id [] = id ∷ []
add_id id (i ∷ ids) = if id == i then i ∷ ids else i ∷ add_id id ids

abbrev pub add_ids : List ℕ → List ℕ → List ℕ
add_ids [] registry = registry
add_ids (id ∷ ids) registry = add_ids ids (add_id id registry)

abbrev pub ids_of : Option Account → List ℕ
ids_of none = []
ids_of (some account) = token_ids account

abbrev pub has_id : ℕ → List ℕ → Bool
has_id id [] = false
has_id id (i ∷ ids) = id == i || has_id id ids

abbrev pub or_default {ℓ} : {A : Type ℓ} → A → Option A → A
or_default other none = other
or_default other (some a) = a

-- A read of the newest level.
abbrev pub read {ℓ κ} :
    {L : Type ℓ} {A : Type κ} → (SimpleStateManager → List L) → (L → A) → Managed A
read stack f s = elim (top (stack s)) [ ok level ↦ (s, ok (f level)) | err e ↦ (s, err e) ]

unfoldable pub get_account : List ℕ → Managed (Option Account)
get_account address = read (λ s. s.account_stack) (λ m. found (map_get address m))

abbrev pub set_accounts : (Map (Option Account) → Map (Option Account)) → Managed (Unit {0})
set_accounts f s = elim (with_top f s.account_stack) [
  | ok levels ↦ (record s { account_stack = levels }, ok tt)
  | err e ↦ (s, err e)
]

abbrev pub register : List ℕ → Managed (Unit {0})
register ids s = elim (with_top (add_ids ids) s.token_id_stack) [
  | ok levels ↦ (record s { token_id_stack = levels }, ok tt)
  | err e ↦ (s, err e)
]

unfoldable pub put_account : List ℕ → Option Account → Managed (Unit {0})
put_account address account = set_accounts (map_set address account) >> register (ids_of account)

unfoldable pub delete_account : List ℕ → Managed (Unit {0})
delete_account address = set_accounts (map_set address none)

unfoldable pub get_code : List ℕ → Managed (List ℕ)
get_code address = read (λ s. s.code_stack) (λ m. or_default [] (map_get address m))

unfoldable pub get_code_size : List ℕ → Managed ℕ
unfolding get_code
get_code_size address = get_code address >>= λ code. return (length code)

abbrev pub put_with_hash : List ℕ → List ℕ → Option Account → Managed (Unit {0})
put_with_hash address code_hash account =
    put_account address (some (record (or_default new_account account) { code_hash = code_hash }))

-- `modifyAccountFields` of util.ts with a code hash.
unfoldable pub modify_code_hash : List ℕ → List ℕ → Managed (Unit {0})
unfolding get_account put_account
modify_code_hash address code_hash = get_account address >>= put_with_hash address code_hash

abbrev pub set_code : (Map (List ℕ) → Map (List ℕ)) → Managed (Unit {0})
set_code f s = elim (with_top f s.code_stack) [
  | ok levels ↦ (record s { code_stack = levels }, ok tt)
  | err e ↦ (s, err e)
]

abbrev pub put_default : List ℕ → Option Account → Managed (Unit {0})
put_default address none = put_account address (some new_account)
put_default address (some account) = return tt

-- The hash function is a parameter.
unfoldable pub put_code : (List ℕ → List ℕ) → List ℕ → List ℕ → Managed (Unit {0})
unfolding get_account put_account modify_code_hash
put_code keccak256 address value = do
  set_code (map_set address value)
  get_account address >>= put_default address
  modify_code_hash address (keccak256 value)

-- `${address}_${key}`, with a separator that is no byte.
abbrev pub slot_key : List ℕ → List ℕ → List ℕ
slot_key address key = address ++ (256 ∷ key)

unfoldable pub get_storage : List ℕ → List ℕ → Managed (List ℕ)
get_storage address key =
    read (λ s. s.storage_stack) (λ m. or_default [] (map_get (slot_key address key) m))

unfoldable pub put_storage : List ℕ → List ℕ → List ℕ → Managed (Unit {0})
put_storage address key value s =
    elim (with_top (map_set (slot_key address key) value) s.storage_stack) [
      | ok levels ↦ (record s { storage_stack = levels }, ok tt)
      | err e ↦ (s, err e)
    ]

unfoldable pub token_id_exists : ℕ → Managed Bool
token_id_exists id = read (λ s. s.token_id_stack) (has_id id)

unfoldable pub checkpoint : SimpleStateManager → SimpleStateManager
checkpoint s = record {
  account_stack = copy_top [] s.account_stack;
  code_stack = copy_top [] s.code_stack;
  storage_stack = copy_top [] s.storage_stack;
  token_id_stack = copy_top [] s.token_id_stack;
}

-- The constructor.
unfoldable pub new : SimpleStateManager
unfolding checkpoint
new =
    checkpoint
      (record { account_stack = []; code_stack = []; storage_stack = []; token_id_stack = [] })

unfoldable pub commit : SimpleStateManager → SimpleStateManager
commit s = record {
  account_stack = splice_second s.account_stack;
  code_stack = splice_second s.code_stack;
  storage_stack = splice_second s.storage_stack;
  token_id_stack = splice_second s.token_id_stack;
}

unfoldable pub revert : SimpleStateManager → SimpleStateManager
revert s = record {
  account_stack = pop_level s.account_stack;
  code_stack = pop_level s.code_stack;
  storage_stack = pop_level s.storage_stack;
  token_id_stack = pop_level s.token_id_stack;
}
