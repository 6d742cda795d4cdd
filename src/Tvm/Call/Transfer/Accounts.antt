-- ===== src/Tvm/Call/Transfer/Accounts.antt =====
-- packages/tvm/src/tvm.ts: how the accounts of the caller and of the recipient change.
use tvmjs_monorepo.Prelude.{
  ℕ, ◌+◌, ◌-◌, ◌==◌, ◌<◌, ltb, ◌≡◌, ◌≢◌, ◌⊎◌, inl, inr, refl, Bool, true, false, Bool-cases, List,
  [], ◌∷◌, some, if◌then◌else◌, ok, err, arith,
}
use tvmjs_monorepo.Prelude.Maps.{map_get, map_set, same_key, map_get-map_set}
use tvmjs_monorepo.Tvm.Errors.{
  TvmError, insufficient_balance, insufficient_token_balance, value_overflow,
}
use tvmjs_monorepo.Tvm.Word.{max_integer}
use tvmjs_monorepo.Util.Account.{
  Account, new_account, asset_get, asset_set, token_balance, token_ids,
}
use tvmjs_monorepo.StateManager.Simple.{
  SimpleStateManager, Managed, found, put_account, or_default, add_ids,
}
use tvmjs_monorepo.StateManager.Simple.Levels.{Level, push_level}
use tvmjs_monorepo.Tvm.Call.Transfer.{
  Message, max_int64, set_token, reduce_sender_balance, reduce_sender_token_balance, add_to_balance,
  add_to_token_balance, reduce_sender, add_to_recipient,
}

asset_get-asset_set :
    (k k' v : ℕ) (asset : List (ℕ × ℕ))
    → asset_get k' (asset_set k v asset) ≡ (if k' == k then v else asset_get k' asset)
asset_get-asset_set k k' v [] = refl
asset_get-asset_set k k' v ((k'', v') ∷ rest) = ground (arith, asset_get-asset_set k k' v rest)

token_balance-set_token :
    (id k v : ℕ) (account : Account)
    → k ≢ 0
    → token_balance id (set_token k v account) ≡ (if id == k then v else token_balance id account)
token_balance-set_token id k v account h = ground (arith, asset_get-asset_set k id v account.asset)

-- The account of a level, a new one where there is none.
abbrev pub account_in : List ℕ → Level → Account
account_in k l = or_default new_account (found (map_get k l.accounts))

-- A level in which one account has changed.
abbrev pub Moved : List ℕ → Account → Level → Level → Type 0
Moved k x l l' = (j : List ℕ) → account_in j l' ≡ (if same_key j k then x else account_in j l)

put_level : List ℕ → Account → Level → Level
put_level k x l = record l {
  accounts = map_set k (some x) l.accounts;
  token_ids = add_ids (token_ids x) l.token_ids;
}

put_level-Moved : (k : List ℕ) (x : Account) (l : Level) → Moved k x l (put_level k x l)
unfolding put_level
put_level-Moved k x l j = rw (map_get-map_set k j (some x) l.accounts) (by_test (same_key j k))
  where
    by_test :
        (b : Bool)
        → or_default new_account (found (if b then some (some x) else map_get j l.accounts))
          ≡ (if b then x else account_in j l)
    by_test true = refl
    by_test false = refl

put_account_lem :
    (k : List ℕ) (x : Account) (l : Level) (below : SimpleStateManager)
    → put_account k (some x) (push_level l below) ≡ (push_level (put_level k x l) below, ok tt)
unfolding put_account put_level
put_account_lem k x l below = refl

Moved-again :
    (k : List ℕ) (x y : Account) (l : Level) → Moved k y l (put_level k y (put_level k x l))
Moved-again k x y l j =
    rw (put_level-Moved k y (put_level k x l) j, put_level-Moved k x l j) (by_test (same_key j k))
  where
    by_test :
        (b : Bool)
        → (if b then y else (if b then x else account_in j l)) ≡ (if b then y else account_in j l)
    by_test true = refl
    by_test false = refl

-- An account that has lost, and one that has got, the value and the tokens of a message.
abbrev pub IsReduced : Message → Account → Account → Type 0
IsReduced m x x' =
    (x'.balance + m.value ≡ x.balance)
    × ((id : ℕ)
        → token_balance id x' + (if id == m.token_id then m.token_value else 0)
          ≡ token_balance id x)

abbrev pub IsIncreased : Message → Account → Account → Type 0
IsIncreased m x x' =
    (x'.balance ≡ x.balance + m.value)
    × ((id : ℕ)
        → token_balance id x'
          ≡ token_balance id x + (if id == m.token_id then m.token_value else 0))

abbrev pub IsShort : Message → Account → Type 0
IsShort m x = (x.balance < m.value) ⊎ (token_balance m.token_id x < m.token_value)

abbrev pub IsFull : Message → Account → Type 0
IsFull m x =
    (max_integer < x.balance + m.value) ⊎ (max_int64 < token_balance m.token_id x + m.token_value)

-- A call that throws for a reason, or changes one account.
abbrev Settles :
    Managed (Unit {0}) → Type 0 → (Account → Type 0) → List ℕ → Level → SimpleStateManager → Type 0
Settles call Reason Result_of k l below =
    ((l' : Level) × (e : TvmError) × (call (push_level l below) ≡ (push_level l' below, err e))
      × Reason)
    ⊎ ((l' : Level) × (x : Account) × (call (push_level l below) ≡ (push_level l' below, ok tt))
        × Moved k x l l'
        × Result_of x)

balance-set_token : (k v : ℕ) (x : Account) → (set_token k v x).balance ≡ x.balance
balance-set_token k v x = ground arith

reduced : Message → Account → Account
reduced m x = record x { balance = x.balance - m.value }

increased : Message → Account → Account
increased m x = record x { balance = x.balance + m.value }

set_token-IsReduced :
    (m : Message) (x : Account)
    → m.token_id ≢ 0
    → ltb x.balance m.value ≡ false
    → ltb (token_balance m.token_id x) m.token_value ≡ false
    → IsReduced m x
        (set_token m.token_id (token_balance m.token_id x - m.token_value) (reduced m x))
unfolding reduced
set_token-IsReduced m x named enough enough_tokens = (
  rw (balance-set_token m.token_id (token_balance m.token_id x - m.token_value) (reduced m x))
      (ground (arith, enough)),
  λ id.
      rw
        (token_balance-set_token id m.token_id (token_balance m.token_id x - m.token_value)
          (reduced m x) named)
        (ground (arith, enough_tokens)),
)

set_token-IsIncreased :
    (m : Message) (x : Account)
    → m.token_id ≢ 0
    → IsIncreased m x
        (set_token m.token_id (token_balance m.token_id x + m.token_value) (increased m x))
unfolding increased
set_token-IsIncreased m x named = (
  balance-set_token m.token_id (token_balance m.token_id x + m.token_value) (increased m x),
  λ id.
      rw
        (token_balance-set_token id m.token_id (token_balance m.token_id x + m.token_value)
          (increased m x) named)
        (ground arith),
)

pub reduce_sender-Settles :
    (m : Message) (x : Account) (l : Level) (below : SimpleStateManager)
    → (m.token_id ≢ 0) ⊎ (m.token_value ≡ 0)
    → Settles (reduce_sender m x) (IsShort m x) (IsReduced m x) m.caller l below
unfolding reduce_sender reduce_sender_balance reduce_sender_token_balance put_account put_level
    reduced
reduce_sender-Settles m x l below named = elim (Bool-cases (ltb x.balance m.value)) [
  | inl short ↦ inl (l, insufficient_balance, rw short refl, inl (ground (arith, short)))
  | inr enough ↦ elim (Bool-cases (m.token_value == 0)) [
    | inl none_moved ↦ inr (
      put_level m.caller (reduced m x) l,
      reduced m x,
      rw (enough, none_moved) refl,
      put_level-Moved m.caller (reduced m x) l,
      (ground (arith, enough), λ id. ground (arith, none_moved)),
    )
    | inr some_moved ↦ elim (Bool-cases (ltb (token_balance m.token_id x) m.token_value)) [
      | inl short ↦ inl (
        put_level m.caller (reduced m x) l,
        insufficient_token_balance,
        rw (enough, some_moved, short) refl,
        inr (ground (arith, short)),
      )
      | inr enough_tokens ↦
          let y = set_token m.token_id (token_balance m.token_id x - m.token_value) (reduced m x) in
          inr (
            put_level m.caller y (put_level m.caller (reduced m x) l),
            y,
            rw (enough, some_moved, enough_tokens) refl,
            Moved-again m.caller (reduced m x) y l,
            set_token-IsReduced m x (ground (arith, named, some_moved)) enough enough_tokens,
          )
    ]
  ]
]

pub add_to_recipient-Settles :
    (m : Message) (x : Account) (l : Level) (below : SimpleStateManager)
    → (m.token_id ≢ 0) ⊎ (m.token_value ≡ 0)
    → Settles (add_to_recipient m x) (IsFull m x) (IsIncreased m x) m.to l below
unfolding add_to_recipient add_to_balance add_to_token_balance put_account put_level increased
add_to_recipient-Settles m x l below named =
    elim (Bool-cases (ltb max_integer (x.balance + m.value))) [
      | inl full ↦ inl (l, value_overflow, rw full refl, inl (ground (arith, full)))
      | inr room ↦ elim (Bool-cases (m.token_value == 0)) [
        | inl none_moved ↦ inr (
          put_level m.to (increased m x) l,
          increased m x,
          rw (room, none_moved) refl,
          put_level-Moved m.to (increased m x) l,
          (refl, λ id. ground (arith, none_moved)),
        )
        | inr some_moved ↦
            elim (Bool-cases (ltb max_int64 (token_balance m.token_id x + m.token_value))) [
              | inl full ↦ inl (
                put_level m.to (increased m x) l,
                value_overflow,
                rw (room, some_moved, full) refl,
                inr (ground (arith, full)),
              )
              | inr room_for_tokens ↦
                  let y =
                    set_token m.token_id (token_balance m.token_id x + m.token_value)
                      (increased m x) in
                  inr (
                    put_level m.to y (put_level m.to (increased m x) l),
                    y,
                    rw (room, some_moved, room_for_tokens) refl,
                    Moved-again m.to (increased m x) y l,
                    set_token-IsIncreased m x (ground (arith, named, some_moved)),
                  )
            ]
      ]
    ]
