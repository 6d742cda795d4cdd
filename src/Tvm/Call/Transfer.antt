-- ===== src/Tvm/Call/Transfer.antt =====
-- packages/tvm/src/tvm.ts: what `_executeCall` moves between the caller and the recipient of a message, its value
-- and its tokens, over the state manager of packages/statemanager/src/simpleStateManager.ts. The journal, which
-- notes the addresses that it passes on, and the block level access list are left out.
pub mod Accounts
pub mod Balances
use tvmjs_monorepo.Prelude.{
  ℕ, ◌+◌, ◌-◌, ◌^◌, ◌==◌, ◌||◌, ◌&&◌, not, ltb, Bool, true, false, List, Option, some, none,
  if◌then◌else◌, Result, ok, err,
}
use tvmjs_monorepo.Prelude.Effects.{◌>>=◌, ◌>>◌, return, throw_when}
use tvmjs_monorepo.Tvm.Errors.{
  TvmError, insufficient_balance, insufficient_token_balance, value_overflow,
}
use tvmjs_monorepo.Tvm.Word.{max_integer}
use tvmjs_monorepo.Util.Account.{Account, new_account, asset_set, token_balance}
use tvmjs_monorepo.StateManager.Simple.{
  SimpleStateManager, Managed, get_account, put_account, or_default,
}

pub record Message : Type 0 where
  pub caller : List ℕ
  pub to : List ℕ
  pub value : ℕ
  pub token_id : ℕ
  pub token_value : ℕ
  pub delegatecall : Bool
  -- `message.code instanceof Uint8Array && message.code.length !== 0`
  pub has_code : Bool

abbrev pub max_int64 : ℕ
max_int64 = 2 ^ 63 - 1

-- The account with another balance of a token; the token 0 keeps its balance.
abbrev pub set_token : ℕ → ℕ → Account → Account
set_token token_id balance account =
    if token_id == 0
    then account
    else record account { asset = asset_set token_id balance account.asset }

-- Each of these returns the account as it has changed it. The source subtracts before it looks whether the
-- balance is negative, so that where it throws, a stored object may keep a negative balance until the frame is
-- reverted; the account as a value stays.
unfoldable pub reduce_sender_balance : Message → Account → Managed Account
reduce_sender_balance m account = do
  throw_when (ltb account.balance m.value) insufficient_balance
  let reduced = record account { balance = account.balance - m.value }
  put_account m.caller (some reduced)
  return reduced

unfoldable pub reduce_sender_token_balance : Message → Account → Managed (Unit {0})
reduce_sender_token_balance m account = if m.token_value == 0 then return tt else (do
  throw_when (ltb (token_balance m.token_id account) m.token_value) insufficient_token_balance
  put_account m.caller
      (some (set_token m.token_id (token_balance m.token_id account - m.token_value) account)))

unfoldable pub add_to_balance : Message → Account → Managed Account
add_to_balance m account = do
  throw_when (ltb max_integer (account.balance + m.value)) value_overflow
  let increased = record account { balance = account.balance + m.value }
  put_account m.to (some increased)
  return increased

unfoldable pub add_to_token_balance : Message → Account → Managed (Unit {0})
add_to_token_balance m account = if m.token_value == 0 then return tt else (do
  throw_when (ltb max_int64 (token_balance m.token_id account + m.token_value)) value_overflow
  put_account m.to
      (some (set_token m.token_id (token_balance m.token_id account + m.token_value) account)))

-- `try { … } catch (e) { errorMessage = e }`
abbrev pub attempt : Managed (Unit {0}) → Option TvmError → Managed (Option TvmError)
attempt call earlier s = elim (call s).1 [
  | ok done ↦ ((call s).0, ok earlier)
  | err e ↦ ((call s).0, ok (some e))
]

unfoldable pub reduce_sender : Message → Account → Managed (Unit {0})
unfolding reduce_sender_balance reduce_sender_token_balance
reduce_sender m account = reduce_sender_balance m account >>= reduce_sender_token_balance m

unfoldable pub add_to_recipient : Message → Account → Managed (Unit {0})
unfolding add_to_balance add_to_token_balance
add_to_recipient m account = add_to_balance m account >>= add_to_token_balance m

-- A missing recipient is created where it gets something or has code to run.
abbrev pub is_credited : Message → Option Account → Bool
is_credited m none = not (m.value == 0) || (not (m.token_value == 0) || m.has_code)
is_credited m (some account) = true

abbrev pub charge_sender : Message → Option Account → Managed (Option TvmError)
charge_sender m account =
    if m.delegatecall
    then return none
    else attempt (reduce_sender m (or_default new_account account)) none

abbrev pub credit_recipient : Message → Option TvmError → Option Account → Managed (Option TvmError)
credit_recipient m error account =
    if not m.delegatecall && is_credited m account
    then attempt (add_to_recipient m (or_default new_account account)) error
    else return error

-- The error of the later call replaces that of the earlier.
unfoldable pub transfer : Message → Managed (Option TvmError)
unfolding reduce_sender add_to_recipient
transfer m = do
  sender ← get_account m.caller
  error ← charge_sender m sender
  recipient ← get_account m.to
  credit_recipient m error recipient
