-- ===== src/Tvm/Call/Transfer/Balances.antt =====
-- packages/tvm/src/tvm.ts: where the value and the tokens of a message call go.
use tvmjs_monorepo.Prelude.{
  ℕ, ◌+◌, ◌==◌, ◌&&◌, not, ◌≡◌, ◌≢◌, ◌⊎◌, inl, inr, refl, ◌∙◌, ap, Bool, true, false, Bool-cases,
  List, Option, some, none, if◌then◌else◌, Result, ok, err, arith,
}
use tvmjs_monorepo.Prelude.Maps.{map_get, same_key, same_key_sound}
use tvmjs_monorepo.Prelude.Effects.{after, ◌>>=◌, return}
use tvmjs_monorepo.Tvm.Errors.{TvmError}
use tvmjs_monorepo.Util.Account.{Account, new_account, token_balance}
use tvmjs_monorepo.StateManager.Simple.{SimpleStateManager, Managed, found, get_account, or_default}
use tvmjs_monorepo.StateManager.Simple.Levels.{Level, push_level, HasLevel}
use tvmjs_monorepo.Tvm.Call.Transfer.{
  Message, attempt, reduce_sender, add_to_recipient, is_credited, charge_sender, credit_recipient,
  transfer,
}
use tvmjs_monorepo.Tvm.Call.Transfer.Accounts.{
  IsFull, IsIncreased, IsReduced, IsShort, Moved, account_in, add_to_recipient-Settles,
  reduce_sender-Settles,
}

-- The account that a state answers with, a new one where there is none.
abbrev pub account_at : List ℕ → SimpleStateManager → Account
account_at k s = elim (get_account k s).1 [ ok o ↦ or_default new_account o | err e ↦ new_account ]

-- What each account had, with what it gets, is what it has, with what it gives.
abbrev pub IsMoved : Message → SimpleStateManager → SimpleStateManager → Type 0
IsMoved m s t =
    ((k : List ℕ)
      → (account_at k t).balance + (if same_key k m.caller then m.value else 0)
        ≡ (account_at k s).balance + (if same_key k m.to then m.value else 0))
    × ((k : List ℕ) (id : ℕ)
        → token_balance id (account_at k t)
            + (if same_key k m.caller && id == m.token_id then m.token_value else 0)
          ≡ token_balance id (account_at k s)
            + (if same_key k m.to && id == m.token_id then m.token_value else 0))

-- An amount that one account gives and another, or the same, gets.
moved_amount :
    (caller to k : List ℕ) (before at_caller between at_to after : ℕ) (given : ℕ)
    → between ≡ (if same_key k caller then at_caller else before)
    → (same_key k caller ≡ true → at_caller + given ≡ before)
    → after ≡ (if same_key k to then at_to else between)
    → (same_key k to ≡ true → at_to ≡ between + given)
    → after + (if same_key k caller then given else 0)
      ≡ before + (if same_key k to then given else 0)
moved_amount caller to k before at_caller between at_to after given h1 h2 h3 h4 = ground arith

module _ (f : Account → ℕ) where
  of_branch : (b : Bool) (x y : Account) → f (if b then x else y) ≡ (if b then f x else f y)
  of_branch true x y = refl
  of_branch false x y = refl

  measure-Moved :
      (caller to : List ℕ) (given : ℕ) (l l1 l2 : Level) (x' y' : Account)
      → Moved caller x' l l1
      → f x' + given ≡ f (account_in caller l)
      → Moved to y' l1 l2
      → f y' ≡ f (account_in to l1) + given
      → (k : List ℕ)
      → f (account_in k l2) + (if same_key k caller then given else 0)
        ≡ f (account_in k l) + (if same_key k to then given else 0)
  measure-Moved caller to given l l1 l2 x' y' at_caller less at_to more k =
      moved_amount caller to k (f (account_in k l)) (f x') (f (account_in k l1)) (f y')
        (f (account_in k l2)) given
        (ap f (at_caller k) ∙ of_branch (same_key k caller) x' (account_in k l))
        (λ e. rw (same_key_sound k caller e) less)
        (ap f (at_to k) ∙ of_branch (same_key k to) y' (account_in k l1))
        (λ e. rw (same_key_sound k to e) more)

and_branch :
    (b c : Bool) (v : ℕ) → (if b && c then v else 0) ≡ (if b then (if c then v else 0) else 0)
and_branch true c v = refl
and_branch false c v = refl

levels-IsMoved :
    (m : Message) (l l1 l2 : Level) (below : SimpleStateManager) (x' y' : Account)
    → Moved m.caller x' l l1
    → IsReduced m (account_in m.caller l) x'
    → Moved m.to y' l1 l2
    → IsIncreased m (account_in m.to l1) y'
    → IsMoved m (push_level l below) (push_level l2 below)
unfolding get_account
levels-IsMoved m l l1 l2 below x' y' at_caller (less, fewer) at_to (more, added) = (
  measure-Moved (λ x. x.balance) m.caller m.to m.value l l1 l2 x' y' at_caller less at_to more,
  λ k id.
      rw
        (
          and_branch (same_key k m.caller) (id == m.token_id) m.token_value,
          and_branch (same_key k m.to) (id == m.token_id) m.token_value,
        )
        (measure-Moved (token_balance id) m.caller m.to
          (if id == m.token_id then m.token_value else 0) l l1 l2 x' y' at_caller (fewer id) at_to
          (added id) k),
)

-- A recipient that is not credited gets nothing.
not_credited-IsIncreased :
    (m : Message) (o : Option Account)
    → is_credited m o ≡ false
    → IsIncreased m (or_default new_account o) (or_default new_account o)
not_credited-IsIncreased m none h = (ground (arith, h), λ id. ground (arith, h))
not_credited-IsIncreased m (some account) h = cc

same-Moved : (k : List ℕ) (l : Level) → Moved k (account_in k l) l l
same-Moved k l j = elim (Bool-cases (same_key j k)) [
  | inl same ↦ rw same (rw (same_key_sound j k same) refl)
  | inr other ↦ rw other refl
]

attempt_threw :
    (call : Managed (Unit {0})) (earlier : Option TvmError) (s t : SimpleStateManager)
    (e : TvmError)
    → call s ≡ (t, err e)
    → attempt call earlier s ≡ (t, ok (some e))
attempt_threw call earlier s t e h =
    ap
      (λ (p : SimpleStateManager × Result TvmError (Unit {0})).
        elim p.1 as (λ r. SimpleStateManager × Result TvmError (Option TvmError)) [
          | ok done ↦ (p.0, ok earlier)
          | err e ↦ (p.0, ok (some e))
        ])
      h

attempt_returned :
    (call : Managed (Unit {0})) (earlier : Option TvmError) (s t : SimpleStateManager)
    → call s ≡ (t, ok tt)
    → attempt call earlier s ≡ (t, ok earlier)
attempt_returned call earlier s t h =
    ap
      (λ (p : SimpleStateManager × Result TvmError (Unit {0})).
        elim p.1 as (λ r. SimpleStateManager × Result TvmError (Option TvmError)) [
          | ok done ↦ (p.0, ok earlier)
          | err e ↦ (p.0, ok (some e))
        ])
      h

charge_sender_lem :
    (m : Message) (o : Option Account) (s : SimpleStateManager)
    → m.delegatecall ≡ false
    → charge_sender m o s ≡ attempt (reduce_sender m (or_default new_account o)) none s
charge_sender_lem m o s moved =
    ap
      (λ b.
        (if b then return none else attempt (reduce_sender m (or_default new_account o)) none) s)
      moved

credit_recipient_lem :
    (m : Message) (error : Option TvmError) (o : Option Account) (s : SimpleStateManager) (c : Bool)
    → m.delegatecall ≡ false
    → is_credited m o ≡ c
    → credit_recipient m error o s
      ≡ (if c then attempt (add_to_recipient m (or_default new_account o)) error else return error)
          s
credit_recipient_lem m error o s c moved h =
    ap
      (λ b.
        (if not b && is_credited m o
            then attempt (add_to_recipient m (or_default new_account o)) error
            else return error)
          s)
      moved
    ∙ ap
        (λ b.
          (if b
              then attempt (add_to_recipient m (or_default new_account o)) error
              else return error)
            s)
        h

transfer_steps :
    (m : Message) (l l1 : Level) (below : SimpleStateManager) (error : Option TvmError)
    (r : SimpleStateManager × Result TvmError (Option TvmError))
    → charge_sender m (found (map_get m.caller l.accounts)) (push_level l below)
      ≡ (push_level l1 below, ok error)
    → credit_recipient m error (found (map_get m.to l1.accounts)) (push_level l1 below) ≡ r
    → transfer m (push_level l below) ≡ r
unfolding transfer get_account
transfer_steps m l l1 below error r charged credited =
    ap
      (λ (p : SimpleStateManager × Result TvmError (Option TvmError)).
        after (λ error. get_account m.to >>= credit_recipient m error) p.0 p.1)
      charged
    ∙ credited

credit_recipient-cases :
    (m : Message) (error : Option TvmError) (l : Level) (below : SimpleStateManager)
    → m.delegatecall ≡ false
    → (m.token_id ≢ 0) ⊎ (m.token_value ≡ 0)
    → ((l' : Level) × (e : TvmError) × (credit_recipient m error
            (found (map_get m.to l.accounts))
            (push_level l below)
          ≡ (push_level l' below, ok (some e)))
        × IsFull m (account_in m.to l))
      ⊎ ((l' : Level) × (y : Account) × (credit_recipient m error
              (found (map_get m.to l.accounts))
              (push_level l below)
            ≡ (push_level l' below, ok error))
          × Moved m.to y l l'
          × IsIncreased m (account_in m.to l) y)
credit_recipient-cases m error l below moved named = elim (Bool-cases (is_credited m o)) [
  | inl credited ↦
      let same = credit_recipient_lem m error o (push_level l below) true moved credited in
      elim (add_to_recipient-Settles m (account_in m.to l) l below named) [
        | inl (l', e, thrown, full) ↦ inl (
          l',
          e,
          same ∙ attempt_threw call error (push_level l below) (push_level l' below) e thrown,
          full,
        )
        | inr (l', y, done, at_to, more) ↦ inr (
          l',
          y,
          same ∙ attempt_returned call error (push_level l below) (push_level l' below) done,
          at_to,
          more,
        )
      ]
  | inr passed ↦ inr (
    l,
    account_in m.to l,
    credit_recipient_lem m error o (push_level l below) false moved passed,
    same-Moved m.to l,
    not_credited-IsIncreased m o passed,
  )
]
  where
    o : Option Account
    o = found (map_get m.to l.accounts)

    call : Managed (Unit {0})
    call = add_to_recipient m (account_in m.to l)

-- The recipient has no more after the caller has been charged.
IsFull-earlier :
    (m : Message) (l l1 : Level) (x' : Account)
    → Moved m.caller x' l l1
    → IsReduced m (account_in m.caller l) x'
    → IsFull m (account_in m.to l1)
    → IsFull m (account_in m.to l)
IsFull-earlier m l l1 x' at_caller (less, fewer) full = elim (Bool-cases (same_key m.to m.caller)) [
  | inl same ↦
      let here : (account_in m.to l1 ≡ x') = at_caller m.to ∙ rw same refl in
      let there : (account_in m.to l ≡ account_in m.caller l) =
        rw (same_key_sound m.to m.caller same) refl in
      rw there (elim (rw here at full) [
        | inl big ↦ inl (omega (arith, big, less))
        | inr big ↦ inr (omega (arith, big, fewer m.token_id))
      ])
  | inr other ↦
      let here : (account_in m.to l1 ≡ account_in m.to l) = at_caller m.to ∙ rw other refl in
      rw here at full
]

-- For a message that is no delegate call and moves no tokens of the id 0, in a state with a level:
-- the transfer throws nothing. Either it results in an error, and then the caller had less than
-- the value or than the tokens, or the recipient would have had more than the maximum; or it
-- results in none, and then the caller has less by the value and the tokens, the recipient has
-- more by them, also where both are one account, and every other balance of every account is that
-- of before.
pub transfer_lem :
    (m : Message) (s : SimpleStateManager)
    → HasLevel s
    → m.delegatecall ≡ false
    → (m.token_id ≢ 0) ⊎ (m.token_value ≡ 0)
    → ((t : SimpleStateManager) × (e : TvmError) × (transfer m s ≡ (t, ok (some e)))
        × (IsShort m (account_at m.caller s) ⊎ IsFull m (account_at m.to s)))
      ⊎ ((t : SimpleStateManager) × (transfer m s ≡ (t, ok none)) × IsMoved m s t)
unfolding get_account
transfer_lem m s (l, below, e) moved named =
    rw e (elim (reduce_sender-Settles m (account_in m.caller l) l below named) [
      | inl (l1, e1, thrown, short) ↦
          let charged =
            same ∙ attempt_threw call none (push_level l below) (push_level l1 below) e1 thrown in
          elim (credit_recipient-cases m (some e1) l1 below moved named) [
            | inl (l2, e2, credited, full) ↦ inl (
              push_level l2 below,
              e2,
              transfer_steps m l l1 below (some e1) _ charged credited,
              inl short,
            )
            | inr (l2, y, credited, at_to, more) ↦ inl (
              push_level l2 below,
              e1,
              transfer_steps m l l1 below (some e1) _ charged credited,
              inl short,
            )
          ]
      | inr (l1, x, returned, at_caller, less) ↦
          let charged =
            same ∙ attempt_returned call none (push_level l below) (push_level l1 below) returned in
          elim (credit_recipient-cases m none l1 below moved named) [
            | inl (l2, e2, credited, full) ↦ inl (
              push_level l2 below,
              e2,
              transfer_steps m l l1 below none _ charged credited,
              inr (IsFull-earlier m l l1 x at_caller less full),
            )
            | inr (l2, y, credited, at_to, more) ↦ inr (
              push_level l2 below,
              transfer_steps m l l1 below none _ charged credited,
              levels-IsMoved m l l1 l2 below x y at_caller less at_to more,
            )
          ]
    ])
  where
    call : Managed (Unit {0})
    call = reduce_sender m (account_in m.caller l)

    same :
        charge_sender m (found (map_get m.caller l.accounts)) (push_level l below)
        ≡ attempt call none (push_level l below)
    same = charge_sender_lem m (found (map_get m.caller l.accounts)) (push_level l below) moved
