-- ===== src/StateManager/Simple/Objects/Changes.antt =====
-- packages/statemanager/src/simpleStateManager.ts: changes of accounts in place touch the newest level only.
use tvmjs_monorepo.Prelude.{
  ℕ, ◌==◌, ◌≤◌, ◌≡◌, refl, Bool-cases, inl, inr, List, ◌∷◌, Option, some, none, arith, false,
}
use tvmjs_monorepo.Prelude.Maps.{Map, map_get, map_set}
use tvmjs_monorepo.Util.Account.{Account}
use tvmjs_monorepo.StateManager.Simple.{found}
use tvmjs_monorepo.StateManager.Simple.Objects.{
  Heap, Objects, allocate, checkpoint, commit, revert, get_account, put_account, set_fields,
  set_token_balance,
}
use tvmjs_monorepo.StateManager.Simple.Objects.Isolation.{
  AllObjects, IsFrom, AllObjects-map, OfObject, map_set-AllObjects, found-OfObject, Extends,
  Extends-refl, Extends-trans, IsFrom-Extends, allocate-Extends, allocate-IsFrom,
}

-- What the code does between checkpoints: a change in place of the account at an address, and the put of a new
-- account, of the account at another address, or of none.
pub data Change : Type 0 where
  fields_change : List ℕ → ℕ → ℕ → List ℕ → List ℕ → Change
  token_change : List ℕ → ℕ → ℕ → Change
  put_new_change : List ℕ → Account → Change
  put_same_change : List ℕ → List ℕ → Change
  delete_change : List ℕ → Change

abbrev on_found : (ℕ → Heap → Heap) → Option ℕ → Objects → Objects
on_found f none s = s
on_found f (some r) s = record s { heap = f r s.heap }

unfoldable pub run_change : Change → Objects → Objects
unfolding get_account put_account
run_change (fields_change a nonce balance storage_root code_hash) s =
    on_found (λ r. set_fields r nonce balance storage_root code_hash) (get_account a s) s
run_change (token_change a id balance) s =
    on_found (λ r. set_token_balance r id balance) (get_account a s) s
run_change (put_new_change a account) s =
    put_account a (some s.heap.next) (record s { heap = allocate account s.heap })
run_change (put_same_change a other) s = put_account other (get_account a s) s
run_change (delete_change a) s = put_account a none s

pub data Phase : Objects → Objects → Type 0 where
  idle : {s : Objects} → Phase s s
  changed : {s t : Objects} (c : Change) → Phase (run_change c s) t → Phase s t
  committed : {s t u : Objects} → Phase (checkpoint s) t → Phase (commit t) u → Phase s u
  reverted : {s t u : Objects} → Phase (checkpoint s) t → Phase (revert t) u → Phase s u

abbrev pub objects : Heap → Map (Option ℕ) → List (Map (Option ℕ)) → Objects
objects h m below = record { heap = h; account_stack = m ∷ below }

-- The newest level has its objects from a bound on, below which the heap stays.
abbrev pub Leads : ℕ → Heap → List (Map (Option ℕ)) → Objects → Type 0
Leads b h below t =
    (h' : Heap) × (m' : Map (Option ℕ)) × (t ≡ objects h' m' below)
    × AllObjects (IsFrom b h') m'
    × Extends b h h'

fields-Leads :
    (b r nonce balance : ℕ) (storage_root code_hash : List ℕ) (h : Heap) (m : Map (Option ℕ))
    (below : List (Map (Option ℕ)))
    → IsFrom b h r
    → AllObjects (IsFrom b h) m
    → Leads b h below (objects (set_fields r nonce balance storage_root code_hash h) m below)
fields-Leads b r nonce balance storage_root code_hash h m below (low, high, low', high') all = (
  set_fields r nonce balance storage_root code_hash h,
  m,
  refl,
  AllObjects-map (IsFrom b h) (IsFrom b (set_fields r nonce balance storage_root code_hash h)) m
      (λ r' from. elim (Bool-cases (r' == r)) [
        | inl same ↦
            let here : (r' ≡ r) = ground (arith, same) in
            rw same (omega (arith, low, here), omega (arith, high, here), low', high')
        | inr other ↦ rw other from
      ])
      all,
  (
    omega arith,
    λ r' p. let other : ((r' == r) ≡ false) = ground (arith, low, p) in rw other (refl, refl),
  ),
)

token-Leads :
    (b r id balance : ℕ) (h : Heap) (m : Map (Option ℕ)) (below : List (Map (Option ℕ)))
    → IsFrom b h r
    → AllObjects (IsFrom b h) m
    → Leads b h below (objects (set_token_balance r id balance h) m below)
token-Leads b r id balance h m below (low, high, low', high') all = (
  set_token_balance r id balance h,
  m,
  refl,
  all,
  (
    omega arith,
    λ r' p.
        let other : ((r' == (h.accounts r).asset) ≡ false) = ground (arith, low', p) in
        rw other (refl, refl),
  ),
)

found-Leads :
    (b : ℕ) (f : ℕ → Heap → Heap) (o : Option ℕ) (h : Heap) (m : Map (Option ℕ))
    (below : List (Map (Option ℕ)))
    → OfObject (IsFrom b h) o
    → AllObjects (IsFrom b h) m
    → ((r : ℕ) → IsFrom b h r → Leads b h below (objects (f r h) m below))
    → Leads b h below (on_found f o (objects h m below))
found-Leads b f none h m below p all step = (h, m, refl, all, Extends-refl b h)
found-Leads b f (some r) h m below p all step = step r p

pub run_change-Leads :
    (c : Change) (b : ℕ) (h : Heap) (m : Map (Option ℕ)) (below : List (Map (Option ℕ)))
    → b ≤ h.next
    → AllObjects (IsFrom b h) m
    → Leads b h below (run_change c (objects h m below))
unfolding run_change get_account put_account
run_change-Leads (fields_change a nonce balance storage_root code_hash) b h m below le all =
    found-Leads b (λ r. set_fields r nonce balance storage_root code_hash) (found (map_get a m)) h m
      below (found-OfObject (IsFrom b h) a m all) all
      (λ r p. fields-Leads b r nonce balance storage_root code_hash h m below p all)
run_change-Leads (token_change a id balance) b h m below le all =
    found-Leads b (λ r. set_token_balance r id balance) (found (map_get a m)) h m below
      (found-OfObject (IsFrom b h) a m all) all (λ r p. token-Leads b r id balance h m below p all)
run_change-Leads (put_new_change a account) b h m below le all = (
  allocate account h,
  map_set a (some h.next) m,
  refl,
  map_set-AllObjects (IsFrom b (allocate account h)) a (some h.next) m
      (allocate-IsFrom b account h le)
      (AllObjects-map (IsFrom b h) (IsFrom b (allocate account h)) m
        (λ r p.
          IsFrom-Extends b h.next h (allocate account h) r (omega arith)
            (allocate-Extends account h) p)
        all),
  Extends-trans b h.next h h (allocate account h) le (Extends-refl b h)
      (allocate-Extends account h),
)
run_change-Leads (put_same_change a other) b h m below le all = (
  h,
  map_set other (found (map_get a m)) m,
  refl,
  map_set-AllObjects (IsFrom b h) other (found (map_get a m)) m
      (found-OfObject (IsFrom b h) a m all) all,
  Extends-refl b h,
)
run_change-Leads (delete_change a) b h m below le all =
    (h, map_set a none m, refl, map_set-AllObjects (IsFrom b h) a none m tt all, Extends-refl b h)
