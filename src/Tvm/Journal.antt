-- ===== src/Tvm/Journal.antt =====
-- packages/tvm/src/journal.ts: what was touched, written and warmed in a transaction, and its differences
-- by height. Hexadecimal strings are the bytes that they stand for. The array of differences always
-- has an entry: the newest stands by itself here, and the others follow it, the newer first. A call of
-- the state manager is what it settles to. The optional reports, of accessed addresses and of
-- preimages, are left out.
pub mod KeySets
pub mod Rollback
use tvmjs_monorepo.Prelude.{
  ℕ, Bool, true, false, List, [], ◌∷◌, ◌++◌, replicate, if◌then◌else◌, ◌||◌, Option, some, none,
  Result, ok, err,
}
use tvmjs_monorepo.Prelude.Int.{ℤ, pos, negsuc, ◌+ℤ◌, ◌-ℤ◌, ltb_ℤ}
use tvmjs_monorepo.Prelude.Maps.{Map, map_get, map_set, same_key}

-- `Set` of strings.
abbrev pub Keys : Type 0
Keys = List (List ℕ)

unfoldable pub has_key : List ℕ → Keys → Bool
has_key k [] = false
has_key k (k' ∷ keys) = same_key k k' || has_key k keys

unfoldable pub add_key : List ℕ → Keys → Keys
unfolding has_key
add_key k keys = if has_key k keys then keys else k ∷ keys

unfoldable pub delete_key : List ℕ → Keys → Keys
delete_key k [] = []
delete_key k (k' ∷ keys) = let rest = delete_key k keys in if same_key k' k then rest else k' ∷ rest

-- `JournalDiffItem`
pub record Diff : Type 0 where
  pub addresses : Keys
  pub slots : Map Keys
  pub touched_addresses : Keys
  pub writes : Keys

abbrev pub no_diff : Diff
no_diff = record { addresses = []; slots = []; touched_addresses = []; writes = [] }

pub record Entry : Type 0 where
  pub at_height : ℤ
  pub diff : Diff

abbrev pub entry : ℤ → Diff → Entry
entry h d = record { at_height = h; diff = d }

pub record Journal : Type 0 where
  pub warm : Map Keys
  pub always_warm : Map Keys
  pub touched : Keys
  pub newest : Entry
  pub older : List Entry
  pub height : ℤ
  pub storage_writes : Keys

-- `cleanJournal`, as the constructor calls it.
unfoldable pub clean_journal : Journal
clean_journal = record {
  warm = [];
  always_warm = [];
  touched = [];
  newest = entry (pos 0) no_diff;
  older = [];
  height = pos 0;
  storage_writes = [];
}

abbrev pub with_diff : Diff → Journal → Entry
with_diff d s = entry s.newest.at_height d

-- `touchAccount`
unfoldable pub touch_account : List ℕ → Journal → Journal
unfolding has_key add_key
touch_account address s = if has_key address s.touched then s else record s {
  touched = add_key address s.touched;
  newest =
      with_diff
        (record s.newest.diff {
          touched_addresses = add_key address s.newest.diff.touched_addresses;
        })
        s;
}

-- `hasStorageWrite` and `recordStorageWrite`; the key joins the address and the slot.
unfoldable pub has_storage_write : List ℕ → Journal → Bool
unfolding has_key
has_storage_write key s = has_key key s.storage_writes

unfoldable pub record_storage_write : List ℕ → Journal → Journal
unfolding has_key add_key
record_storage_write key s = if has_key key s.storage_writes then s else record s {
  storage_writes = add_key key s.storage_writes;
  newest = with_diff (record s.newest.diff { writes = add_key key s.newest.diff.writes }) s;
}

abbrev pub has_map : List ℕ → Map Keys → Bool
has_map address m = elim (map_get address m) [ none ↦ false | some slots ↦ true ]

abbrev pub slots_of : List ℕ → Map Keys → Keys
slots_of address m = elim (map_get address m) [ none ↦ [] | some slots ↦ slots ]

-- `isWarmedAddress` and `addWarmedAddress`
unfoldable pub is_warmed_address : List ℕ → Journal → Bool
is_warmed_address address s = has_map address s.warm || has_map address s.always_warm

unfoldable pub add_warmed_address : List ℕ → Journal → Journal
unfolding add_key
add_warmed_address address s = if has_map address s.warm then s else record s {
  warm = map_set address [] s.warm;
  newest =
      with_diff (record s.newest.diff { addresses = add_key address s.newest.diff.addresses }) s;
}

-- `isWarmedStorage` and `addWarmedStorage`
unfoldable pub is_warmed_storage : List ℕ → List ℕ → Journal → Bool
unfolding has_key
is_warmed_storage address slot s =
    has_key slot (slots_of address s.warm) || has_key slot (slots_of address s.always_warm)

unfoldable pub add_warmed_storage : List ℕ → List ℕ → Journal → Journal
unfolding has_key add_key add_warmed_address
add_warmed_storage address slot s =
    let warmed = add_warmed_address address s in
    let slots = slots_of address warmed.warm in
    if has_key slot slots then warmed else record warmed {
      warm = map_set address (add_key slot slots) warmed.warm;
      newest =
          with_diff
            (record warmed.newest.diff {
              slots =
                  map_set address (add_key slot (slots_of address warmed.newest.diff.slots))
                    warmed.newest.diff.slots;
            })
            warmed;
    }

-- `addAlwaysWarmAddress` and `addAlwaysWarmSlot`
unfoldable pub add_always_warm_address : List ℕ → Journal → Journal
add_always_warm_address address s =
    if has_map address s.always_warm
    then s
    else record s { always_warm = map_set address [] s.always_warm }

unfoldable pub add_always_warm_slot : List ℕ → List ℕ → Journal → Journal
unfolding add_key add_always_warm_address
add_always_warm_slot address slot s =
    let warmed = add_always_warm_address address s in
    record warmed {
      always_warm =
          map_set address (add_key slot (slots_of address warmed.always_warm)) warmed.always_warm;
    }

-- `clearStorageWrites`
unfoldable pub clear_entries : List Entry → List Entry
clear_entries [] = []
clear_entries (e ∷ older) = entry e.at_height (record e.diff { writes = [] }) ∷ clear_entries older

unfoldable pub clear_storage_writes : Journal → Journal
unfolding clear_entries
clear_storage_writes s = record s {
  storage_writes = [];
  newest = with_diff (record s.newest.diff { writes = [] }) s;
  older = clear_entries s.older;
}

-- `checkpoint` pushes, and what was pushed is popped where the state manager rejects.
abbrev pub opened : Journal → Journal
opened s = record s {
  height = s.height +ℤ pos 1;
  newest = entry (s.height +ℤ pos 1) no_diff;
  older = s.newest ∷ s.older;
}

abbrev pub popped : Entry → List Entry → Journal → Journal
popped newest older s = record s { newest = newest; older = older; height = s.height -ℤ pos 1 }

module _ {Rejection : Type 0} where
  unfoldable pub checkpoint :
      Result Rejection (Unit {0}) → Journal → Journal × Result Rejection (Unit {0})
  checkpoint (err rejection) s = (popped s.newest s.older (opened s), err rejection)
  checkpoint (ok done) s = (opened s, ok tt)

  -- `commit`: nothing changes where the state manager rejects.
  unfoldable pub commit :
      Result Rejection (Unit {0}) → Journal → Journal × Result Rejection (Unit {0})
  commit (err rejection) s = (s, err rejection)
  commit (ok done) s = (
    record s {
      height = s.height -ℤ pos 1;
      newest = entry (s.height -ℤ pos 1) no_diff;
      older = s.newest ∷ s.older;
    },
    ok tt,
  )

-- `RIPEMD160_ADDRESS_STRING`
abbrev pub ripemd160_address : List ℕ
ripemd160_address = replicate 19 0 ++ 3 ∷ []

unfoldable pub delete_all : Keys → Keys → Keys
unfolding delete_key
delete_all [] keys = keys
delete_all (k ∷ ks) keys = delete_all ks (delete_key k keys)

-- The loop of `revert` over the touched addresses.
unfoldable pub untouch : Keys → Keys → Keys
unfolding delete_key
untouch [] touched = touched
untouch (a ∷ addresses) touched =
    untouch addresses (if same_key a ripemd160_address then touched else delete_key a touched)

unfoldable pub map_delete : List ℕ → Map Keys → Map Keys
map_delete k [] = []
map_delete k ((k', v) ∷ m) =
    let rest = map_delete k m in if same_key k' k then rest else (k', v) ∷ rest

unfoldable pub cool_addresses : Keys → Map Keys → Map Keys
unfolding map_delete
cool_addresses [] warm = warm
cool_addresses (a ∷ addresses) warm = cool_addresses addresses (map_delete a warm)

unfoldable pub cool_slots : Map Keys → Map Keys → Map Keys
unfolding delete_all
cool_slots [] warm = warm
cool_slots ((a, slots) ∷ rest) warm =
    cool_slots rest
      (if has_map a warm then map_set a (delete_all slots (slots_of a warm)) warm else warm)

-- The loop of `revert` for one difference.
unfoldable pub undo_diff : Diff → Journal → Journal
unfolding delete_all untouch cool_addresses cool_slots
undo_diff d s = record s {
  storage_writes = delete_all d.writes s.storage_writes;
  warm = cool_slots d.slots (cool_addresses d.addresses s.warm);
  touched = untouch d.touched_addresses s.touched;
}

-- The loop of `revert` over the differences, and the cut behind the one where it ends, which stays: the
-- first of a lower height, or the last.
unfoldable pub undo_entries : Entry → List Entry → Journal → Journal
unfolding undo_diff
undo_entries e [] s = record (if ltb_ℤ e.at_height s.height then s else undo_diff e.diff s) {
  newest = e;
  older = [];
}
undo_entries e (e' ∷ older) s =
    let later = undo_entries e' older (undo_diff e.diff s) in
    if ltb_ℤ e.at_height s.height then record s { newest = e; older = e' ∷ older } else later

-- `revert` changes nothing where the state manager rejects.
module _ {Rejection : Type 0} where
  unfoldable pub revert :
      Result Rejection (Unit {0}) → Journal → Journal × Result Rejection (Unit {0})
  unfolding undo_entries
  revert (err rejection) s = (s, err rejection)
  revert (ok done) s =
      let undone = undo_entries s.newest s.older s in
      (record undone { height = undone.height -ℤ pos 1 }, ok tt)
