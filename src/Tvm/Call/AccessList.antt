-- ===== src/Tvm/Call/AccessList.antt =====
-- packages/util/src/bal.ts: the checkpoints of the block level access list, as a layer of a message call.
-- Addresses, slots and values are bytes. The copies that `checkpoint` makes are values.
use tvmjs_monorepo.Prelude.{
  ℕ, ◌≡◌, refl, ap, ◌||◌, Bool, true, false, List, [], ◌∷◌, map, Option, some, none, if◌then◌else◌,
}
use tvmjs_monorepo.Prelude.Maps.{Map, map_get, map_set, same_key}
use tvmjs_monorepo.Prelude.Effects.{update}
use tvmjs_monorepo.Tvm.Call.Protocol.{Methods}
use tvmjs_monorepo.Tvm.Call.Protocol.Layers.{IsLayer}
use tvmjs_monorepo.Tvm.Call.Protocol.Ends.{IsReliable}

pub record Access : Type 0 where
  pub nonce_changes : List (ℕ × ℕ)
  pub balance_changes : List (ℕ × ℕ)
  pub code_changes : List (ℕ × List ℕ)
  pub storage_changes : Map (List (ℕ × List ℕ))
  pub storage_reads : List (List ℕ)

-- What a checkpoint saves.
pub record Snapshot : Type 0 where
  pub accesses : Map Access
  pub block_access_index : ℕ
  pub original_balances : Map ℕ
  pub original_codes_at_index : Map (List ℕ)

-- The checkpoints have the newest first.
pub record BlockLevelAccessList : Type 0 where
  pub now : Snapshot
  pub checkpoints : List Snapshot

abbrev pub checkpoint : BlockLevelAccessList → BlockLevelAccessList
checkpoint b = record b { checkpoints = b.now ∷ b.checkpoints }

abbrev pub drop_newest : List Snapshot → List Snapshot
drop_newest [] = []
drop_newest (s ∷ older) = older

abbrev pub commit : BlockLevelAccessList → BlockLevelAccessList
commit b = record b { checkpoints = drop_newest b.checkpoints }

abbrev has_read : List ℕ → List (List ℕ) → Bool
has_read slot [] = false
has_read slot (r ∷ reads) = same_key slot r || has_read slot reads

-- `Set.add`
abbrev add_read : List ℕ → List (List ℕ) → List (List ℕ)
add_read slot reads = if has_read slot reads then reads else slot ∷ reads

abbrev pub add_reads : List (List ℕ) → List (List ℕ) → List (List ℕ)
add_reads [] reads = reads
add_reads (slot ∷ slots) reads = add_reads slots (add_read slot reads)

abbrev slots_of : Access → List (List ℕ)
slots_of a = map (λ entry. entry.0) a.storage_changes

-- The written slots become reads where the target has not written them.
abbrev pub add_reverted : List (List ℕ) → Access → Access
add_reverted [] target = target
add_reverted (slot ∷ slots) target =
    add_reverted slots (elim (map_get slot target.storage_changes) [
      | none ↦ record target { storage_reads = add_read slot target.storage_reads }
      | some changes ↦ target
    ])

abbrev only_reads : List (List ℕ) → Access
only_reads reads = record {
  nonce_changes = [];
  balance_changes = [];
  code_changes = [];
  storage_changes = [];
  storage_reads = reads;
}

-- What a reverted account leaves in the list.
abbrev pub preserved : Access → Option Access → Access
preserved access none = only_reads (add_reads (slots_of access) access.storage_reads)
preserved access (some target) =
    add_reverted (slots_of access)
      (record target { storage_reads = add_reads access.storage_reads target.storage_reads })

abbrev pub preserve_all : Map Access → Map Access → Map Access
preserve_all [] accesses = accesses
preserve_all ((address, access) ∷ current) accesses =
    preserve_all current (map_set address (preserved access (map_get address accesses)) accesses)

-- Where reads are preserved the original balances and codes stay.
abbrev pub revert_to : Bool → BlockLevelAccessList → List Snapshot → BlockLevelAccessList
revert_to preserve_reads b [] = b
revert_to false b (s ∷ older) = record { now = s; checkpoints = older }
revert_to true b (s ∷ older) = record {
  now = record b.now {
    accesses = preserve_all b.now.accesses s.accesses;
    block_access_index = s.block_access_index;
  };
  checkpoints = older;
}

abbrev pub revert : Bool → BlockLevelAccessList → BlockLevelAccessList
revert preserve_reads b = revert_to preserve_reads b b.checkpoints

abbrev pub access_list_methods : Methods BlockLevelAccessList ℕ
access_list_methods = record {
  checkpoint = update checkpoint;
  commit = update commit;
  revert = λ preserve. update (revert preserve);
}

abbrev pub view_of : BlockLevelAccessList → Snapshot × List Snapshot
view_of b = (b.now, b.checkpoints)

pub revert_to-saved :
    (preserve : Bool) (b : BlockLevelAccessList) (c : Snapshot) (k cs : List Snapshot)
    → cs ≡ c ∷ k
    → (revert_to preserve b cs).checkpoints ≡ k
revert_to-saved preserve b c k [] e = cc
revert_to-saved true b c k (s ∷ older) e = ap drop_newest e
revert_to-saved false b c k (s ∷ older) e = ap drop_newest e

pub revert_to-exact :
    (b : BlockLevelAccessList) (c : Snapshot) (k cs : List Snapshot)
    → cs ≡ c ∷ k
    → view_of (revert_to false b cs) ≡ (c, k)
revert_to-exact b c k [] e = cc
revert_to-exact b c k (s ∷ older) e = cc e

-- The access list is a layer that rejects nothing.
abbrev pub access_list-IsLayer : IsLayer access_list_methods Snapshot
access_list-IsLayer = record {
  view = λ b. (b.now, b.checkpoints);
  checkpoint_ok = λ b h. refl;
  checkpoint_err = λ b e h. cc;
  commit_ok = λ b c k e h. ap (λ cs. (b.now, drop_newest cs)) e;
  commit_err = λ b e c d k held h. cc;
  revert_saved = λ preserve b c k e h. revert_to-saved preserve b c k b.checkpoints e;
  revert_exact = λ b c k e h. revert_to-exact b c k b.checkpoints e;
  revert_err = λ preserve b e c d k held h. cc;
}

pub access_list-IsReliable : IsReliable access_list_methods access_list-IsLayer
access_list-IsReliable b c k e = refl
