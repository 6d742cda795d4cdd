-- ===== src/StateManager/Cache/Maps.antt =====
-- packages/statemanager/src/cache/cache.ts: the entries of every checkpoint are of distinct keys.
use tvmjs_monorepo.Prelude.{
  ℕ, ◌≡◌, refl, Bool, false, List, [], ◌∷◌, Option, some, none, Bool-cases, inl, inr, drop, arith,
}
use tvmjs_monorepo.Prelude.Maps.{
  Map, map_get, map_set, same_key, same_key_sound, same_key_refl, map_get-map_set,
}
use tvmjs_monorepo.Tvm.Journal.{has_key}
use tvmjs_monorepo.StateManager.Cache.{
  Cache, set_unless, set_once, note_first, same_bool, set_dirty, checkpoint, merge_into, commit,
  revert,
}
use tvmjs_monorepo.StateManager.Cache.Checkpoints.{
  IsMap, AreMaps, below, levels_of, levels-commit, levels-revert,
}
use tvmjs_monorepo.StateManager.Cache.Levels.{update, is_dirty, levels, levels-set_dirty}

same_key-differs : (k k' : List ℕ) → same_key k k' ≡ false → same_key k' k ≡ false
same_key-differs k k' other = elim (Bool-cases (same_key k' k)) [
  | inr differ ↦ differ
  | inl same ↦
      let equal = same_key_sound k' k same in
      absurd (ground (arith, same_key_refl k, rw equal at other))
]

set_unless-IsMap :
    (o : Option Bool) (k : List ℕ) (b : Bool) (m : Map Bool)
    → map_get k m ≡ o
    → IsMap m
    → IsMap (set_unless o k b m)
set_unless-IsMap (some v) k b m e h = h
set_unless-IsMap none k b m e h = fresh m e h
  where
    fresh : (m : Map Bool) → map_get k m ≡ none → IsMap m → IsMap (map_set k b m)
    fresh [] e h = (refl, tt)
    fresh ((k', b') ∷ m) e (absent, h) = elim (Bool-cases (same_key k k')) [
      | inl same ↦ absurd (ground (arith, rw same at e))
      | inr other ↦ rw other (
        rw (map_get-map_set k k' b m, same_key-differs k k' other) absent,
        fresh m (rw other at e) h,
      )
    ]

merge_into-IsMap : (m parent : Map Bool) → IsMap parent → IsMap (merge_into m parent)
unfolding merge_into
merge_into-IsMap [] parent h = h
merge_into-IsMap ((k, b) ∷ m) parent h =
    merge_into-IsMap m (set_once k b parent) (set_unless-IsMap (map_get k parent) k b parent refl h)

note_first-AreMaps :
    (k : List ℕ) (b : Bool) (cs : List (Map Bool)) → AreMaps cs → AreMaps (note_first k b cs)
note_first-AreMaps k b [] h = h
note_first-AreMaps k b (m ∷ older) (h, rest) = (set_unless-IsMap (map_get k m) k b m refl h, rest)

set_dirty-AreMaps :
    (k : List ℕ) (b : Bool) (c : Cache)
    → AreMaps c.dirty_checkpoints
    → AreMaps (set_dirty k b c).dirty_checkpoints
unfolding set_dirty
set_dirty-AreMaps k b c h = elim (Bool-cases (same_bool (has_key k c.dirty_keys) b)) [
  | inl same ↦ rw same h
  | inr differ ↦ rw differ (note_first-AreMaps k (has_key k c.dirty_keys) c.dirty_checkpoints h)
]

commit-AreMaps : (c : Cache) → AreMaps c.dirty_checkpoints → AreMaps (commit c).dirty_checkpoints
unfolding commit
commit-AreMaps c = merged c.dirty_checkpoints
  where
    merged :
        (cs : List (Map Bool))
        → AreMaps cs
        → AreMaps (commit (record c { dirty_checkpoints = cs })).dirty_checkpoints
    merged [] h = h
    merged (m ∷ []) h = tt
    merged (m ∷ parent ∷ older) (h, (h', rest)) = (merge_into-IsMap m parent h', rest)

-- The cache is a stack of sets of dirty keys, the newest first, when the entries of each
-- checkpoint are of distinct keys, and each of these but revert is shown to keep them so: a write
-- changes the newest set only, a checkpoint copies it, and commit drops the set below the newest,
-- if there is one. Revert drops the newest, and throws where it is the only one.
pub cache_ops :
    (k : List ℕ) (b : Bool) (c : Cache)
    → AreMaps c.dirty_checkpoints
    → (levels (set_dirty k b c) ≡ update k b (is_dirty c) ∷ drop 1 (levels c))
      × AreMaps (set_dirty k b c).dirty_checkpoints
      × (levels (checkpoint c) ≡ is_dirty c ∷ levels c)
      × AreMaps (checkpoint c).dirty_checkpoints
      × (levels (commit c) ≡ is_dirty c ∷ drop 2 (levels c))
      × AreMaps (commit c).dirty_checkpoints
      × (levels_of (revert c) ≡ below (levels c))
unfolding checkpoint
cache_ops k b c h = (
  levels-set_dirty k b c,
  set_dirty-AreMaps k b c h,
  refl,
  (tt, h),
  levels-commit c,
  commit-AreMaps c h,
  levels-revert c h,
)
