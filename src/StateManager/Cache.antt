-- ===== src/StateManager/Cache.antt =====
-- packages/statemanager/src/cache/cache.ts: the keys with pending writes, and the checkpoints that say what
-- to restore. The array of checkpoints is a list, the newest first.
pub mod Levels
pub mod Checkpoints
pub mod Maps
use tvmjs_monorepo.Prelude.{
  ℕ, Bool, true, false, List, [], ◌∷◌, if◌then◌else◌, Option, some, none, Bool,
}
use tvmjs_monorepo.Prelude.Int.{ℤ, pos, ◌+ℤ◌, ◌-ℤ◌}
use tvmjs_monorepo.Prelude.Maps.{Map, map_get, map_set}
use tvmjs_monorepo.Tvm.Journal.{Keys, has_key, add_key, delete_key}

pub record Cache : Type 0 where
  pub checkpoint_count : ℤ
  pub dirty_keys : Keys
  pub dirty_checkpoints : List (Map Bool)

-- `new Cache()`
unfoldable pub new_cache : Cache
new_cache = record { checkpoint_count = pos 0; dirty_keys = []; dirty_checkpoints = [] }

-- `if (!checkpoint.has(key)) checkpoint.set(key, wasDirty)`
abbrev pub set_unless : Option Bool → List ℕ → Bool → Map Bool → Map Bool
set_unless (some recorded) key was_dirty checkpoint = checkpoint
set_unless none key was_dirty checkpoint = map_set key was_dirty checkpoint

abbrev pub set_once : List ℕ → Bool → Map Bool → Map Bool
set_once key was_dirty checkpoint = set_unless (map_get key checkpoint) key was_dirty checkpoint

abbrev pub note_first : List ℕ → Bool → List (Map Bool) → List (Map Bool)
note_first key was_dirty [] = []
note_first key was_dirty (checkpoint ∷ older) = set_once key was_dirty checkpoint ∷ older

abbrev pub put_dirty : List ℕ → Bool → Keys → Keys
put_dirty key true keys = add_key key keys
put_dirty key false keys = delete_key key keys

abbrev pub same_bool : Bool → Bool → Bool
same_bool true b = b
same_bool false true = false
same_bool false false = true

-- `_setDirty`
unfoldable pub set_dirty : List ℕ → Bool → Cache → Cache
unfolding has_key add_key delete_key
set_dirty key dirty c =
    let was_dirty = has_key key c.dirty_keys in
    if same_bool was_dirty dirty then c else record c {
      dirty_checkpoints = note_first key was_dirty c.dirty_checkpoints;
      dirty_keys = put_dirty key dirty c.dirty_keys;
    }

unfoldable pub checkpoint : Cache → Cache
checkpoint c = record c {
  checkpoint_count = c.checkpoint_count +ℤ pos 1;
  dirty_checkpoints = [] ∷ c.dirty_checkpoints;
}

-- The loop of `commit`.
unfoldable pub merge_into : Map Bool → Map Bool → Map Bool
merge_into [] parent = parent
merge_into ((key, was_dirty) ∷ entries) parent = merge_into entries (set_once key was_dirty parent)

abbrev pub merge_first : Map Bool → List (Map Bool) → List (Map Bool)
merge_first entries [] = []
merge_first entries (parent ∷ older) = merge_into entries parent ∷ older

-- Without a checkpoint there is no parent, and only the count changes.
unfoldable pub commit : Cache → Cache
unfolding merge_into
commit c =
    let counted = record c { checkpoint_count = c.checkpoint_count -ℤ pos 1 } in
    elim c.dirty_checkpoints [
      | [] ↦ counted
      | entries ∷ older ↦ record counted { dirty_checkpoints = merge_first entries older }
    ]

-- The loop of `revert`.
unfoldable pub restore : Map Bool → Keys → Keys
unfolding add_key delete_key
restore [] keys = keys
restore ((key, was_dirty) ∷ entries) keys = restore entries (put_dirty key was_dirty keys)

-- `none` where there is no checkpoint, which throws.
unfoldable pub revert : Cache → Option Cache
unfolding restore
revert c = elim c.dirty_checkpoints [
  | [] ↦ none
  | entries ∷ older ↦ some (record c {
    checkpoint_count = c.checkpoint_count -ℤ pos 1;
    dirty_keys = restore entries c.dirty_keys;
    dirty_checkpoints = older;
  })
]
