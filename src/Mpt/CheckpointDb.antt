-- ===== src/Mpt/CheckpointDb.antt =====
-- packages/mpt/src/db/checkpointDB.ts. Keys and values are the bytes that the hexadecimal strings of the
-- source stand for, in either value encoding. Checkpoints are a list, the newest first; `none` in a
-- checkpoint is `undefined`, a deletion. The backing database and the LRU cache are parameters.
pub mod Views
pub mod Backends
pub mod Reads
pub mod Writes
pub mod Commits
pub mod Phases
use tvmjs_monorepo.Prelude.{
  ℕ, zero, suc, ◌+◌, ltb, Bool, true, false, List, [], ◌∷◌, length, if◌then◌else◌, Option, some,
  none, Result, ok, err, map,
}
use tvmjs_monorepo.Prelude.Maps.{Map, map_get, map_set}

abbrev pub Key : Type 0
Key = List ℕ

abbrev pub Value : Type 0
Value = List ℕ

-- `BatchDBOp`
pub data BatchDbOp : Type 0 where
  put_op : Key → Value → BatchDbOp
  del_op : Key → BatchDbOp

-- The calls of the backing database, which may be rejected, and of the LRU cache, whose reads may
-- change the order of eviction. A batch that is rejected leaves the store that it got to.
pub record Backend : Type 1 where
  pub Store : Type 0
  pub Rejection : Type 0
  pub db_get : Key → Store → Result Rejection (Option Value)
  pub db_put : Key → Value → Store → Result Rejection Store
  pub db_del : Key → Store → Result Rejection Store
  pub db_batch : List BatchDbOp → Store → Store × Result Rejection (Unit {0})
  pub Cache : Type 0
  pub new_cache : ℕ → Cache
  pub cache_get : Key → Cache → Option Value × Cache
  pub cache_set : Key → Value → Cache → Cache
  pub cache_delete : Key → Cache → Cache

pub record Checkpoint : Type 0 where
  pub key_value_map : Map (Option Value)
  pub root : List ℕ

pub record Counts : Type 0 where
  pub reads : ℕ
  pub hits : ℕ
  pub writes : ℕ

pub record Stats : Type 0 where
  pub of_cache : Counts
  pub of_db : Counts

abbrev pub no_counts : Counts
no_counts = record { reads = 0; hits = 0; writes = 0 }

abbrev pub no_stats : Stats
no_stats = record { of_cache = no_counts; of_db = no_counts }

abbrev pub count_read : Bool → Counts → Counts
count_read hit c = record {
  reads = c.reads + 1;
  hits = if hit then c.hits + 1 else c.hits;
  writes = c.writes;
}

abbrev pub count_writes : ℕ → Counts → Counts
count_writes n c = record { reads = c.reads; hits = c.hits; writes = c.writes + n }

abbrev pub is_some {ℓ} : {A : Type ℓ} → Option A → Bool
is_some none = false
is_some (some a) = true

-- The loop of `get` over the checkpoints, and the value of the first that has the key.
unfoldable pub find_checkpointed : Key → List Checkpoint → Option (Option Value)
find_checkpointed key [] = none
find_checkpointed key (c ∷ older) =
    let later = find_checkpointed key older in
    elim (map_get key c.key_value_map) [ some value ↦ some value | none ↦ later ]

-- A value that `get` read goes to the newest checkpoint.
unfoldable pub set_newest : Key → Option Value → List Checkpoint → List Checkpoint
set_newest key value [] = []
set_newest key value (c ∷ older) =
    record c { key_value_map = map_set key value c.key_value_map } ∷ older

-- The operations of `commit` for the entries of the last checkpoint.
unfoldable pub batch_ops : Map (Option Value) → List BatchDbOp
batch_ops [] = []
batch_ops ((key, none) ∷ entries) = del_op key ∷ batch_ops entries
batch_ops ((key, some value) ∷ entries) = put_op key value ∷ batch_ops entries

-- The loop of `commit` over the entries of a checkpoint that has a parent.
unfoldable pub merge : Map (Option Value) → Map (Option Value) → Map (Option Value)
merge [] parent = parent
merge ((key, value) ∷ entries) parent = merge entries (map_set key value parent)

module _ (B : Backend) where
  pub record CheckpointDb : Type 0 where
    pub checkpoints : List Checkpoint
    pub db : B.Store
    pub cache : Option B.Cache
    pub stats : Stats

  -- A promise: the state when it settles, and what it settles to.
  abbrev pub Outcome : Type 0 → Type 0
  Outcome A = CheckpointDb × Result B.Rejection A

  -- `new CheckpointDB(opts)`
  unfoldable pub new_checkpoint_db : B.Store → ℕ → CheckpointDb
  new_checkpoint_db store cache_size = record {
    checkpoints = [];
    db = store;
    cache = if ltb 0 cache_size then some (B.new_cache cache_size) else none;
    stats = no_stats;
  }

  -- `setCheckpoints`; the copied maps are as the given ones.
  unfoldable pub set_checkpoints : List Checkpoint → CheckpointDb → CheckpointDb
  set_checkpoints given s = record s { checkpoints = given }

  unfoldable pub has_checkpoints : CheckpointDb → Bool
  has_checkpoints s = ltb 0 (length s.checkpoints)

  unfoldable pub checkpoint : List ℕ → CheckpointDb → CheckpointDb
  checkpoint root s = record s {
    checkpoints = record { key_value_map = []; root = root } ∷ s.checkpoints;
  }

  -- The root of the newest checkpoint; `none` where `pop` gives `undefined`, which has no root.
  unfoldable pub revert : CheckpointDb → CheckpointDb × Option (List ℕ)
  revert s = elim s.checkpoints [
    | [] ↦ (s, none)
    | c ∷ older ↦ (record s { checkpoints = older }, some c.root)
  ]

  abbrev pub refresh : Key → Option Value → Option B.Cache → Option B.Cache
  refresh key value none = none
  refresh key none (some c) = some (B.cache_delete key c)
  refresh key (some value) (some c) = some (B.cache_set key value c)

  -- `get`, from the end: what the database gave, what the cache gave, what the checkpoints gave.
  abbrev pub settle_get :
      Key → CheckpointDb → Result B.Rejection (Option Value) → Outcome (Option Value)
  settle_get key s (err rejection) = (s, err rejection)
  settle_get key s (ok value) = (
    record s {
      checkpoints = set_newest key value s.checkpoints;
      cache = refresh key value s.cache;
      stats = record s.stats { of_db = count_read (is_some value) s.stats.of_db };
    },
    ok value,
  )

  abbrev pub get_from_db : Key → CheckpointDb → Outcome (Option Value)
  get_from_db key s = settle_get key s (B.db_get key s.db)

  abbrev pub settle_cache : Key → CheckpointDb → Option Value → Outcome (Option Value)
  settle_cache key s (some value) = (s, ok (some value))
  settle_cache key s none = get_from_db key s

  abbrev pub after_cache_read : CheckpointDb → Option Value × B.Cache → CheckpointDb
  after_cache_read s found = record s {
    cache = some found.1;
    stats = record s.stats { of_cache = count_read (is_some found.0) s.stats.of_cache };
  }

  abbrev pub get_from_cache : Key → CheckpointDb → Option B.Cache → Outcome (Option Value)
  get_from_cache key s none = get_from_db key s
  get_from_cache key s (some c) =
      let found = B.cache_get key c in settle_cache key (after_cache_read s found) found.0

  abbrev pub settle_checkpoints :
      Key → CheckpointDb → Option (Option Value) → Outcome (Option Value)
  settle_checkpoints key s (some value) = (s, ok value)
  settle_checkpoints key s none = get_from_cache key s s.cache

  unfoldable pub get : Key → CheckpointDb → Outcome (Option Value)
  unfolding find_checkpointed set_newest
  get key s = settle_checkpoints key s (find_checkpointed key s.checkpoints)

  -- `this._stats.db.writes += 1`, and where there is a cache, its writes.
  abbrev pub count_write : CheckpointDb → Stats
  count_write s = record s.stats {
    of_db = count_writes 1 s.stats.of_db;
    of_cache = if is_some s.cache then count_writes 1 s.stats.of_cache else s.stats.of_cache;
  }

  -- The state after a call of the database that may be rejected.
  abbrev pub settle :
      CheckpointDb → (B.Store → CheckpointDb) → Result B.Rejection B.Store → Outcome (Unit {0})
  settle before after (err rejection) = (before, err rejection)
  settle before after (ok store) = (after store, ok tt)

  unfoldable pub put : Key → Value → CheckpointDb → Outcome (Unit {0})
  unfolding has_checkpoints set_newest
  put key value s =
      if has_checkpoints s
      then (record s { checkpoints = set_newest key (some value) s.checkpoints }, ok tt)
      else settle s
          (λ store. record s {
            db = store;
            cache = refresh key (some value) s.cache;
            stats = count_write s;
          })
          (B.db_put key value s.db)

  unfoldable pub del : Key → CheckpointDb → Outcome (Unit {0})
  unfolding has_checkpoints set_newest
  del key s =
      if has_checkpoints s
      then (record s { checkpoints = set_newest key none s.checkpoints }, ok tt)
      else settle s
          (λ store. record s {
            db = store;
            cache = refresh key none s.cache;
            stats = count_write s;
          })
          (B.db_del key s.db)

  -- The loop of `_writeBatch` over the cache.
  unfoldable pub refresh_all : List BatchDbOp → Option B.Cache → Option B.Cache
  refresh_all [] c = c
  refresh_all (put_op key value ∷ ops) c = refresh_all ops (refresh key (some value) c)
  refresh_all (del_op key ∷ ops) c = refresh_all ops (refresh key none c)

  -- `_writeBatch`; the writes of the database are counted before it is called.
  abbrev pub before_batch : List BatchDbOp → CheckpointDb → CheckpointDb
  before_batch ops s = record s {
    stats = record s.stats { of_db = count_writes (length ops) s.stats.of_db };
  }

  unfoldable pub after_batch : List BatchDbOp → CheckpointDb → B.Store → CheckpointDb
  unfolding refresh_all
  after_batch ops s store = record s {
    db = store;
    cache = refresh_all ops s.cache;
    stats = record s.stats {
      of_cache =
          if is_some s.cache then count_writes (length ops) s.stats.of_cache else s.stats.of_cache;
    };
  }

  abbrev pub settle_batch :
      List BatchDbOp → CheckpointDb → B.Store × Result B.Rejection (Unit {0}) → Outcome (Unit {0})
  settle_batch ops s (store, err rejection) = (record s { db = store }, err rejection)
  settle_batch ops s (store, ok done) = (after_batch ops s store, ok tt)

  unfoldable pub write_batch : List BatchDbOp → CheckpointDb → Outcome (Unit {0})
  unfolding after_batch
  write_batch ops s = settle_batch ops (before_batch ops s) (B.db_batch ops s.db)

  -- `this.checkpoints.pop()` after a batch that was not rejected.
  abbrev pub pop_after : Outcome (Unit {0}) → Outcome (Unit {0})
  pop_after (s, err rejection) = (s, err rejection)
  pop_after (s, ok done) = (record s { checkpoints = [] }, ok tt)

  -- The newest checkpoint merged into its parent.
  abbrev pub merge_newest : Checkpoint → Checkpoint → List Checkpoint → CheckpointDb → CheckpointDb
  merge_newest c parent older s = record s {
    checkpoints =
        record parent { key_value_map = merge c.key_value_map parent.key_value_map } ∷ older;
  }

  -- `commit`; `none` where there is no checkpoint, which throws.
  unfoldable pub commit : CheckpointDb → Option (Outcome (Unit {0}))
  unfolding write_batch batch_ops merge
  commit s = elim s.checkpoints [
    | [] ↦ none
    | c ∷ [] ↦ some (pop_after (write_batch (batch_ops c.key_value_map) s))
    | c ∷ parent ∷ older ↦ some (merge_newest c parent older s, ok tt)
  ]

  -- The loop of `batch` in a checkpoint phase.
  unfoldable pub apply_ops : List BatchDbOp → CheckpointDb → Outcome (Unit {0})
  unfolding put del
  apply_ops [] s = (s, ok tt)
  apply_ops (put_op key value ∷ ops) s =
      let r = put key value s in
      let later = apply_ops ops r.0 in
      elim r.1 [ err rejection ↦ (r.0, err rejection) | ok done ↦ later ]
  apply_ops (del_op key ∷ ops) s =
      let r = del key s in
      let later = apply_ops ops r.0 in
      elim r.1 [ err rejection ↦ (r.0, err rejection) | ok done ↦ later ]

  unfoldable pub batch : List BatchDbOp → CheckpointDb → Outcome (Unit {0})
  unfolding has_checkpoints apply_ops write_batch
  batch ops s = if has_checkpoints s then apply_ops ops s else write_batch ops s
