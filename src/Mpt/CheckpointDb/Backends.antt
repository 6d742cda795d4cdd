-- ===== src/Mpt/CheckpointDb/Backends.antt =====
-- What packages/mpt/src/db/checkpointDB.ts relies on in its database and its LRU cache.
use tvmjs_monorepo.Prelude.{ℕ, ◌≡◌, Option, some, none, List, ok, err, false}
use tvmjs_monorepo.Mpt.CheckpointDb.{Key, Value, BatchDbOp, Backend}
use tvmjs_monorepo.Mpt.CheckpointDb.Views.{Contents, update, after_ops, is_written}

-- `stored` is what the database holds, `cached` what the cache would return. A call that is not
-- rejected does what it says, and a batch that is rejected may have written any of its keys, and no other; a
-- cache may lose an entry at any time.
pub record BackendLaws (B : Backend) : Type 0 where
  pub stored : B.Store → Contents
  pub db_get_ok : (k : Key) (s : B.Store) (o : Option Value) → B.db_get k s ≡ ok o → stored s k ≡ o
  pub db_put_ok :
      (k : Key) (v : Value) (s s' : B.Store)
      → B.db_put k v s ≡ ok s'
      → stored s' ≡ update k (some v) (stored s)
  pub db_del_ok :
      (k : Key) (s s' : B.Store) → B.db_del k s ≡ ok s' → stored s' ≡ update k none (stored s)
  pub db_batch_ok :
      (ops : List BatchDbOp) (s s' : B.Store)
      → B.db_batch ops s ≡ (s', ok tt)
      → stored s' ≡ after_ops ops (stored s)
  pub db_batch_err :
      (ops : List BatchDbOp) (s s' : B.Store) (e : B.Rejection)
      → B.db_batch ops s ≡ (s', err e)
      → (k : Key) → is_written k ops ≡ false
      → stored s' k ≡ stored s k
  pub cached : B.Cache → Contents
  pub new_cache_empty : (n : ℕ) (k : Key) → cached (B.new_cache n) k ≡ none
  pub cache_get_found : (k : Key) (c : B.Cache) → (B.cache_get k c).0 ≡ cached c k
  pub cache_get_kept :
      (k : Key) (c : B.Cache) (k' : Key) (v : Value)
      → cached (B.cache_get k c).1 k' ≡ some v
      → cached c k' ≡ some v
  pub cache_set_kept :
      (k : Key) (v : Value) (c : B.Cache) (k' : Key) (w : Value)
      → cached (B.cache_set k v c) k' ≡ some w
      → update k (some v) (cached c) k' ≡ some w
  pub cache_delete_kept :
      (k : Key) (c : B.Cache) (k' : Key) (w : Value)
      → cached (B.cache_delete k c) k' ≡ some w
      → update k none (cached c) k' ≡ some w
