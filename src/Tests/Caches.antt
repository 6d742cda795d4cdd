-- ===== src/Tests/Caches.antt =====
-- A cache with one write since its checkpoint.
use tvmjs_monorepo.Prelude.{◌≡◌, refl, true, false, [], ◌∷◌, drop}
use tvmjs_monorepo.StateManager.Cache.{Cache, new_cache, set_dirty, checkpoint, commit, revert}
use tvmjs_monorepo.StateManager.Cache.Levels.{update, is_dirty, levels}
use tvmjs_monorepo.StateManager.Cache.Checkpoints.{AreMaps, below, levels_of}
use tvmjs_monorepo.StateManager.Cache.Maps.{cache_ops}

abbrev one_write : Cache
one_write = set_dirty (7 ∷ []) true (checkpoint new_cache)

one_write-AreMaps : AreMaps one_write.dirty_checkpoints
unfolding set_dirty checkpoint new_cache
one_write-AreMaps = ((refl, tt), tt)

cache_ops_example :
    (levels (set_dirty (7 ∷ []) false one_write)
      ≡ update (7 ∷ []) false (is_dirty one_write) ∷ drop 1 (levels one_write))
    × AreMaps (set_dirty (7 ∷ []) false one_write).dirty_checkpoints
    × (levels (checkpoint one_write) ≡ is_dirty one_write ∷ levels one_write)
    × AreMaps (checkpoint one_write).dirty_checkpoints
    × (levels (commit one_write) ≡ is_dirty one_write ∷ drop 2 (levels one_write))
    × AreMaps (commit one_write).dirty_checkpoints
    × (levels_of (revert one_write) ≡ below (levels one_write))
cache_ops_example = cache_ops (7 ∷ []) false one_write one_write-AreMaps
