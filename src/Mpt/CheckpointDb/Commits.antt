-- ===== src/Mpt/CheckpointDb/Commits.antt =====
-- packages/mpt/src/db/checkpointDB.ts: commits, also where the database rejects the batch midway.
use tvmjs_monorepo.Prelude.{
  ◌≡◌, ◌⊎◌, refl, ap, ◌∙◌, false, List, [], ◌∷◌, Option, some, none, inl, inr, Result, ok, err,
}
use mathlib.Core.Path.{subst}
use tvmjs_monorepo.Mpt.CheckpointDb.{
  Key, Value, BatchDbOp, Checkpoint, Backend, CheckpointDb, Outcome, settle_batch, commit,
  pop_after, write_batch, before_batch, after_batch, merge_newest, batch_ops,
}
use tvmjs_monorepo.Mpt.CheckpointDb.Views.{
  is_written, over-masked, Contents, contents, view, AreMaps, over-merge, merge-IsMap,
  after_ops-batch_ops,
}
use tvmjs_monorepo.Mpt.CheckpointDb.Backends.{BackendLaws}
use tvmjs_monorepo.Mpt.CheckpointDb.Reads.{
  current, IsCoherent, IsValid, view_of, refresh_all-IsCoherent,
}

-- The contents of a stack without the second.
abbrev pub drop_second : List Contents → List Contents
drop_second [] = []
drop_second (f ∷ []) = f ∷ []
drop_second (f ∷ g ∷ older) = f ∷ older

module _ (B : Backend) (L : BackendLaws B) where
  -- Where the cache returns something else than the database holds, the batch has the key.
  abbrev pub IsCoherentBut : List BatchDbOp → Option B.Cache → Contents → Type 0
  IsCoherentBut ops none f = Unit {0}
  IsCoherentBut ops (some c) f =
      (k : Key) (v : Value) → is_written k ops ≡ false → L.cached c k ≡ some v → f k ≡ some v

  -- The commit has returned and the state is valid; or the database has rejected the batch of the one
  -- checkpoint, which is still there and hides what the batch has done.
  abbrev pub IsCommit : CheckpointDb B → Checkpoint → Outcome B (Unit {0}) → Type 0
  IsCommit s c r =
      ((r.1 ≡ ok tt) × IsValid B L r.0 × (view_of B L r.0 ≡ drop_second (view_of B L s)))
      ⊎ ((e : B.Rejection) × (r.1 ≡ err e)
          × (r.0.checkpoints ≡ s.checkpoints)
          × (r.0.cache ≡ s.cache)
          × (current B L r.0 ≡ current B L s)
          × IsCoherentBut (batch_ops c.key_value_map) r.0.cache (L.stored r.0.db))

  still_coherent :
      (ops : List BatchDbOp) (c : Option B.Cache) (f g : Contents)
      → IsCoherent B L c f
      → ((k : Key) → is_written k ops ≡ false → g k ≡ f k)
      → IsCoherentBut ops c g
  still_coherent ops none f g h kept = tt
  still_coherent ops (some c) f g h kept = λ k v other e. kept k other ∙ h k v e

  last-IsCommit :
      (s : CheckpointDb B) (c : Checkpoint) (r : B.Store × Result B.Rejection (Unit {0}))
      → IsValid B L s
      → s.checkpoints ≡ c ∷ []
      → B.db_batch (batch_ops c.key_value_map) s.db ≡ r
      → IsCommit s c (
          pop_after B (
            settle_batch B
              (batch_ops c.key_value_map)
              (before_batch B (batch_ops c.key_value_map) s)
              r))
  unfolding after_batch
  last-IsCommit s c (store, err e) (maps, coherent) level called =
      let ops = batch_ops c.key_value_map in
      let kept = L.db_batch_err ops s.db store e called in
      inr (
        e,
        refl,
        refl,
        refl,
        rw level (over-masked c.key_value_map (L.stored s.db) (L.stored store) kept),
        still_coherent ops s.cache (L.stored s.db) (L.stored store) coherent kept,
      )
  last-IsCommit s c (store, ok done) (maps, coherent) level called =
      let ops = batch_ops c.key_value_map in
      let written = L.db_batch_ok ops s.db store called in
      let distinct = subst AreMaps level maps in
      let all_keys = after_ops-batch_ops c.key_value_map (L.stored s.db) distinct.0 in
      inl (
        refl,
        (tt, rw written (refresh_all-IsCoherent B L ops s.cache (L.stored s.db) coherent)),
        rw level (unfold view in ap (λ f. f ∷ []) (written ∙ all_keys)),
      )

  merged-IsCommit :
      (s : CheckpointDb B) (c parent : Checkpoint) (older : List Checkpoint)
      → IsValid B L s
      → s.checkpoints ≡ c ∷ parent ∷ older
      → IsCommit s c (merge_newest B c parent older s, ok tt)
  merged-IsCommit s c parent older (maps, coherent) level =
      let distinct = subst AreMaps level maps in
      let below = contents older (L.stored s.db) in
      inl (
        refl,
        ((merge-IsMap c.key_value_map parent.key_value_map distinct.1.0, distinct.1.1), coherent),
        rw level (
            unfold view in
            ap (λ f. f ∷ view older (L.stored s.db))
              (over-merge c.key_value_map parent.key_value_map below distinct.0)),
      )

  -- In a valid state with a checkpoint, commit returns or is rejected by the database. If it
  -- returns, the state is valid and the newest contents have taken the place of those below them,
  -- and the rest stays. If it is rejected, the batch may have written any of its keys: the
  -- checkpoints and the cache stay, the newest contents are those of before, and the cache returns
  -- what the database holds at every key but those of the batch.
  pub commit-IsCommit :
      (s : CheckpointDb B) (c : Checkpoint) (older : List Checkpoint)
      → IsValid B L s
      → s.checkpoints ≡ c ∷ older
      → (r : Outcome B (Unit {0})) × (commit B s ≡ some r) × IsCommit s c r
  unfolding commit write_batch
  commit-IsCommit s c [] valid e = (
    pop_after B (write_batch B (batch_ops c.key_value_map) s),
    rw e refl,
    last-IsCommit s c (B.db_batch (batch_ops c.key_value_map) s.db) valid e refl,
  )
  commit-IsCommit s c (parent ∷ older) valid e = (
    (merge_newest B c parent older s, ok tt),
    rw e refl,
    merged-IsCommit s c parent older valid e,
  )
