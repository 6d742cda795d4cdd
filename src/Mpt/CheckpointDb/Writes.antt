-- ===== src/Mpt/CheckpointDb/Writes.antt =====
-- packages/mpt/src/db/checkpointDB.ts: writes, checkpoints, commits and reverts on the stack of contents.
use tvmjs_monorepo.Prelude.{
  ◌≡◌, ◌⊎◌, refl, ltb, true, false, List, [], ◌∷◌, length, Option, some, none, Bool-cases, inl, inr,
  arith, Result, ok, err,
}
use tvmjs_monorepo.Mpt.CheckpointDb.{
  Key, Value, Checkpoint, Backend, CheckpointDb, Stats, Outcome, set_newest, put, del,
  has_checkpoints, settle, refresh,
}
use tvmjs_monorepo.Mpt.CheckpointDb.Views.{
  Contents, update, view, set_newest-AreMaps, view-set_newest, update_first,
}
use tvmjs_monorepo.Mpt.CheckpointDb.Backends.{BackendLaws}
use tvmjs_monorepo.Mpt.CheckpointDb.Reads.{IsValid, view_of, refresh-IsCoherent}

module _ (B : Backend) (L : BackendLaws B) where
  -- The state is valid after, and its contents are `after`; or the database rejected the call, and
  -- the contents are as before.
  abbrev pub IsWrite : CheckpointDb B → List Contents → Outcome B (Unit {0}) → Type 0
  IsWrite s after r =
      IsValid B L r.0
      × (((r.1 ≡ ok tt) × (view_of B L r.0 ≡ after))
          ⊎ ((e : B.Rejection) × (r.1 ≡ err e)
              × (r.0.checkpoints ≡ s.checkpoints)
              × (r.0.db ≡ s.db)
              × (r.0.cache ≡ s.cache)))

  set_newest-IsWrite :
      (k : Key) (o : Option Value) (s : CheckpointDb B) (cs : List Checkpoint)
      → IsValid B L s
      → s.checkpoints ≡ cs
      → ltb 0 (length cs) ≡ true
      → IsWrite s
          (update_first k o (view_of B L s))
          (record s { checkpoints = set_newest k o s.checkpoints }, ok tt)
  set_newest-IsWrite k o s [] valid e some_level = cc
  set_newest-IsWrite k o s (c ∷ older) (maps, coherent) e some_level = (
    (set_newest-AreMaps k o s.checkpoints maps, coherent),
    inl (refl, rw e (view-set_newest k o c older (L.stored s.db))),
  )

  settle-IsWrite :
      (k : Key) (o : Option Value) (s : CheckpointDb B) (stats : B.Store → Stats)
      (r : Result B.Rejection B.Store)
      → IsValid B L s
      → s.checkpoints ≡ []
      → ((s' : B.Store) → r ≡ ok s' → L.stored s' ≡ update k o (L.stored s.db))
      → IsWrite s (update_first k o (view_of B L s)) (
          settle B s
            (λ store. record s { db = store; cache = refresh B k o s.cache; stats = stats store })
            r)
  settle-IsWrite k o s stats (err e) valid none_left law = (valid, inr (e, refl, refl, refl, refl))
  settle-IsWrite k o s stats (ok store) (maps, coherent) none_left law =
      let written = law store refl in
      (
        (maps, rw written (refresh-IsCoherent B L k o s.cache (L.stored s.db) coherent)),
        inl (refl, rw (none_left, written) (unfold view in refl)),
      )

  no_level : (cs : List Checkpoint) → ltb 0 (length cs) ≡ false → cs ≡ []
  no_level [] e = refl
  no_level (c ∷ cs) e = absurd (ground arith)

  -- In a valid state, put of a value and del each leave a valid state. Either the database rejects
  -- the call and the checkpoints, the database and the cache stay, or the newest contents have the
  -- value, or none, at the key, and the rest of the contents stays.
  pub put-IsWrite :
      (k : Key) (v : Value) (s : CheckpointDb B)
      → IsValid B L s
      → IsWrite s (update_first k (some v) (view_of B L s)) (put B k v s)
        × IsWrite s (update_first k none (view_of B L s)) (del B k s)
  unfolding put del has_checkpoints
  put-IsWrite k v s valid = elim (Bool-cases (ltb 0 (length s.checkpoints))) [
    | inl some_level ↦ rw some_level (
      set_newest-IsWrite k (some v) s s.checkpoints valid refl some_level,
      set_newest-IsWrite k none s s.checkpoints valid refl some_level,
    )
    | inr none_left ↦
        let empty = no_level s.checkpoints none_left in
        rw none_left (
          settle-IsWrite k (some v) s _ (B.db_put k v s.db) valid empty
              (λ s' e. L.db_put_ok k v s.db s' e),
          settle-IsWrite k none s _ (B.db_del k s.db) valid empty (λ s' e. L.db_del_ok k s.db s' e),
        )
  ]
