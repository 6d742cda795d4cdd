-- ===== src/Mpt/CheckpointDb/Phases.antt =====
-- packages/mpt/src/db/checkpointDB.ts: what happens between a checkpoint and its revert.
use tvmjs_monorepo.Prelude.{
  ℕ, ◌≡◌, refl, sym, ap, ◌∙◌, List, [], ◌∷◌, Option, some, none, Result, ok, err, arith, true,
}
use mathlib.Core.Path.{subst}
use tvmjs_monorepo.Mpt.CheckpointDb.{
  Key, Value, Checkpoint, Backend, CheckpointDb, find_checkpointed, set_newest, get, put, del,
  has_checkpoints, settle_get, settle_cache, after_cache_read, get_from_cache, settle_checkpoints,
  checkpoint, revert, commit, merge_newest,
}
use tvmjs_monorepo.Mpt.CheckpointDb.Views.{AreMaps, set_newest-AreMaps, merge-IsMap}
use tvmjs_monorepo.Mpt.CheckpointDb.Backends.{BackendLaws}
use tvmjs_monorepo.Mpt.CheckpointDb.Reads.{IsValid, view_of, get-IsRead}

pub data Change : Type 0 where
  put_change : Key → Value → Change
  del_change : Key → Change
  get_change : Key → Change

module _ (B : Backend) (L : BackendLaws B) where
  -- The state after a call, whether it returned or was rejected.
  unfoldable pub run_change : Change → CheckpointDb B → CheckpointDb B
  unfolding get put del
  run_change (put_change key value) s = (put B key value s).0
  run_change (del_change key) s = (del B key s).0
  run_change (get_change key) s = (get B key s).0

  -- Calls, and checkpoints with calls and checkpoints between them and their commit or revert.
  pub data Phase : CheckpointDb B → CheckpointDb B → Type 0 where
    idle : {s : CheckpointDb B} → Phase s s
    changed : {s t : CheckpointDb B} (c : Change) → Phase (run_change c s) t → Phase s t
    committed :
        {s t u v : CheckpointDb B} (root : List ℕ)
        → Phase (checkpoint B root s) t
        → commit B t ≡ some (u, ok tt)
        → Phase u v
        → Phase s v
    reverted :
        {s t u : CheckpointDb B} (root : List ℕ)
        → Phase (checkpoint B root s) t
        → Phase (revert B t).0 u
        → Phase s u

  -- A checkpoint with this root above the given ones, and the given database.
  abbrev IsAbove : List Checkpoint → List ℕ → B.Store → CheckpointDb B → Type 0
  IsAbove base root d t =
      (c : Checkpoint) × (t.checkpoints ≡ c ∷ base) × (c.root ≡ root) × (t.db ≡ d)

  -- A value that is written to the newest checkpoint.
  newest-IsAbove :
      (k : Key) (o : Option Value) (base : List Checkpoint) (root : List ℕ) (cs : List Checkpoint)
      → (c : Checkpoint) × (cs ≡ c ∷ base) × (c.root ≡ root)
      → (c : Checkpoint) × (set_newest k o cs ≡ c ∷ base) × (c.root ≡ root)
  unfolding set_newest
  newest-IsAbove k o base root cs (c, e, r) = rw e (_, refl, r)

  settle_get-IsAbove :
      (k : Key) (s : CheckpointDb B) (r : Result B.Rejection (Option Value))
      (base : List Checkpoint) (root : List ℕ) (d : B.Store)
      → IsAbove base root d s
      → IsAbove base root d (settle_get B k s r).0
  settle_get-IsAbove k s (err e) base root d h = h
  settle_get-IsAbove k s (ok o) base root d (c, e, r, same) =
      let (c', e', r') = newest-IsAbove k o base root s.checkpoints (c, e, r) in (c', e', r', same)

  get_from_cache-IsAbove :
      (k : Key) (s : CheckpointDb B) (cache : Option B.Cache) (base : List Checkpoint)
      (root : List ℕ) (d : B.Store)
      → IsAbove base root d s
      → IsAbove base root d (get_from_cache B k s cache).0
  get_from_cache-IsAbove k s none base root d h =
      settle_get-IsAbove k s (B.db_get k s.db) base root d h
  get_from_cache-IsAbove k s (some cache) base root d h = by_value (B.cache_get k cache).0
    where
      read : CheckpointDb B
      read = after_cache_read B s (B.cache_get k cache)

      by_value : (o : Option Value) → IsAbove base root d (settle_cache B k read o).0
      by_value none = settle_get-IsAbove k read (B.db_get k s.db) base root d h
      by_value (some v) = h

  get-IsAbove :
      (k : Key) (s : CheckpointDb B) (base : List Checkpoint) (root : List ℕ) (d : B.Store)
      → IsAbove base root d s
      → IsAbove base root d (get B k s).0
  unfolding get
  get-IsAbove k s base root d h = by_checkpoints (find_checkpointed k s.checkpoints)
    where
      by_checkpoints :
          (o : Option (Option Value)) → IsAbove base root d (settle_checkpoints B k s o).0
      by_checkpoints none = get_from_cache-IsAbove k s s.cache base root d h
      by_checkpoints (some value) = h

  abbrev IsAt : List Checkpoint → List ℕ → B.Store → CheckpointDb B → Type 0
  IsAt base root d t = IsValid B L t × IsAbove base root d t

  set_newest-IsAt :
      (k : Key) (o : Option Value) (s : CheckpointDb B) (base : List Checkpoint) (root : List ℕ)
      (d : B.Store)
      → IsAt base root d s
      → IsAt base root d (record s { checkpoints = set_newest k o s.checkpoints })
  set_newest-IsAt k o s base root d ((maps, coherent), (c, e, r, same)) =
      let (c', e', r') = newest-IsAbove k o base root s.checkpoints (c, e, r) in
      ((set_newest-AreMaps k o s.checkpoints maps, coherent), (c', e', r', same))

  some_level :
      (s : CheckpointDb B) (c : Checkpoint) (base : List Checkpoint)
      → s.checkpoints ≡ c ∷ base
      → has_checkpoints B s ≡ true
  unfolding has_checkpoints
  some_level s c base e = rw e (ground arith)

  write_newest :
      (k : Key) (v : Value) (s : CheckpointDb B)
      → has_checkpoints B s ≡ true
      → ((put B k v s).0 ≡ record s { checkpoints = set_newest k (some v) s.checkpoints })
        × ((del B k s).0 ≡ record s { checkpoints = set_newest k none s.checkpoints })
  unfolding put del
  write_newest k v s some_level = rw some_level (refl, refl)

  run_change-IsAt :
      (c : Change) (s : CheckpointDb B) (base : List Checkpoint) (root : List ℕ) (d : B.Store)
      → IsAt base root d s
      → IsAt base root d (run_change c s)
  unfolding run_change
  run_change-IsAt (put_change k v) s base root d (valid, (c, e, r, h)) =
      subst (IsAt base root d) (sym (write_newest k v s (some_level s c base e)).0)
        (set_newest-IsAt k (some v) s base root d (valid, (c, e, r, h)))
  run_change-IsAt (del_change k) s base root d (valid, (c, e, r, h)) =
      subst (IsAt base root d) (sym (write_newest k [] s (some_level s c base e)).1)
        (set_newest-IsAt k none s base root d (valid, (c, e, r, h)))
  run_change-IsAt (get_change k) s base root d (valid, above) =
      ((get-IsRead B L k s valid).0, get-IsAbove k s base root d above)

  checkpoint-IsAt :
      (root : List ℕ) (s : CheckpointDb B)
      → IsValid B L s
      → IsAt s.checkpoints root s.db (checkpoint B root s)
  unfolding checkpoint
  checkpoint-IsAt root s (maps, coherent) = (((tt, maps), coherent), (_, refl, refl, refl))

  commit-IsAt :
      (t u : CheckpointDb B) (c : Checkpoint) (base : List Checkpoint) (root inner : List ℕ)
      (d : B.Store)
      → IsAt (c ∷ base) inner d t
      → c.root ≡ root
      → commit B t ≡ some (u, ok tt)
      → IsAt base root d u
  unfolding commit
  commit-IsAt t u c base root inner d ((maps, coherent), (c', e, r, same)) named returned =
      let distinct = subst AreMaps e maps in
      let ended : (merge_newest B c' c base t ≡ u) = ground (arith, rw e at returned) in
      rw (← ended) (
        ((merge-IsMap c'.key_value_map c.key_value_map distinct.1.0, distinct.1.1), coherent),
        (_, refl, named, same),
      )

  revert-IsAt :
      (t : CheckpointDb B) (base : List Checkpoint) (root : List ℕ) (d : B.Store)
      → IsAt base root d t
      → IsValid B L (revert B t).0
        × ((revert B t).0.checkpoints ≡ base)
        × ((revert B t).0.db ≡ d)
        × ((revert B t).1 ≡ some root)
  unfolding revert
  revert-IsAt t base root d ((maps, coherent), (c, e, r, same)) =
      let distinct = subst AreMaps e maps in rw e ((distinct.1, coherent), refl, same, ap some r)

  Phase-IsAt :
      (s t : CheckpointDb B) (base : List Checkpoint) (root : List ℕ) (d : B.Store)
      → Phase s t
      → IsAt base root d s
      → IsAt base root d t
  Phase-IsAt s t base root d idle h = h
  Phase-IsAt s t base root d (changed c rest) h =
      Phase-IsAt (run_change c s) t base root d rest (run_change-IsAt c s base root d h)
  Phase-IsAt s v base root d (committed {t = t} {u = u} inner phase returned rest)
        (valid, (c, e, r, same)) =
      let at =
        Phase-IsAt (checkpoint B inner s) t s.checkpoints inner s.db phase
          (checkpoint-IsAt inner s valid) in
      let over_c : IsAt (c ∷ base) inner d t =
        subst (λ cs. IsAt cs inner d t) e (subst (λ x. IsAt s.checkpoints inner x t) same at) in
      Phase-IsAt u v base root d rest (commit-IsAt t u c base root inner d over_c r returned)
  Phase-IsAt s u base root d (reverted {t = t} inner phase rest) (valid, (c, e, r, same)) =
      let at =
        Phase-IsAt (checkpoint B inner s) t s.checkpoints inner s.db phase
          (checkpoint-IsAt inner s valid) in
      let (valid', cs, db, q) = revert-IsAt t s.checkpoints inner s.db at in
      Phase-IsAt (revert B t).0 u base root d rest (valid', (c, cs ∙ e, r, db ∙ same))

  -- From a valid state: after a checkpoint with a root, any run of gets, puts and dels, whether
  -- they return or are rejected, and of nested checkpoints, each reverted or committed by a call
  -- that returns, a revert gives the root, and leaves a valid state with the checkpoints, the
  -- database and the contents of before.
  pub Phase-revert :
      (root : List ℕ) (s t : CheckpointDb B)
      → IsValid B L s
      → Phase (checkpoint B root s) t
      → IsValid B L (revert B t).0
        × ((revert B t).0.checkpoints ≡ s.checkpoints)
        × ((revert B t).0.db ≡ s.db)
        × (view_of B L (revert B t).0 ≡ view_of B L s)
        × ((revert B t).1 ≡ some root)
  Phase-revert root s t valid phase =
      let (valid', cs, db, name) = revert-IsAt t s.checkpoints root s.db (
        Phase-IsAt (checkpoint B root s) t s.checkpoints root s.db phase
          (checkpoint-IsAt root s valid)) in
      (valid', cs, db, rw (cs, db) refl, name)
