-- ===== src/Mpt/CheckpointDb/Reads.antt =====
-- packages/mpt/src/db/checkpointDB.ts: a read changes no contents and keeps the cache coherent.
use tvmjs_monorepo.Prelude.{
  ◌≡◌, ◌⊎◌, refl, sym, ap, ◌∙◌, Bool, true, false, List, [], ◌∷◌, if◌then◌else◌, Option, some, none,
  inl, inr, Result, ok, err,
}
use mathlib.Core.Path.{subst}
use tvmjs_monorepo.Prelude.Maps.{same_key}
use tvmjs_monorepo.Mpt.CheckpointDb.{
  Key, Value, BatchDbOp, put_op, del_op, Backend, CheckpointDb, Outcome, find_checkpointed, get,
  settle_get, settle_cache, after_cache_read, get_from_cache, settle_checkpoints, refresh,
  refresh_all,
}
use tvmjs_monorepo.Mpt.CheckpointDb.Views.{
  Contents, or_else, update, contents, view, AreMaps, after_ops, set_newest-AreMaps,
  find_checkpointed-contents, view-set_newest_same, update-same,
}
use tvmjs_monorepo.Mpt.CheckpointDb.Backends.{BackendLaws}

module _ (B : Backend) (L : BackendLaws B) where
  -- What the cache returns is what the database holds.
  abbrev pub IsCoherent : Option B.Cache → Contents → Type 0
  IsCoherent none f = Unit {0}
  IsCoherent (some c) f = (k : Key) (v : Value) → L.cached c k ≡ some v → f k ≡ some v

  abbrev pub IsValid : CheckpointDb B → Type 0
  IsValid s = AreMaps s.checkpoints × IsCoherent s.cache (L.stored s.db)

  -- The stack of contents that a state stands for.
  abbrev pub view_of : CheckpointDb B → List Contents
  view_of s = view s.checkpoints (L.stored s.db)

  abbrev pub current : CheckpointDb B → Contents
  current s = contents s.checkpoints (L.stored s.db)

  pub refresh-IsCoherent :
      (k : Key) (o : Option Value) (c : Option B.Cache) (f : Contents)
      → IsCoherent c f
      → IsCoherent (refresh B k o c) (update k o f)
  refresh-IsCoherent k o none f h = tt
  refresh-IsCoherent k none (some c) f h =
      λ k' w e. weaken (same_key k' k) (L.cache_delete_kept k c k' w e) (h k' w)
    where
      weaken :
          {a b : Option Value} {w : Value} (t : Bool)
          → (if t then none else a) ≡ some w
          → (a ≡ some w → b ≡ some w)
          → (if t then none else b) ≡ some w
      weaken true e g = e
      weaken false e g = g e
  refresh-IsCoherent k (some v) (some c) f h =
      λ k' w e. weaken (same_key k' k) (L.cache_set_kept k v c k' w e) (h k' w)
    where
      weaken :
          {a b : Option Value} {w : Value} (t : Bool)
          → (if t then some v else a) ≡ some w
          → (a ≡ some w → b ≡ some w)
          → (if t then some v else b) ≡ some w
      weaken true e g = e
      weaken false e g = g e

  pub refresh_all-IsCoherent :
      (ops : List BatchDbOp) (c : Option B.Cache) (f : Contents)
      → IsCoherent c f
      → IsCoherent (refresh_all B ops c) (after_ops ops f)
  unfolding refresh_all
  refresh_all-IsCoherent [] c f h = h
  refresh_all-IsCoherent (put_op k v ∷ ops) c f h =
      refresh_all-IsCoherent ops (refresh B k (some v) c) (update k (some v) f)
        (refresh-IsCoherent k (some v) c f h)
  refresh_all-IsCoherent (del_op k ∷ ops) c f h =
      refresh_all-IsCoherent ops (refresh B k none c) (update k none f)
        (refresh-IsCoherent k none c f h)

  -- A read that leaves the contents as they are and gives the newest value, or is rejected.
  abbrev pub IsRead : Key → CheckpointDb B → Outcome B (Option Value) → Type 0
  IsRead k s r =
      IsValid r.0
      × (view_of r.0 ≡ view_of s)
      × ((r.1 ≡ ok (current s k)) ⊎ ((e : B.Rejection) × (B.db_get k s.db ≡ err e) × (r.1 ≡ err e)))

  settle_get-IsRead :
      (k : Key) (s : CheckpointDb B) (r : Result B.Rejection (Option Value))
      → IsValid s
      → B.db_get k s.db ≡ r
      → current s k ≡ L.stored s.db k
      → IsRead k s (settle_get B k s r)
  settle_get-IsRead k s (err e) valid called base = (valid, refl, inr (e, called, refl))
  settle_get-IsRead k s (ok o) (maps, coherent) called base =
      let value : L.stored s.db k ≡ o = L.db_get_ok k s.db o called in
      let kept : update k o (L.stored s.db) ≡ L.stored s.db =
        update-same k o (L.stored s.db) value in
      (
        (
          set_newest-AreMaps k o s.checkpoints maps,
          subst (IsCoherent (refresh B k o s.cache)) kept
              (refresh-IsCoherent k o s.cache (L.stored s.db) coherent),
        ),
        view-set_newest_same k o s.checkpoints (L.stored s.db) (base ∙ value),
        inl (ap ok (sym value ∙ sym base)),
      )

  -- A read in a state that differs in the cache and the counts.
  settle_cache-IsRead :
      (k : Key) (s : CheckpointDb B) (o : Option Value)
      → IsValid s
      → current s k ≡ L.stored s.db k
      → ((v : Value) → o ≡ some v → L.stored s.db k ≡ some v)
      → IsRead k s (settle_cache B k s o)
  settle_cache-IsRead k s (some v) valid base held =
      (valid, refl, inl (ap ok (sym (base ∙ held v refl))))
  settle_cache-IsRead k s none valid base held =
      settle_get-IsRead k s (B.db_get k s.db) valid refl base

  get_from_cache-IsRead :
      (k : Key) (s : CheckpointDb B) (c : Option B.Cache)
      → IsValid s
      → s.cache ≡ c
      → current s k ≡ L.stored s.db k
      → IsRead k s (get_from_cache B k s c)
  get_from_cache-IsRead k s none valid e base =
      settle_get-IsRead k s (B.db_get k s.db) valid refl base
  get_from_cache-IsRead k s (some c) (maps, coherent) e base =
      let coherent' = subst (λ x. IsCoherent x (L.stored s.db)) e coherent in
      let found = B.cache_get k c in
      settle_cache-IsRead k (after_cache_read B s found) found.0
        (maps, λ k' v h. coherent' k' v (L.cache_get_kept k c k' v h)) base
        (λ v h. coherent' k v (sym (L.cache_get_found k c) ∙ h))

  -- With a database and a cache that keep their laws, and a state whose maps have distinct keys
  -- and whose cache is coherent, get returns the newest value of the key, or is rejected as the
  -- database rejects it; either way the contents of every level stay and the state stays so.
  pub get-IsRead : (k : Key) (s : CheckpointDb B) → IsValid s → IsRead k s (get B k s)
  unfolding get
  get-IsRead k s valid =
      step (find_checkpointed k s.checkpoints)
        (find_checkpointed-contents k s.checkpoints (L.stored s.db))
    where
      step :
          (o : Option (Option Value))
          → or_else o (L.stored s.db k) ≡ current s k
          → IsRead k s (settle_checkpoints B k s o)
      step none e = get_from_cache-IsRead k s s.cache valid refl (sym e)
      step (some v) e = (valid, refl, inl (ap ok e))
