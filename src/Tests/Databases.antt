-- ===== src/Tests/Databases.antt =====
-- The database of the trie with a map as the database and a cache of one entry.
use tvmjs_monorepo.Prelude.{
  ◌≡◌, refl, sym, ap, ◌∙◌, false, List, [], ◌∷◌, Option, some, none, Result, ok, err, ok_unique,
  if◌then◌else◌, Bool-cases, inl, inr, arith,
}
use tvmjs_monorepo.Prelude.Maps.{Map, map_set, same_key, same_key_sound, same_key_refl}
use tvmjs_monorepo.Mpt.CheckpointDb.{
  Key, Value, BatchDbOp, put_op, del_op, Backend, CheckpointDb, Checkpoint, Outcome, get, put, del,
  checkpoint, revert, commit, no_stats, no_counts, has_checkpoints, write_batch, batch_ops,
}
use tvmjs_monorepo.Mpt.CheckpointDb.Views.{
  Contents, update, over, over-map_set, after_ops, update_first, is_written,
}
use tvmjs_monorepo.Mpt.CheckpointDb.Backends.{BackendLaws}
use tvmjs_monorepo.Mpt.CheckpointDb.Reads.{IsValid, IsRead, view_of, get-IsRead}
use tvmjs_monorepo.Mpt.CheckpointDb.Writes.{IsWrite, put-IsWrite}
use tvmjs_monorepo.Mpt.CheckpointDb.Commits.{IsCommit, commit-IsCommit}
use tvmjs_monorepo.Mpt.CheckpointDb.Phases.{
  Phase, idle, changed, reverted, run_change, put_change, del_change, get_change, Phase-revert,
}

abbrev apply_all : List BatchDbOp → Map (Option Value) → Map (Option Value)
apply_all [] s = s
apply_all (put_op k v ∷ ops) s = apply_all ops (map_set k (some v) s)
apply_all (del_op k ∷ ops) s = apply_all ops (map_set k none s)

-- A batch of more than one operation is rejected after the first.
abbrev apply_batch :
    List BatchDbOp → Map (Option Value) → Map (Option Value) × Result (Unit {0}) (Unit {0})
apply_batch [] s = (s, ok tt)
apply_batch (op ∷ []) s = (apply_all (op ∷ []) s, ok tt)
apply_batch (op ∷ next ∷ ops) s = (apply_all (op ∷ []) s, err tt)

abbrev nothing : Contents
nothing k = none

abbrev found : Option (Key × Value) → Contents
found none k = none
found (some (k', v)) k = if same_key k k' then some v else none

abbrev forget : Key → Option (Key × Value) → Option (Key × Value)
forget k none = none
forget k (some (k', v)) = if same_key k' k then none else some (k', v)

abbrev map_backend : Backend
map_backend = record {
  Store = Map (Option Value);
  Rejection = Unit {0};
  db_get = λ k s. ok (over s nothing k);
  db_put = λ k v s. ok (map_set k (some v) s);
  db_del = λ k s. ok (map_set k none s);
  db_batch = apply_batch;
  Cache = Option (Key × Value);
  new_cache = λ n. none;
  cache_get = λ k c. (found c k, c);
  cache_set = λ k v c. some (k, v);
  cache_delete = forget;
}

apply_all-after_ops :
    (ops : List BatchDbOp) (s : Map (Option Value))
    → over (apply_all ops s) nothing ≡ after_ops ops (over s nothing)
apply_all-after_ops [] s = refl
apply_all-after_ops (put_op k v ∷ ops) s =
    apply_all-after_ops ops (map_set k (some v) s)
    ∙ ap (after_ops ops) (over-map_set k (some v) s nothing)
apply_all-after_ops (del_op k ∷ ops) s =
    apply_all-after_ops ops (map_set k none s) ∙ ap (after_ops ops) (over-map_set k none s nothing)

apply_batch_ok :
    (ops : List BatchDbOp) (s s' : Map (Option Value))
    → apply_batch ops s ≡ (s', ok tt)
    → over s' nothing ≡ after_ops ops (over s nothing)
apply_batch_ok [] s s' e = ap (λ r. over r.0 nothing) (sym e)
apply_batch_ok (op ∷ []) s s' e =
    ap (λ r. over r.0 nothing) (sym e) ∙ apply_all-after_ops (op ∷ []) s
apply_batch_ok (op ∷ next ∷ ops) s s' e = cc

apply_batch_err :
    (ops : List BatchDbOp) (s s' : Map (Option Value)) (e : Unit {0})
    → apply_batch ops s ≡ (s', err e)
    → (k : Key) → is_written k ops ≡ false
    → over s' nothing k ≡ over s nothing k
apply_batch_err [] s s' e called = cc
apply_batch_err (op ∷ []) s s' e called = cc
apply_batch_err (put_op k' v ∷ next ∷ ops) s s' e called = λ k other.
    let apart : (same_key k k' ≡ false) = ground (arith, other) in
    ap (λ r. over r.0 nothing k) (sym called)
    ∙ ap (λ f. f k) (over-map_set k' (some v) s nothing)
    ∙ rw apart refl
apply_batch_err (del_op k' ∷ next ∷ ops) s s' e called = λ k other.
    let apart : (same_key k k' ≡ false) = ground (arith, other) in
    ap (λ r. over r.0 nothing k) (sym called)
    ∙ ap (λ f. f k) (over-map_set k' none s nothing)
    ∙ rw apart refl

set_kept :
    (k : Key) (v : Value) (c : Option (Key × Value)) (k' : Key) (w : Value)
    → found (some (k, v)) k' ≡ some w
    → update k (some v) (found c) k' ≡ some w
set_kept k v c k' w e = elim (Bool-cases (same_key k' k)) [
  | inl same ↦ rw same (rw same at e)
  | inr other ↦ absurd (ground (arith, rw other at e))
]

forget_kept :
    (k : Key) (c : Option (Key × Value)) (k' : Key) (w : Value)
    → found (forget k c) k' ≡ some w
    → update k none (found c) k' ≡ some w
forget_kept k none k' w e = absurd (ground (arith, e))
forget_kept k (some (k'', v)) k' w e = elim (Bool-cases (same_key k'' k)) [
  | inl same ↦ absurd (ground (arith, rw same at e))
  | inr other ↦ elim (Bool-cases (same_key k' k)) [
    | inr apart ↦ rw apart (rw other at e)
    | inl together ↦ elim (Bool-cases (same_key k' k'')) [
      | inr elsewhere ↦ absurd (ground (arith, rw (other, elsewhere) at e))
      | inl here ↦
          let k_is : k ≡ k'' = sym (same_key_sound k' k together) ∙ same_key_sound k' k'' here in
          let kept : same_key k k ≡ false = rw (← k_is) at other in
          absurd (ground (arith, same_key_refl k, kept))
    ]
  ]
]

map_laws : BackendLaws map_backend
map_laws = record {
  stored = λ s. over s nothing;
  db_get_ok = λ k s o e. ground (arith, e);
  db_put_ok = λ k v s s' e.
      ap (λ x. over x nothing) (sym (ok_unique refl e)) ∙ over-map_set k (some v) s nothing;
  db_del_ok =
      λ k s s' e. ap (λ x. over x nothing) (sym (ok_unique refl e)) ∙ over-map_set k none s nothing;
  db_batch_ok = apply_batch_ok;
  db_batch_err = apply_batch_err;
  cached = found;
  new_cache_empty = λ n k. refl;
  cache_get_found = λ k c. refl;
  cache_get_kept = λ k c k' v e. e;
  cache_set_kept = set_kept;
  cache_delete_kept = forget_kept;
}

-- A state with the key 1 in the database and in the cache, deleted in a checkpoint with the root 9.
abbrev written : Checkpoint
written = record { key_value_map = (1 ∷ [], none) ∷ []; root = 9 ∷ [] }

abbrev one_entry : Option (Key × Value)
one_entry = some (1 ∷ [], 5 ∷ [])

abbrev in_checkpoint : CheckpointDb map_backend
in_checkpoint = record {
  checkpoints = written ∷ [];
  db = (1 ∷ [], some (5 ∷ [])) ∷ [];
  cache = some one_entry;
  stats = no_stats;
}

same_entry :
    (k : Key) (v : Value)
    → found one_entry k ≡ some v
    → over ((1 ∷ [], some (5 ∷ [])) ∷ []) nothing k ≡ some v
same_entry k v e = elim (Bool-cases (same_key k (1 ∷ []))) [
  | inl same ↦ rw same (rw same at e)
  | inr other ↦ absurd (ground (arith, rw other at e))
]

in_checkpoint-IsValid : IsValid map_backend map_laws in_checkpoint
unfolding map_laws
in_checkpoint-IsValid = (((refl, tt), tt), same_entry)

-- The deletion hides the entry of the cache.
hidden : get map_backend (1 ∷ []) in_checkpoint ≡ (in_checkpoint, ok none)
unfolding get
hidden = refl

get-IsRead_example :
    IsRead map_backend map_laws (1 ∷ []) in_checkpoint (get map_backend (1 ∷ []) in_checkpoint)
get-IsRead_example = get-IsRead map_backend map_laws (1 ∷ []) in_checkpoint in_checkpoint-IsValid

put-IsWrite_example :
    IsWrite map_backend map_laws in_checkpoint
      (update_first (2 ∷ []) (some (7 ∷ [])) (view_of map_backend map_laws in_checkpoint))
      (put map_backend (2 ∷ []) (7 ∷ []) in_checkpoint)
    × IsWrite map_backend map_laws in_checkpoint
        (update_first (2 ∷ []) none (view_of map_backend map_laws in_checkpoint))
        (del map_backend (2 ∷ []) in_checkpoint)
put-IsWrite_example =
    put-IsWrite map_backend map_laws (2 ∷ []) (7 ∷ []) in_checkpoint in_checkpoint-IsValid

-- A put, a read, and an inner checkpoint with a deletion that is reverted.
abbrev after_changes : CheckpointDb map_backend
after_changes = record in_checkpoint {
  checkpoints =
      record { key_value_map = (2 ∷ [], some (7 ∷ [])) ∷ []; root = 8 ∷ [] } ∷ written ∷ [];
}

changes : Phase map_backend map_laws (checkpoint map_backend (8 ∷ []) in_checkpoint) after_changes
unfolding run_change checkpoint revert get put del has_checkpoints
changes =
    changed (put_change (2 ∷ []) (7 ∷ []))
      (changed (get_change (1 ∷ [])) (reverted (6 ∷ []) (changed (del_change (2 ∷ [])) idle) idle))

Phase-revert_example :
    IsValid map_backend map_laws (revert map_backend after_changes).0
    × ((revert map_backend after_changes).0.checkpoints ≡ in_checkpoint.checkpoints)
    × ((revert map_backend after_changes).0.db ≡ in_checkpoint.db)
    × (view_of map_backend map_laws (revert map_backend after_changes).0
        ≡ view_of map_backend map_laws in_checkpoint)
    × ((revert map_backend after_changes).1 ≡ some (8 ∷ []))
Phase-revert_example =
    Phase-revert map_backend map_laws (8 ∷ []) in_checkpoint after_changes in_checkpoint-IsValid
      changes

-- A checkpoint of two entries, the batch of which is rejected midway.
abbrev two_entries : Checkpoint
two_entries = record {
  key_value_map = (1 ∷ [], none) ∷ (2 ∷ [], some (7 ∷ [])) ∷ [];
  root = 9 ∷ [];
}

abbrev before_rejection : CheckpointDb map_backend
before_rejection = record in_checkpoint { checkpoints = two_entries ∷ [] }

before_rejection-IsValid : IsValid map_backend map_laws before_rejection
unfolding map_laws
before_rejection-IsValid = (((refl, (refl, tt)), tt), same_entry)

rejected :
    commit map_backend before_rejection
    ≡ some (
      record before_rejection {
        db = (1 ∷ [], none) ∷ [];
        stats = record no_stats { of_db = record no_counts { writes = 2 } };
      },
      err tt,
    )
unfolding commit write_batch batch_ops
rejected = refl

commit-IsCommit_example :
    (r : Outcome map_backend (Unit {0})) × (commit map_backend before_rejection ≡ some r)
    × IsCommit map_backend map_laws before_rejection two_entries r
commit-IsCommit_example =
    commit-IsCommit map_backend map_laws before_rejection two_entries [] before_rejection-IsValid
      refl
