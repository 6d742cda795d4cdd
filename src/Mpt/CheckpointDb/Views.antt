-- ===== src/Mpt/CheckpointDb/Views.antt =====
-- What packages/mpt/src/db/checkpointDB.ts stands for: a stack of contents, the newest first, each a
-- value or none for every key.
use tvmjs_monorepo.Prelude.{
  ◌≡◌, refl, sym, ap, ◌∙◌, fun_ext, Bool, true, false, ◌||◌, List, [], ◌∷◌, if◌then◌else◌, Option,
  some, none, Bool-cases, inl, inr, arith,
}
use tvmjs_monorepo.Prelude.Maps.{
  Map, map_get, map_set, same_key, same_key_refl, same_key_sound, map_get-map_set,
}
use tvmjs_monorepo.Mpt.CheckpointDb.{
  Key, Value, BatchDbOp, put_op, del_op, Checkpoint, find_checkpointed, set_newest, batch_ops,
  merge,
}

abbrev pub Contents : Type 0
Contents = Key → Option Value

abbrev pub or_else : Option (Option Value) → Option Value → Option Value
or_else none other = other
or_else (some value) other = value

-- A write, and the writes of a checkpoint.
abbrev pub update : Key → Option Value → Contents → Contents
update k o f k' = if same_key k' k then o else f k'

abbrev pub over : Map (Option Value) → Contents → Contents
over m f k = or_else (map_get k m) (f k)

abbrev pub contents : List Checkpoint → Contents → Contents
contents [] f = f
contents (c ∷ older) f = over c.key_value_map (contents older f)

unfoldable pub view : List Checkpoint → Contents → List Contents
view [] f = f ∷ []
view (c ∷ older) f = contents (c ∷ older) f ∷ view older f

-- The keys of a `Map` are distinct.
abbrev pub IsMap : Map (Option Value) → Type 0
IsMap [] = Unit {0}
IsMap ((k, o) ∷ m) = (map_get k m ≡ none) × IsMap m

abbrev pub AreMaps : List Checkpoint → Type 0
AreMaps [] = Unit {0}
AreMaps (c ∷ older) = IsMap c.key_value_map × AreMaps older

same_key-sym : (k k' : Key) → same_key k k' ≡ false → same_key k' k ≡ false
same_key-sym k k' other = elim (Bool-cases (same_key k' k)) [
  | inr e ↦ e
  | inl same ↦
      let equal = same_key_sound k' k same in
      absurd (ground (arith, same_key_refl k, rw equal at other))
]

map_set-IsMap :
    (k : Key) (o : Option Value) (m : Map (Option Value)) → IsMap m → IsMap (map_set k o m)
map_set-IsMap k o [] h = (refl, tt)
map_set-IsMap k o ((k', o') ∷ m) (fresh, h) = elim (Bool-cases (same_key k k')) [
  | inl same ↦ rw same (fresh, h)
  | inr other ↦
      rw other (rw (map_get-map_set k k' o m, same_key-sym k k' other) fresh, map_set-IsMap k o m h)
]

pub merge-IsMap : (m parent : Map (Option Value)) → IsMap parent → IsMap (merge m parent)
unfolding merge
merge-IsMap [] parent h = h
merge-IsMap ((k, o) ∷ m) parent h = merge-IsMap m (map_set k o parent) (map_set-IsMap k o parent h)

pub set_newest-AreMaps :
    (k : Key) (o : Option Value) (cs : List Checkpoint) → AreMaps cs → AreMaps (set_newest k o cs)
unfolding set_newest
set_newest-AreMaps k o [] h = h
set_newest-AreMaps k o (c ∷ older) (m, h) = (map_set-IsMap k o c.key_value_map m, h)

pub over-map_set :
    (k : Key) (o : Option Value) (m : Map (Option Value)) (f : Contents)
    → over (map_set k o m) f ≡ update k o (over m f)
over-map_set k o m f = fun_ext (λ k'. elim (Bool-cases (same_key k' k)) [
  | inl same ↦ rw (map_get-map_set k k' o m, same) refl
  | inr other ↦ rw (map_get-map_set k k' o m, other) refl
])

-- The first write of distinct keys.
over-cons :
    (k : Key) (o : Option Value) (m : Map (Option Value)) (f : Contents)
    → map_get k m ≡ none
    → over m (update k o f) ≡ over ((k, o) ∷ m) f
over-cons k o m f fresh = fun_ext (λ k'. elim (Bool-cases (same_key k' k)) [
  | inl same ↦ let equal = same_key_sound k' k same in rw (same, equal, fresh) refl
  | inr other ↦ rw other refl
])

pub over-merge :
    (m parent : Map (Option Value)) (f : Contents)
    → IsMap m
    → over (merge m parent) f ≡ over m (over parent f)
unfolding merge
over-merge [] parent f h = refl
over-merge ((k, o) ∷ m) parent f (fresh, h) =
    over-merge m (map_set k o parent) f h
    ∙ ap (over m) (over-map_set k o parent f)
    ∙ over-cons k o m (over parent f) fresh

-- What a batch writes.
abbrev pub after_ops : List BatchDbOp → Contents → Contents
after_ops [] f = f
after_ops (put_op k v ∷ ops) f = after_ops ops (update k (some v) f)
after_ops (del_op k ∷ ops) f = after_ops ops (update k none f)

-- The keys of a batch.
abbrev pub is_written : Key → List BatchDbOp → Bool
is_written k [] = false
is_written k (put_op k' v ∷ ops) = same_key k k' || is_written k ops
is_written k (del_op k' ∷ ops) = same_key k k' || is_written k ops

written_masks :
    (k : Key) (m : Map (Option Value)) (x y : Option Value)
    → is_written k (batch_ops m) ≡ true
    → or_else (map_get k m) x ≡ or_else (map_get k m) y
unfolding batch_ops
written_masks k [] x y h = cc
written_masks k ((k', none) ∷ m) x y h = ground (arith, written_masks k m x y)
written_masks k ((k', some v) ∷ m) x y h = ground (arith, written_masks k m x y)

-- What differs below a checkpoint at its keys only is the same above it.
pub over-masked :
    (m : Map (Option Value)) (f g : Contents)
    → ((k : Key) → is_written k (batch_ops m) ≡ false → g k ≡ f k)
    → over m g ≡ over m f
over-masked m f g h = fun_ext (λ k. elim (Bool-cases (is_written k (batch_ops m))) [
  | inl mine ↦ written_masks k m (g k) (f k) mine
  | inr other ↦ ap (or_else (map_get k m)) (h k other)
])

pub after_ops-batch_ops :
    (m : Map (Option Value)) (f : Contents) → IsMap m → after_ops (batch_ops m) f ≡ over m f
unfolding batch_ops
after_ops-batch_ops [] f h = refl
after_ops-batch_ops ((k, none) ∷ m) f (fresh, h) =
    after_ops-batch_ops m (update k none f) h ∙ over-cons k none m f fresh
after_ops-batch_ops ((k, some v) ∷ m) f (fresh, h) =
    after_ops-batch_ops m (update k (some v) f) h ∙ over-cons k (some v) m f fresh

-- The newest contents.
pub find_checkpointed-contents :
    (k : Key) (cs : List Checkpoint) (f : Contents)
    → or_else (find_checkpointed k cs) (f k) ≡ contents cs f k
unfolding find_checkpointed
find_checkpointed-contents k [] f = refl
find_checkpointed-contents k (c ∷ older) f =
    step (map_get k c.key_value_map) (find_checkpointed-contents k older f)
  where
    step :
        (o : Option (Option Value))
        → or_else (find_checkpointed k older) (f k) ≡ contents older f k
        → or_else (elim o [ some value ↦ some value | none ↦ find_checkpointed k older ]) (f k)
          ≡ or_else o (contents older f k)
    step none ih = ih
    step (some v) ih = refl

-- Writing a value that is there.
pub update-same : (k : Key) (o : Option Value) (f : Contents) → f k ≡ o → update k o f ≡ f
update-same k o f e = fun_ext (λ k'. elim (Bool-cases (same_key k' k)) [
  | inl same ↦ let equal = same_key_sound k' k same in rw (same, equal) (sym e)
  | inr other ↦ rw other refl
])

pub view-set_newest_same :
    (k : Key) (o : Option Value) (cs : List Checkpoint) (f : Contents)
    → contents cs f k ≡ o
    → view (set_newest k o cs) f ≡ view cs f
unfolding view set_newest
view-set_newest_same k o [] f e = refl
view-set_newest_same k o (c ∷ older) f e =
    ap (λ g. g ∷ view older f)
      (over-map_set k o c.key_value_map (contents older f)
        ∙ update-same k o (over c.key_value_map (contents older f)) e)

-- A write to the newest contents.
abbrev pub update_first : Key → Option Value → List Contents → List Contents
update_first k o [] = []
update_first k o (f ∷ older) = update k o f ∷ older

pub view-set_newest :
    (k : Key) (o : Option Value) (c : Checkpoint) (older : List Checkpoint) (f : Contents)
    → view (set_newest k o (c ∷ older)) f ≡ update_first k o (view (c ∷ older) f)
unfolding view set_newest
view-set_newest k o c older f =
    ap (λ g. g ∷ view older f) (over-map_set k o c.key_value_map (contents older f))
