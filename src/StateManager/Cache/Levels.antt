-- ===== src/StateManager/Cache/Levels.antt =====
-- packages/statemanager/src/cache/cache.ts as a stack of sets of dirty keys, the newest first.
use tvmjs_monorepo.Prelude.{
  ℕ, ◌≡◌, refl, sym, ap, ◌∙◌, fun_ext, drop, Bool, true, false, List, [], ◌∷◌, if◌then◌else◌, ◌||◌,
  ◌&&◌, not, Option, some, none, Bool-cases, inl, inr,
}
use tvmjs_monorepo.Prelude.Maps.{Map, map_get, same_key, same_key_sound, map_get-map_set}
use tvmjs_monorepo.Tvm.Journal.{Keys, has_key}
use tvmjs_monorepo.Tvm.Journal.KeySets.{has_key-add_key, has_key-delete_key}
use tvmjs_monorepo.StateManager.Cache.{
  Cache, set_unless, set_once, note_first, put_dirty, same_bool, set_dirty,
}

abbrev pub Dirty : Type 0
Dirty = List ℕ → Bool

abbrev pub or_else : Option Bool → Bool → Bool
or_else none b = b
or_else (some a) b = a

abbrev pub over : Map Bool → Dirty → Dirty
over m f k = or_else (map_get k m) (f k)

abbrev pub update : List ℕ → Bool → Dirty → Dirty
update k b f k' = if same_key k' k then b else f k'

abbrev pub levels_from : Dirty → List (Map Bool) → List Dirty
levels_from f [] = f ∷ []
levels_from f (m ∷ older) = f ∷ levels_from (over m f) older

abbrev pub is_dirty : Cache → Dirty
is_dirty c k = has_key k c.dirty_keys

abbrev pub levels : Cache → List Dirty
levels c = levels_from (is_dirty c) c.dirty_checkpoints

pub dirty-put_dirty :
    (k : List ℕ) (b : Bool) (keys : Keys) (k' : List ℕ)
    → has_key k' (put_dirty k b keys) ≡ update k b (λ x. has_key x keys) k'
dirty-put_dirty k true keys k' = rw (has_key-add_key k k' keys) (either (same_key k' k))
  where
    either : (t : Bool) → (t || has_key k' keys) ≡ (if t then true else has_key k' keys)
    either true = refl
    either false = refl
dirty-put_dirty k false keys k' =
    rw (has_key-delete_key k k' keys) (either (same_key k' k) (has_key k' keys))
  where
    either : (t b : Bool) → (b && not t) ≡ (if t then false else b)
    either true true = refl
    either true false = refl
    either false true = refl
    either false false = refl

-- What is recorded first stays.
over-set_unless :
    (o : Option Bool) (k : List ℕ) (was b : Bool) (m : Map Bool) (f : Dirty) (k' : List ℕ)
    → map_get k m ≡ o
    → f k ≡ was
    → over (set_unless o k was m) (update k b f) k' ≡ over m f k'
over-set_unless (some v) k was b m f k' found e = elim (Bool-cases (same_key k' k)) [
  | inl same ↦ let equal = same_key_sound k' k same in rw (equal, found) refl
  | inr other ↦ rw other refl
]
over-set_unless none k was b m f k' fresh e =
    rw (map_get-map_set k k' was m) (elim (Bool-cases (same_key k' k)) [
      | inl same ↦ let equal = same_key_sound k' k same in rw (same, equal, fresh) (sym e)
      | inr other ↦ rw other refl
    ])

over-set_once :
    (k : List ℕ) (was b : Bool) (m : Map Bool) (f : Dirty)
    → f k ≡ was
    → over (set_once k was m) (update k b f) ≡ over m f
over-set_once k was b m f e = fun_ext (λ k'. over-set_unless (map_get k m) k was b m f k' refl e)

-- The levels below a write stay.
levels-note_first :
    (k : List ℕ) (was b : Bool) (cs : List (Map Bool)) (f : Dirty)
    → f k ≡ was
    → levels_from (update k b f) (note_first k was cs) ≡ update k b f ∷ drop 1 (levels_from f cs)
levels-note_first k was b [] f e = refl
levels-note_first k was b (m ∷ older) f e =
    ap (λ g. update k b f ∷ levels_from g older) (over-set_once k was b m f e)

-- A write of what is there.
update-same : (k : List ℕ) (b : Bool) (f : Dirty) → f k ≡ b → update k b f ≡ f
update-same k b f e = fun_ext (λ k'. elim (Bool-cases (same_key k' k)) [
  | inl same ↦ let equal = same_key_sound k' k same in rw (same, equal) (sym e)
  | inr other ↦ rw other refl
])

pub same_bool_sound : (a b : Bool) → same_bool a b ≡ true → a ≡ b
same_bool_sound true b e = sym e
same_bool_sound false true e = e
same_bool_sound false false e = refl

-- A write changes the newest set only, whether or not there is a checkpoint.
pub levels-set_dirty :
    (k : List ℕ) (b : Bool) (c : Cache)
    → levels (set_dirty k b c) ≡ update k b (is_dirty c) ∷ drop 1 (levels c)
unfolding set_dirty
levels-set_dirty k b c = elim (Bool-cases (same_bool (has_key k c.dirty_keys) b)) [
  | inl same ↦
      let there = same_bool_sound (has_key k c.dirty_keys) b same in
      rw same (top (is_dirty c) (update-same k b (is_dirty c) there) c.dirty_checkpoints)
  | inr differ ↦ rw differ (
      ap (λ f. levels_from f (note_first k (has_key k c.dirty_keys) c.dirty_checkpoints))
        (fun_ext (dirty-put_dirty k b c.dirty_keys))
      ∙ levels-note_first k (has_key k c.dirty_keys) b c.dirty_checkpoints (is_dirty c) refl)
]
  where
    top :
        {g : Dirty} (f : Dirty)
        → g ≡ f
        → (cs : List (Map Bool)) → levels_from f cs ≡ g ∷ drop 1 (levels_from f cs)
    top f e [] = ap (λ h. h ∷ []) (sym e)
    top f e (m ∷ older) = ap (λ h. h ∷ levels_from (over m f) older) (sym e)
