-- ===== src/StateManager/Cache/Checkpoints.antt =====
-- packages/statemanager/src/cache/cache.ts: what checkpoints do to the sets of dirty keys.
use tvmjs_monorepo.Prelude.{
  ℕ, ◌≡◌, refl, sym, ap, ◌∙◌, fun_ext, drop, Bool, List, [], ◌∷◌, Option, some, none, Bool-cases,
  inl, inr,
}
use tvmjs_monorepo.Prelude.Maps.{Map, map_get, same_key, same_key_sound, map_get-map_set}
use tvmjs_monorepo.Tvm.Journal.{Keys, has_key}
use tvmjs_monorepo.StateManager.Cache.{
  Cache, set_unless, set_once, put_dirty, merge_into, commit, restore, revert,
}
use tvmjs_monorepo.StateManager.Cache.Levels.{
  Dirty, over, update, levels_from, is_dirty, levels, dirty-put_dirty,
}

-- The keys of a `Map` are distinct.
abbrev pub IsMap : Map Bool → Type 0
IsMap [] = Unit {0}
IsMap ((k, b) ∷ m) = (map_get k m ≡ none) × IsMap m

over-set_unless_fresh :
    (o : Option Bool) (k : List ℕ) (b : Bool) (m : Map Bool) (f : Dirty) (k' : List ℕ)
    → map_get k m ≡ o
    → over (set_unless o k b m) f k' ≡ over m (update k b f) k'
over-set_unless_fresh (some v) k b m f k' found = elim (Bool-cases (same_key k' k)) [
  | inl same ↦ let equal = same_key_sound k' k same in rw (equal, found) refl
  | inr other ↦ rw other refl
]
over-set_unless_fresh none k b m f k' fresh =
    rw (map_get-map_set k k' b m) (elim (Bool-cases (same_key k' k)) [
      | inl same ↦ let equal = same_key_sound k' k same in rw (same, equal, fresh) refl
      | inr other ↦ rw other refl
    ])

over-cons :
    (k : List ℕ) (b : Bool) (m : Map Bool) (f : Dirty) (k' : List ℕ)
    → update k b (over m f) k' ≡ over ((k, b) ∷ m) f k'
over-cons k b m f k' = elim (Bool-cases (same_key k' k)) [
  | inl same ↦ rw same refl
  | inr other ↦ rw other refl
]

over-merge_into :
    (m parent : Map Bool) (f : Dirty) → over (merge_into m parent) f ≡ over parent (over m f)
unfolding merge_into
over-merge_into [] parent f = refl
over-merge_into ((k, b) ∷ m) parent f =
    over-merge_into m (set_once k b parent) f
    ∙ fun_ext (λ k'. over-set_unless_fresh (map_get k parent) k b parent (over m f) k' refl)
    ∙ ap (over parent) (fun_ext (over-cons k b m f))

-- The entries of distinct keys, in either order.
over-update :
    (k : List ℕ) (b : Bool) (m : Map Bool) (f : Dirty) (k' : List ℕ)
    → map_get k m ≡ none
    → over m (update k b f) k' ≡ over ((k, b) ∷ m) f k'
over-update k b m f k' fresh = elim (Bool-cases (same_key k' k)) [
  | inl same ↦ let equal = same_key_sound k' k same in rw (same, equal, fresh) refl
  | inr other ↦ rw other refl
]

has_key-restore :
    (m : Map Bool) (keys : Keys) (f : Dirty)
    → (λ k. has_key k keys) ≡ f
    → IsMap m
    → (λ k. has_key k (restore m keys)) ≡ over m f
unfolding restore
has_key-restore [] keys f e h = e
has_key-restore ((k, b) ∷ m) keys f e (fresh, h) =
    has_key-restore m (put_dirty k b keys) (update k b f)
      (fun_ext (dirty-put_dirty k b keys) ∙ ap (update k b) e) h
    ∙ fun_ext (λ k'. over-update k b m f k' fresh)

pub levels-commit : (c : Cache) → levels (commit c) ≡ is_dirty c ∷ drop 2 (levels c)
unfolding commit
levels-commit c = merged c.dirty_checkpoints
  where
    merged :
        (cs : List (Map Bool))
        → levels (commit (record c { dirty_checkpoints = cs }))
          ≡ is_dirty c ∷ drop 2 (levels_from (is_dirty c) cs)
    merged [] = refl
    merged (m ∷ []) = refl
    merged (m ∷ parent ∷ older) =
        ap (λ f. is_dirty c ∷ levels_from f older) (over-merge_into m parent (is_dirty c))

abbrev pub AreMaps : List (Map Bool) → Type 0
AreMaps [] = Unit {0}
AreMaps (m ∷ older) = IsMap m × AreMaps older

-- What `revert` should leave: nothing to go back to, or the older sets.
abbrev pub below : List Dirty → Option (List Dirty)
below [] = none
below (f ∷ []) = none
below (f ∷ g ∷ older) = some (g ∷ older)

abbrev pub levels_of : Option Cache → Option (List Dirty)
levels_of none = none
levels_of (some c) = some (levels c)

levels_from-below :
    (f g : Dirty) (cs : List (Map Bool)) → below (f ∷ levels_from g cs) ≡ some (levels_from g cs)
levels_from-below f g [] = refl
levels_from-below f g (m ∷ older) = refl

pub levels-revert :
    (c : Cache) → AreMaps c.dirty_checkpoints → levels_of (revert c) ≡ below (levels c)
unfolding revert
levels-revert c = restored c.dirty_checkpoints
  where
    restored :
        (cs : List (Map Bool))
        → AreMaps cs
        → levels_of (revert (record c { dirty_checkpoints = cs }))
          ≡ below (levels_from (is_dirty c) cs)
    restored [] h = refl
    restored (m ∷ older) (h, rest) =
        ap (λ f. some (levels_from f older)) (has_key-restore m c.dirty_keys (is_dirty c) refl h)
        ∙ sym (levels_from-below (is_dirty c) (over m (is_dirty c)) older)
