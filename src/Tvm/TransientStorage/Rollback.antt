-- ===== src/Tvm/TransientStorage/Rollback.antt =====
-- A revert takes back every change since its checkpoint.
use tvmjs_monorepo.Prelude.{
  ◌≤◌, ℕ, zero, suc, ◌-◌, ◌≡◌, inl, inr, refl, sym, ap, ◌∙◌, ◌&&◌, Bool, List, [], ◌∷◌, ◌++◌,
  append_assoc, length, length-append, take, drop, some, Option-cases, if◌then◌else◌, Bool-cases,
  Result, ok, err, ◌>>=◌, arith,
}
use tvmjs_monorepo.Prelude.Maps.{
  Map, same_key, same_key_refl, same_key_sound, map_get, map_set, map_get-map_set,
}
use tvmjs_monorepo.Tvm.TransientStorage.{
  TransientStorageError, Modification, modification, Current, TransientStorage, get_in, with_map,
  set_in, get, put, checkpoint, undo, revert,
}

-- The address has a map.
abbrev Has : List ℕ → Current → Type 0
Has addr storage = (m : Map (List ℕ)) × (map_get addr storage ≡ some m)

abbrev pub same_slot : List ℕ → List ℕ → List ℕ → List ℕ → Bool
same_slot a k a' k' = same_key a' a && same_key k' k

-- Where the address has a map, the slot is set, every other slot stays, and no map is lost.
set_in_lem :
    (a k v : List ℕ) (storage : Current)
    → Has a storage
    → (storage' : Current) × (set_in a k v storage ≡ ok storage')
      × ((a' k' : List ℕ)
          → get_in a' k' storage' ≡ (if same_slot a k a' k' then v else get_in a' k' storage))
      × ((a' : List ℕ) → Has a' storage → Has a' storage')
set_in_lem a k v storage (m, h) = (
  map_set a (map_set k v m) storage,
  ground (arith, h),
  λ a' k'. ground (
    arith,
    h,
    map_get-map_set a a' (map_set k v m) storage,
    map_get-map_set k k' v m,
    same_key_sound a' a,
  ),
  λ a' (m', h'). elim (Bool-cases (same_key a' a)) [
    | inl same ↦ (map_set k v m, ground (arith, map_get-map_set a a' (map_set k v m) storage, same))
    | inr other ↦ (m', ground (arith, map_get-map_set a a' (map_set k v m) storage, other, h'))
  ],
)

with_map_lem :
    (a : List ℕ) (storage : Current)
    → Has a (with_map a storage)
      × ((a' k' : List ℕ) → get_in a' k' (with_map a storage) ≡ get_in a' k' storage)
      × ((a' : List ℕ) → Has a' storage → Has a' (with_map a storage))
with_map_lem a storage = elim (Option-cases (map_get a storage)) [
  | inr (m, h) ↦ (
    (m, ground (arith, h)),
    λ a' k'. ground (arith, h),
    λ a' (m', h'). (m', ground (arith, h, h')),
  )
  | inl h ↦ (
    ([], ground (arith, h, map_get-map_set a a [] storage, same_key_refl a)),
    λ a' k'. ground (arith, h, map_get-map_set a a' [] storage, same_key_sound a' a),
    λ a' (m', h'). elim (Bool-cases (same_key a' a)) [
      | inl same ↦ ([], ground (arith, h, map_get-map_set a a' [] storage, same))
      | inr other ↦ (m', ground (arith, h, map_get-map_set a a' [] storage, other, h'))
    ],
  )
]

-- The slot is set, every other slot stays, and the journal has the change with the value before.
pub put_lem :
    (a k v : List ℕ) (s s' : TransientStorage)
    → put a k v s ≡ ok s'
    → (s'.change_journal ≡ modification a k (get_in a k s.storage) ∷ s.change_journal)
      × (s'.indices ≡ s.indices)
      × ((a' k' : List ℕ)
          → get_in a' k' s'.storage ≡ (if same_slot a k a' k' then v else get_in a' k' s.storage))
      × Has a s'.storage
      × ((a' : List ℕ) → Has a' s.storage → Has a' s'.storage)
unfolding put
put_lem a k v s s' e =
    let (has, same, keeps) = with_map_lem a s.storage in
    let (storage', ran, sets, keeps') = set_in_lem a k v (with_map a s.storage) has in
    let result : s' ≡ record s {
      storage = storage';
      change_journal = modification a k (get_in a k (with_map a s.storage)) ∷ s.change_journal;
    } =
      ground (arith, ran, e) in
    rw result (
      ap (λ x. modification a k x ∷ s.change_journal) (same a k),
      refl,
      λ a' k'. ground (arith, sets a' k', same a' k'),
      keeps' a has,
      λ a' h. keeps' a' (keeps a' h),
    )

-- One `put` after another.
unfoldable pub puts :
    List (List ℕ × List ℕ × List ℕ)
    → TransientStorage
    → Result TransientStorageError TransientStorage
puts [] s = ok s
puts ((a, k, v) ∷ rest) s = put a k v s >>= puts rest

undo-append :
    (xs ys : List Modification) (storage : Current)
    → undo (xs ++ ys) storage ≡ (undo xs storage >>= undo ys)
unfolding undo
undo-append [] ys storage = refl
undo-append (x ∷ xs) ys storage =
    step (set_in x.addr x.key x.prev_value storage) (undo-append xs ys)
  where
    step :
        (r : Result TransientStorageError Current)
        → ((t : Current) → undo (xs ++ ys) t ≡ (undo xs t >>= undo ys))
        → (r >>= undo (xs ++ ys)) ≡ (r >>= undo xs >>= undo ys)
    step (err e) later = refl
    step (ok storage') later = later storage'

-- The changes that a run of puts adds to the journal can be undone, which gives the values before.
abbrev Undone : TransientStorage → TransientStorage → Type 0
Undone s s' =
    (changes : List Modification) × (s'.change_journal ≡ changes ++ s.change_journal)
    × (s'.indices ≡ s.indices)
    × (storage : Current) × (undo changes s'.storage ≡ ok storage)
    × ((a k : List ℕ) → get_in a k storage ≡ get_in a k s.storage)
    × ((a : List ℕ) → Has a s.storage → Has a storage)

first_put :
    (a k v : List ℕ) (s s' : TransientStorage)
    → put a k v s ≡ ok s'
    → (t : TransientStorage) → Undone s' t
    → Undone s t
unfolding undo
first_put a k v s s' e t (changes, journal, indices, storage, undone, values, keeps) =
    let (journal', indices', sets, has, keeps') = put_lem a k v s s' e in
    let prev = get_in a k s.storage in
    let (storage', ran, sets', keeps'') = set_in_lem a k prev storage (keeps a has) in
    (
      changes ++ modification a k prev ∷ [],
      journal
          ∙ ap (changes ++◌) journal'
          ∙ sym (append_assoc changes (modification a k prev ∷ []) s.change_journal),
      indices ∙ indices',
      storage',
      undo-append changes (modification a k prev ∷ []) t.storage ∙ ground (arith, undone, ran),
      λ a' k'.
          ground (
            arith,
            sets' a' k',
            values a' k',
            sets a' k',
            same_key_sound a' a,
            same_key_sound k' k,
          ),
      λ a' h. keeps'' a' (keeps a' (keeps' a' h)),
    )

puts-Undone :
    (ops : List (List ℕ × List ℕ × List ℕ)) (s s' : TransientStorage)
    → puts ops s ≡ ok s'
    → Undone s s'
unfolding puts undo
puts-Undone [] s s' e =
    let same : s' ≡ s = ground (arith, e) in
    rw same ([], refl, refl, s.storage, refl, λ a k. refl, λ a h. h)
puts-Undone ((a, k, v) ∷ rest) s s' e = step (put a k v s) refl (λ t. puts-Undone rest t s')
  where
    step :
        (r : Result TransientStorageError TransientStorage)
        → put a k v s ≡ r
        → ((t : TransientStorage) → puts rest t ≡ ok s' → Undone t s')
        → Undone s s'
    step (err x) q later = absurd (ground (arith, q, e))
    step (ok t) q later = first_put a k v s t q s' (later t (ground (arith, q, e)))

take-append_length : (xs ys : List Modification) (n : ℕ) → n ≡ length xs → take n (xs ++ ys) ≡ xs
take-append_length [] ys zero e = refl
take-append_length [] ys (suc n) e = absurd (omega arith)
take-append_length (x ∷ xs) ys zero e = absurd (omega arith)
take-append_length (x ∷ xs) ys (suc n) e = ap (x ∷◌) (take-append_length xs ys n (omega arith))

drop-append_length : (xs ys : List Modification) (n : ℕ) → n ≡ length xs → drop n (xs ++ ys) ≡ ys
drop-append_length [] ys zero e = refl
drop-append_length [] ys (suc n) e = absurd (omega arith)
drop-append_length (x ∷ xs) ys zero e = absurd (omega arith)
drop-append_length (x ∷ xs) ys (suc n) e = drop-append_length xs ys n (omega arith)

-- After a checkpoint and any run of puts that succeed, a revert succeeds and restores every value,
-- the journal of changes and the indices of the checkpoints that there were.
pub revert-puts :
    (ops : List (List ℕ × List ℕ × List ℕ)) (s s' : TransientStorage)
    → puts ops (checkpoint s) ≡ ok s'
    → (t : TransientStorage) × (revert s' ≡ ok t)
      × ((a k : List ℕ) → get a k t ≡ get a k s)
      × (t.change_journal ≡ s.change_journal)
      × (t.indices ≡ s.indices)
unfolding revert checkpoint get
revert-puts ops s s' e =
    let (changes, journal, indices, storage, undone, values, keeps) =
      puts-Undone ops (checkpoint s) s' e in
    let n = length s'.change_journal - length s.change_journal in
    let count : n ≡ length changes =
      omega (arith, ap length journal, length-append changes s.change_journal) in
    let taken : take n s'.change_journal ≡ changes =
      ap (take n) journal ∙ take-append_length changes s.change_journal n count in
    let dropped : drop n s'.change_journal ≡ s.change_journal =
      ap (drop n) journal ∙ drop-append_length changes s.change_journal n count in
    (
      record { storage = storage; change_journal = s.change_journal; indices = s.indices },
      ground (arith, indices, taken, dropped, undone),
      values,
      refl,
      refl,
    )

-- After a put that succeeds, its slot has the value that was put, and every other slot of every
-- address has the value that it had.
pub get-put :
    (a k v : List ℕ) (s s' : TransientStorage) (a' k' : List ℕ)
    → put a k v s ≡ ok s'
    → get a' k' s' ≡ (if same_slot a k a' k' then v else get a' k' s)
unfolding get
get-put a k v s s' a' k' e = (put_lem a k v s s' e).2 a' k'

-- A key of 32 bytes and a value of at most 32 are put.
pub put_ok :
    (a k v : List ℕ) (s : TransientStorage)
    → length k ≡ 32
    → length v ≤ 32
    → (s' : TransientStorage) × (put a k v s ≡ ok s')
unfolding put
put_ok a k v s hk hv =
    let (has, same, keeps) = with_map_lem a s.storage in
    let (storage', ran, sets, keeps') = set_in_lem a k v (with_map a s.storage) has in
    (
      record s {
        storage = storage';
        change_journal = modification a k (get_in a k (with_map a s.storage)) ∷ s.change_journal;
      },
      ground (arith, ran),
    )
