-- ===== src/Tvm/TransientStorage.antt =====
-- packages/tvm/src/transientStorage.ts. Addresses and keys are bytes, which the hexadecimal strings of
-- the source stand for. The arrays of changes and of indices are lists here, the newest first.
pub mod Rollback
use tvmjs_monorepo.Prelude.{
  ℕ, ◌-◌, ltb, ◌==◌, Bool, true, false, List, [], ◌∷◌, length, take, drop, replicate, Option, some,
  none, if◌then◌else◌, not, Result, ok, err, ◌>>=◌, ◌>>◌, throw_if,
}
use tvmjs_monorepo.Prelude.Maps.{Map, map_get, map_set}

pub data TransientStorageError : Type 0 where
  key_not_32_bytes value_too_long nothing_to_commit nothing_to_revert type_error :
      TransientStorageError

pub record Modification : Type 0 where
  pub addr : List ℕ
  pub key : List ℕ
  pub prev_value : List ℕ

abbrev pub modification : List ℕ → List ℕ → List ℕ → Modification
modification addr key prev_value = record { addr = addr; key = key; prev_value = prev_value }

abbrev pub Current : Type 0
Current = Map (Map (List ℕ))

pub record TransientStorage : Type 0 where
  pub storage : Current
  pub change_journal : List Modification
  pub indices : List ℕ

-- `new TransientStorage()`
unfoldable pub new : TransientStorage
new = record { storage = []; change_journal = []; indices = 0 ∷ [] }

abbrev pub zeros : List ℕ
zeros = replicate 32 0

-- `map.get(key) ?? new Uint8Array(32)`
abbrev pub value_in : List ℕ → Map (List ℕ) → List ℕ
value_in key m = elim (map_get key m) [ some value ↦ value | none ↦ zeros ]

abbrev pub get_in : List ℕ → List ℕ → Current → List ℕ
get_in addr key storage = elim (map_get addr storage) [ some m ↦ value_in key m | none ↦ zeros ]

unfoldable pub get : List ℕ → List ℕ → TransientStorage → List ℕ
get addr key s = get_in addr key s.storage

-- The map of an address, which `put` adds where there is none.
abbrev pub with_map : List ℕ → Current → Current
with_map addr storage = elim (map_get addr storage) [
  | some m ↦ storage
  | none ↦ map_set addr [] storage
]

-- `this._storage.get(addr)!.set(key, value)`
abbrev pub set_in : List ℕ → List ℕ → List ℕ → Current → Result TransientStorageError Current
set_in addr key value storage = elim (map_get addr storage) [
  | some m ↦ ok (map_set addr (map_set key value m) storage)
  | none ↦ err type_error
]

unfoldable pub put :
    List ℕ → List ℕ → List ℕ → TransientStorage → Result TransientStorageError TransientStorage
put addr key value s = do
  throw_if (not (length key == 32)) key_not_32_bytes
  throw_if (ltb 32 (length value)) value_too_long
  let storage = with_map addr s.storage
  let change = modification addr key (get_in addr key storage)
  storage' ← set_in addr key value storage
  ok (record s { storage = storage'; change_journal = change ∷ s.change_journal })

unfoldable pub commit : TransientStorage → Result TransientStorageError TransientStorage
commit s = elim s.indices [
  | [] ↦ err nothing_to_commit
  | i ∷ rest ↦ ok (record s { indices = rest })
]

unfoldable pub checkpoint : TransientStorage → TransientStorage
checkpoint s = record s { indices = length s.change_journal ∷ s.indices }

-- The loop of `revert` over the changes, the newest first.
unfoldable pub undo : List Modification → Current → Result TransientStorageError Current
undo [] storage = ok storage
undo (change ∷ changes) storage = do
  storage' ← set_in change.addr change.key change.prev_value storage
  undo changes storage'

unfoldable pub revert : TransientStorage → Result TransientStorageError TransientStorage
unfolding undo
revert s = elim s.indices [
  | [] ↦ err nothing_to_revert
  | last_checkpoint ∷ rest ↦
      let n = length s.change_journal - last_checkpoint in
      undo (take n s.change_journal) s.storage >>= λ storage.
      ok (record { storage = storage; change_journal = drop n s.change_journal; indices = rest })
]

unfoldable pub clear : TransientStorage → TransientStorage
clear s = record s { storage = []; change_journal = [] }
