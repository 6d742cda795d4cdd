-- ===== src/Tvm/Memory/Access.antt =====
-- Reads, writes and growth, seen byte by byte.
use tvmjs_monorepo.Prelude.{
  ℕ, ◌+◌, ◌-◌, ◌*◌, ◌%◌, ◌≤◌, ◌<◌, ◌≡◌, ◌≢◌, Bool, List, ◌++◌, ltb, leb, ◌&&◌, length, take, drop,
  replicate, if◌then◌else◌, arith, length-append, length-replicate, length-take, length-drop,
}
use tvmjs_monorepo.Tvm.Memory.{Memory, ceil, container_size, containers, extend, blit}
use tvmjs_monorepo.Tvm.Memory.Bytes.{
  byte_at, byte_at-append_zeros, byte_at-append, byte_at-take, byte_at-drop,
}

-- The memory is a whole number of containers.
abbrev pub IsAligned : Memory → Type 0
IsAligned m = length m.store % container_size ≡ 0

-- `ceil` rounds up to the next multiple of 32.
pub ceil_bounds : (n : ℕ) → (n ≤ ceil n 32) × (ceil n 32 < n + 32) × (ceil n 32 % 32 ≡ 0)
unfolding ceil
ceil_bounds n = ground arith

module _ (offset size : ℕ) (m : Memory) where
  -- Growing shows no other bytes.
  pub byte_at-extend : (i : ℕ) → byte_at (extend offset size m).store i ≡ byte_at m.store i
  unfolding extend
  byte_at-extend i = ground (
    arith,
    byte_at-append_zeros m.store
        (containers (ceil (offset + size) 32 - length m.store) * container_size) i,
  )

  -- After growing, a nonempty range lies within the memory, which never shrinks and stays a whole
  -- number of containers.
  pub extend_covers :
      (size ≢ 0 → offset + size ≤ length (extend offset size m).store)
      × (length m.store ≤ length (extend offset size m).store)
      × (IsAligned m → IsAligned (extend offset size m))
  unfolding extend
  extend_covers = ground (
    arith,
    ceil_bounds (offset + size),
    length-append m.store
        (replicate (containers (ceil (offset + size) 32 - length m.store) * container_size) 0),
    length-replicate (containers (ceil (offset + size) 32 - length m.store) * container_size)
        (let z : ℕ = 0 in z),
  )

abbrev pub in_range : ℕ → ℕ → ℕ → Bool
in_range offset size i = leb offset i && ltb i (offset + size)

pub byte_at-blit :
    (store : List ℕ) (offset : ℕ) (value : List ℕ) (i : ℕ)
    → offset + length value ≤ length store
    → byte_at (blit store offset value) i
      ≡ (if in_range offset (length value) i then byte_at value (i - offset) else byte_at store i)
unfolding blit
byte_at-blit store offset value i h = ground (
  arith,
  byte_at-append (take offset store) (value ++ drop (offset + length value) store) i,
  byte_at-append value (drop (offset + length value) store) (i - offset),
  byte_at-take offset store i,
  byte_at-drop (offset + length value) store (i - offset - length value),
  length-take offset store,
)

pub length-blit :
    (store : List ℕ) (offset : ℕ) (value : List ℕ)
    → offset + length value ≤ length store
    → length (blit store offset value) ≡ length store
unfolding blit
length-blit store offset value h = omega (
  arith,
  length-append (take offset store) (value ++ drop (offset + length value) store),
  length-append value (drop (offset + length value) store),
  length-take offset store,
  length-drop (offset + length value) store,
)
