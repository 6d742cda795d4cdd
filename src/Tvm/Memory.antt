-- ===== src/Tvm/Memory.antt =====
-- packages/tvm/src/memory.ts: byte memory that grows on access, in containers of 8192 bytes.
pub mod Bytes
pub mod Access
pub mod ReadWrite
use tvmjs_monorepo.Prelude.{
  ℕ, zero, suc, ◌+◌, ◌-◌, ◌*◌, ◌/◌, ◌%◌, ◌≤◌, ◌<◌, ◌≡◌, Bool, true, false, not, List, [], ◌∷◌, ◌++◌,
  ltb, leb, ◌==◌, length, take, drop, replicate, if◌then◌else◌, Result, ok, err, ◌>>=◌, ◌>>◌,
  throw_if,
}
use tvmjs_monorepo.Tvm.Errors.{TvmError, internal}

unfoldable pub ceil : ℕ → ℕ → ℕ
ceil value ceiling = let r = value % ceiling in if r == 0 then value else value + ceiling - r

abbrev pub container_size : ℕ
container_size = 8192

pub record Memory : Type 0 where
  pub store : List ℕ

-- `new Memory()`
unfoldable pub new : Memory
new = record { store = replicate container_size 0 }

-- `Math.ceil(sizeDiff / CONTAINER_SIZE)`
abbrev pub containers : ℕ → ℕ
containers size_diff = (size_diff + container_size - 1) / container_size

-- `sizeDiff > 0` is `store.length < newSize`.
unfoldable pub extend : ℕ → ℕ → Memory → Memory
unfolding ceil
extend offset size m =
    if size == 0
    then m
    else let new_size = ceil (offset + size) 32 in
      if ltb (length m.store) new_size
      then record m {
        store = m.store ++ replicate (containers (new_size - length m.store) * container_size) 0;
      }
      else m

-- `store.set(value, offset)` where the value fits.
unfoldable pub blit : List ℕ → ℕ → List ℕ → List ℕ
blit store offset value = take offset store ++ (value ++ drop (offset + length value) store)

unfoldable pub write : ℕ → ℕ → List ℕ → Memory → Result TvmError Memory
write offset size value m =
    if size == 0
    then ok m
    else let m' = extend offset size m in
      if not (length value == size)
      then err internal
      else if ltb (length m'.store) (offset + size)
      then err internal
      else ok (record m' { store = blit m'.store offset value })

-- `store.subarray(offset, offset + size)`
unfoldable pub subarray : List ℕ → ℕ → ℕ → List ℕ
subarray store offset size = take size (drop offset store)

-- `new Uint8Array(size)` with `loaded` copied to its start; `loaded` is never longer.
unfoldable pub padded : ℕ → List ℕ → List ℕ
padded size loaded = loaded ++ replicate (size - length loaded) 0

-- With `avoidCopy` the result is a view into the store, which shows the same bytes at that time.
unfoldable pub read : ℕ → ℕ → Bool → Memory → List ℕ × Memory
unfolding subarray padded
read offset size avoid_copy m =
    let m' = extend offset size m in
    let loaded = subarray m'.store offset size in
    (if avoid_copy then loaded else padded size loaded, m')
