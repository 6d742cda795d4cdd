-- ===== src/Tvm/Memory/ReadWrite.antt =====
-- What `write` stores and what `read` returns.
use tvmjs_monorepo.Prelude.{
  ℕ, zero, suc, ◌+◌, ◌-◌, ◌≤◌, ◌<◌, ◌≡◌, ◌≢◌, refl, ap, ◌∙◌, sym, Bool, true, false, List, [], ◌∷◌,
  ◌==◌, length, drop, if◌then◌else◌, ok, err, arith, length-take, length-drop, Bool-cases, inl, inr,
  append-nil, ap₂, ◌⊎◌, ok_unique,
}
use mathlib.Core.Path.{subst}
use native.Mathlib.Nat.{sub_self, add-sub_cancel_left}
use tvmjs_monorepo.Tvm.Errors.{internal}
use tvmjs_monorepo.Tvm.Memory.{Memory, extend, blit, write, subarray, padded, read}
use tvmjs_monorepo.Tvm.Memory.Bytes.{byte_at, byte_at-take, byte_at-drop, byte_ext}
use tvmjs_monorepo.Tvm.Memory.Access.{
  IsAligned, byte_at-extend, extend_covers, in_range, byte_at-blit, length-blit,
}

-- The bytes of a range of addresses.
unfoldable pub window : Memory → ℕ → ℕ → List ℕ
window m offset zero = []
window m offset (suc size) = byte_at m.store offset ∷ window m (offset + 1) size

pub length-window : (m : Memory) (offset size : ℕ) → length (window m offset size) ≡ size
unfolding window
length-window m offset zero = refl
length-window m offset (suc size) = ap suc (length-window m (offset + 1) size)

pub byte_at-window :
    (m : Memory) (offset size i : ℕ)
    → i < size
    → byte_at (window m offset size) i ≡ byte_at m.store (offset + i)
unfolding window
byte_at-window m offset zero i h = elim h [ ]
byte_at-window m offset (suc size) zero h = ap (byte_at m.store) (omega arith)
byte_at-window m offset (suc size) (suc i) h =
    byte_at-window m (offset + 1) size i (omega arith) ∙ ap (byte_at m.store) (omega arith)

-- The range changes, every other byte stays, the memory does not shrink and stays a whole number of
-- containers.
pub record Stores (offset : ℕ) (value : List ℕ) (m m' : Memory) : Type 0 where
  pub bytes :
      (i : ℕ)
      → byte_at m'.store i ≡ (
          if in_range offset (length value) i
          then byte_at value (i - offset)
          else byte_at m.store i)
  pub grows : length m.store ≤ length m'.store
  pub aligned : IsAligned m → IsAligned m'

module _ (offset : ℕ) (value : List ℕ) (m : Memory) where
  stored : Memory
  unfolding extend
  stored =
      let m' = extend offset (length value) m in record m' { store = blit m'.store offset value }

  stored-Stores : length value ≢ 0 → Stores offset value m stored
  unfolding stored
  stored-Stores ne =
      let (covers, grows, aligned) = extend_covers offset (length value) m in
      let store = (extend offset (length value) m).store in
      let same = length-blit store offset value (covers ne) in
      record {
        bytes = λ i. ground (
          arith,
          byte_at-blit store offset value i (covers ne),
          byte_at-extend offset (length value) m i,
        );
        grows = omega (arith, same, grows);
        aligned = λ a. rw same (aligned a);
      }

  -- A write of a value of the announced size succeeds in every memory: the bytes of the range
  -- become those of the value, every other byte stays, the memory does not shrink, and it stays a
  -- whole number of containers.
  pub write_ok :
      (m' : Memory) × (write offset (length value) value m ≡ ok m') × Stores offset value m m'
  unfolding write
  write_ok = elim (Bool-cases (length value == 0)) [
    | inl empty ↦
        (m, rw empty, record { bytes = λ i. ground arith; grows = omega arith; aligned = λ a. a })
    | inr some ↦
        let (covers, _, _) = extend_covers offset (length value) m in
        (stored, unfold stored in ground (arith, covers), stored-Stores (ground arith))
  ]

  -- A value of another size throws, unless the announced size is 0, which changes nothing.
  pub write_rejects :
      (size : ℕ)
      → length value ≢ size
      → write offset size value m ≡ (if size == 0 then ok m else err internal)
  unfolding write
  write_rejects size ne = ground arith

-- Growing keeps every window.
pub window-extend :
    (o n : ℕ) (m : Memory) (offset size : ℕ)
    → window (extend o n m) offset size ≡ window m offset size
unfolding window
window-extend o n m offset zero = refl
window-extend o n m offset (suc size) =
    cc (byte_at-extend o n m offset, window-extend o n m (offset + 1) size)

subarray-window :
    (m : Memory) (offset size : ℕ)
    → offset + size ≤ length m.store
    → subarray m.store offset size ≡ window m offset size
unfolding subarray
subarray-window m offset size h =
    byte_ext _ _
      (omega (
        arith,
        length-take size (drop offset m.store),
        length-drop offset m.store,
        length-window m offset size,
      ))
      (λ i hi. ground (
        arith,
        byte_at-take size (drop offset m.store) i,
        byte_at-drop offset m.store i,
        byte_at-window m offset size i,
        length-take size (drop offset m.store),
      ))

loaded-window :
    (m : Memory) (offset size : ℕ)
    → subarray (extend offset size m).store offset size ≡ window m offset size
loaded-window m offset zero = unfold subarray window in refl
loaded-window m offset (suc size) =
    subarray-window (extend offset (suc size) m) offset (suc size)
      ((extend_covers offset (suc size) m).0 (omega arith))
    ∙ window-extend offset (suc size) m offset (suc size)

padded-window :
    (m : Memory) (offset size : ℕ) → padded size (window m offset size) ≡ window m offset size
unfolding padded
padded-window m offset size = rw (length-window, sub_self, append-nil)

-- With and without the copy, a read returns the bytes of its range, zeros beyond the store, and
-- changes no byte.
pub read_lem :
    (offset size : ℕ) (avoid_copy : Bool) (m : Memory)
    → ((read offset size avoid_copy m).0 ≡ window m offset size)
      × ((i : ℕ) → byte_at (read offset size avoid_copy m).1.store i ≡ byte_at m.store i)
unfolding read
read_lem offset size true m = (loaded-window m offset size, byte_at-extend offset size m)
read_lem offset size false m =
    (rw (loaded-window m offset size) (padded-window m offset size), byte_at-extend offset size m)

pub window-Stores_self :
    (offset : ℕ) (value : List ℕ) (m m' : Memory)
    → Stores offset value m m'
    → window m' offset (length value) ≡ value
window-Stores_self offset value m m' h =
    byte_ext _ _ (length-window m' offset (length value)) (λ i hi. ground (
      arith,
      length-window m' offset (length value),
      byte_at-window m' offset (length value) i,
      h.bytes (offset + i),
      ap (byte_at value) (add-sub_cancel_left offset i),
    ))

window-Stores_disjoint :
    (offset : ℕ) (value : List ℕ) (m m' : Memory) (o size : ℕ)
    → Stores offset value m m'
    → (o + size ≤ offset) ⊎ (offset + length value ≤ o)
    → window m' o size ≡ window m o size
unfolding window
window-Stores_disjoint offset value m m' o zero h d = refl
window-Stores_disjoint offset value m m' o (suc size) h d =
    ap₂ ◌∷◌ (ground (arith, h.bytes o))
      (window-Stores_disjoint offset value m m' (o + 1) size h (omega arith))

written :
    (offset : ℕ) (value : List ℕ) (m m' : Memory)
    → write offset (length value) value m ≡ ok m'
    → Stores offset value m m'
written offset value m m' e =
    let (m'', e', st) = write_ok offset value m in subst (Stores offset value m) (ok_unique e' e) st

-- After a write of a value, a read of the written range returns the value, with and without the
-- copy.
pub read-write :
    (offset : ℕ) (value : List ℕ) (m m' : Memory) (c : Bool)
    → write offset (length value) value m ≡ ok m'
    → (read offset (length value) c m').0 ≡ value
read-write offset value m m' c e =
    (read_lem offset (length value) c m').0
    ∙ window-Stores_self offset value m m' (written offset value m m' e)

-- After a write, a read of a range that is disjoint from the written one returns what it returned
-- before the write.
pub read-write_disjoint :
    (offset : ℕ) (value : List ℕ) (m m' : Memory) (o size : ℕ) (c : Bool)
    → write offset (length value) value m ≡ ok m'
    → (o + size ≤ offset) ⊎ (offset + length value ≤ o)
    → (read o size c m').0 ≡ (read o size c m).0
read-write_disjoint offset value m m' o size c e d =
    (read_lem o size c m').0
    ∙ window-Stores_disjoint offset value m m' o size (written offset value m m' e) d
    ∙ sym (read_lem o size c m).0
