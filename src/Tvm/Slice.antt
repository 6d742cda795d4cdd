-- ===== src/Tvm/Slice.antt =====
-- packages/tvm/src/opcodes/util.ts: slices of data that may reach beyond its end.
use tvmjs_monorepo.Prelude.{
  ℕ, zero, suc, [], ◌∷◌, ◌≤◌, ◌+◌, ◌-◌, ◌<◌, ◌≡◌, refl, ◌∙◌, List, ◌++◌, length, take, drop,
  replicate, ltb, if◌then◌else◌, Result, ok, false, arith, length-take, length-drop, length-append,
  length-replicate,
}
use tvmjs_monorepo.Util.Bytes.{BytesError, set_length_right}
use tvmjs_monorepo.Util.Bytes.Numbers.{set_length_right_lem}
use tvmjs_monorepo.Tvm.Memory.Bytes.{byte_at, byte_at-append_zeros, byte_at-take, byte_at-drop}

-- `getDataSlice`
unfoldable pub get_data_slice : List ℕ → ℕ → ℕ → Result BytesError (List ℕ)
get_data_slice data_bytes offset len =
    let size = length data_bytes in
    let start = if ltb size offset then size else offset in
    let stop = if ltb size (start + len) then size else start + len in
    set_length_right (take (stop - start) (drop start data_bytes)) len false

pub byte_at-beyond : (xs : List ℕ) (i : ℕ) → length xs ≤ i → byte_at xs i ≡ 0
byte_at-beyond [] i h = refl
byte_at-beyond (x ∷ xs) zero h = elim h [ ]
byte_at-beyond (x ∷ xs) (suc i) h = byte_at-beyond xs i (omega arith)

-- Exactly `len` bytes, which are those of the data from `offset` on, and zeros beyond its end.
pub get_data_slice_lem :
    (xs : List ℕ) (offset len : ℕ)
    → (bs : List ℕ) × (get_data_slice xs offset len ≡ ok bs)
      × (length bs ≡ len)
      × ((i : ℕ) → i < len → byte_at bs i ≡ byte_at xs (offset + i))
unfolding get_data_slice
get_data_slice_lem xs offset len = (
  padded,
  set_length_right_lem kept len measured,
  omega (
    arith,
    measured,
    length-append kept (replicate {0} {A = ℕ} (len - length kept) 0),
    length-replicate {0} {A = ℕ} (len - length kept) 0,
  ),
  λ i h.
      byte_at-append_zeros kept (len - length kept) i
      ∙ byte_at-take (stop - start) (drop start xs) i
      ∙ ground (
        arith,
        byte_at-drop start xs i,
        byte_at-beyond xs (offset + i),
        byte_at-beyond xs (start + i),
      ),
)
  where
    start : ℕ
    start = if ltb (length xs) offset then length xs else offset

    stop : ℕ
    stop = if ltb (length xs) (start + len) then length xs else start + len

    kept : List ℕ
    kept = take (stop - start) (drop start xs)

    padded : List ℕ
    padded = kept ++ replicate (len - length kept) 0

    measured : length kept ≤ len
    measured = ground (arith, length-take (stop - start) (drop start xs), length-drop start xs)
