-- ===== src/Tvm/Ops/Mem/Laws.antt =====
-- What the memory handlers store, load and copy.
use tvmjs_monorepo.Prelude.{
  ℕ, ◌+◌, ◌-◌, ◌%◌, ◌<◌, ◌≡◌, refl, ap, ◌∙◌, true, List, [], ◌∷◌, ◌++◌, arith, length, ◌==◌,
  if◌then◌else◌, Bool-cases, inl, inr, ok, bit_and,
}
use tvmjs_monorepo.Prelude.Bits.{bit_and_mask}
use tvmjs_monorepo.Util.Bytes.{bytes_to_bigint, bigint_to_bytes}
use tvmjs_monorepo.Util.Bytes.Numbers.{set_length_left-bigint_to_bytes}
use tvmjs_monorepo.Tvm.Slice.{get_data_slice, get_data_slice_lem}
use tvmjs_monorepo.Tvm.Memory
use tvmjs_monorepo.Tvm.Memory.{Memory}
use tvmjs_monorepo.Tvm.Memory.Bytes.{byte_at}
use tvmjs_monorepo.Tvm.Memory.Access.{in_range}
use tvmjs_monorepo.Tvm.Memory.ReadWrite.{
  window, length-window, byte_at-window, Stores, write_ok, read_lem,
}
use tvmjs_monorepo.Tvm.Stack.{Stack}
use tvmjs_monorepo.Tvm.Stack.View.{view, IsValid}
use tvmjs_monorepo.Tvm.Stack.Steps.{shrunk, grown, push-grown, len-view, pop_n-shrunk, pop-shrunk}
use tvmjs_monorepo.Tvm.Word.{IsWord}
use tvmjs_monorepo.Tvm.Machine.{Exec, RunState, ◌>>=◌, pop_n, write_memory}
use tvmjs_monorepo.Tvm.Ops.Mem.{
  mload, mstore, mstore8, mcopy, copy_operands, copy_from, calldatacopy, codecopy, returndatacopy,
}

-- The handler returns, it leaves these items on a valid stack and a memory with that property, and
-- changes nothing else.
abbrev pub LeavesMemory {ℓ} : Exec (Unit {0}) → RunState → List ℕ → (Memory → Type ℓ) → Type ℓ
LeavesMemory h s items P =
    (st : Stack) × (m : Memory) × (h s ≡ ok (tt, record s { stack = st; memory = m }))
    × IsValid st
    × (view st ≡ items)
    × P m

module _ (s : RunState) (valid : IsValid s.stack) (vs rest : List ℕ)
    (shows : view s.stack ≡ vs ++ rest) where
  -- A handler that pops its operands and then writes a value to memory.
  writes :
      (n : ℕ) (body : List ℕ → Exec (Unit {0})) (offset : ℕ) (value : List ℕ) (base : Memory)
      → length vs ≡ n
      → body vs (record s { stack = shrunk n s.stack })
        ≡ write_memory offset
            (length value)
            value
            (record s { stack = shrunk n s.stack; memory = base })
      → LeavesMemory (pop_n n >>= body) s rest (Stores offset value base)
  writes n body offset value base e body_lem =
      let (popped, ok_st, shows') = pop_n-shrunk s.stack valid vs rest shows n e in
      let (m, wrote, stores) = write_ok offset value base in
      (shrunk n s.stack, m, ground (arith, popped, body_lem, wrote), ok_st, shows', stores)

-- MLOAD leaves the 32 bytes at the offset as a number, and changes no byte of the memory.
pub mload_lem :
    (s : RunState)
    → IsValid s.stack
    → (offset : ℕ) (rest : List ℕ) → view s.stack ≡ offset ∷ rest
    → LeavesMemory mload s
        (bytes_to_bigint (window s.memory offset 32) ∷ rest)
        (λ m. (i : ℕ) → byte_at m.store i ≡ byte_at s.memory.store i)
unfolding mload
mload_lem s valid offset rest shows =
    let (word, same) = read_lem offset 32 true s.memory in
    let popped = pop-shrunk s.stack offset rest shows in
    let (_, ok_t, shows_t) = pop_n-shrunk s.stack valid (offset ∷ []) rest shows 1 refl in
    let t = shrunk 1 s.stack in
    let v = bytes_to_bigint (window s.memory offset 32) in
    let room : t.len < t.max_height =
      unfold shrunk in
      omega (arith, len-view s.stack valid (offset ∷ []) rest shows, valid.bounded) in
    let (pushed, ok_g, shows_g) = push-grown t ok_t v room in
    (
      grown v t,
      (Memory.read offset 32 true s.memory).1,
      ground (arith, popped, word, pushed),
      ok_g,
      shows_g ∙ ap (v ∷◌) shows_t,
      same,
    )

-- On a valid stack with an offset and a word on top: MSTORE succeeds, pops both, and stores at the
-- offset 32 bytes whose number is the word.
pub mstore_lem :
    (s : RunState)
    → IsValid s.stack
    → (offset word : ℕ) (rest : List ℕ) → view s.stack ≡ offset ∷ word ∷ rest
    → IsWord word
    → (value : List ℕ) × (length value ≡ 32)
      × (bytes_to_bigint value ≡ word)
      × LeavesMemory mstore s rest (Stores offset value s.memory)
unfolding mstore
mstore_lem s valid offset word rest shows hw =
    let (value, padded, len, num) = set_length_left-bigint_to_bytes word 31 hw in
    (
      value,
      len,
      num,
      writes s valid (offset ∷ word ∷ []) rest shows 2 _ offset value s.memory refl
          (ground (arith, padded, len)),
    )

-- On a valid stack with an offset and a word on top: MSTORE8 succeeds, pops both, and stores the
-- lowest byte of the word at the offset.
pub mstore8_lem :
    (s : RunState)
    → IsValid s.stack
    → (offset byte : ℕ) (rest : List ℕ) → view s.stack ≡ offset ∷ byte ∷ rest
    → LeavesMemory mstore8 s rest (Stores offset (byte % 256 ∷ []) s.memory)
unfolding mstore8 bigint_to_bytes
mstore8_lem s valid offset byte rest shows =
    writes s valid (offset ∷ byte ∷ []) rest shows 2 _ offset (byte % 256 ∷ []) s.memory refl
      (rw low refl)
  where
    low : bigint_to_bytes (bit_and byte 255) ≡ byte % 256 ∷ []
    low = ground (arith, bit_and_mask 8 byte)

-- On a valid stack with a destination, a source and a size on top: MCOPY succeeds, pops them, and
-- stores at the destination the bytes that stood at the source before, also where the ranges
-- overlap; every other byte stays.
pub mcopy_lem :
    (s : RunState)
    → IsValid s.stack
    → (dst src size : ℕ) (rest : List ℕ) → view s.stack ≡ dst ∷ src ∷ size ∷ rest
    → LeavesMemory mcopy s rest (λ m.
      (i : ℕ)
      → byte_at m.store i ≡ (
          if in_range dst size i
          then byte_at s.memory.store (src + (i - dst))
          else byte_at s.memory.store i))
unfolding mcopy
mcopy_lem s valid dst src size rest shows =
    let (bs, same) = read_lem src size true s.memory in
    let value = window s.memory src size in
    let (st, m, ran, ok_st, shows', stores) =
      writes s valid (dst ∷ src ∷ size ∷ []) rest shows 3 _ dst value
        (Memory.read src size true s.memory).1 refl
        (ground (arith, bs, length-window s.memory src size)) in
    (
      st,
      m,
      ran,
      ok_st,
      shows',
      λ i. ground (
        arith,
        stores.bytes i,
        same i,
        length-window s.memory src size,
        byte_at-window s.memory src size (i - dst),
      ),
    )

-- The handler stores `size` bytes of `source`, from `offset` on.
abbrev pub Copies : Exec (Unit {0}) → RunState → List ℕ → ℕ → ℕ → ℕ → List ℕ → Type 0
Copies h s rest mem_offset offset size source = LeavesMemory h s rest (λ m.
    (i : ℕ)
    → byte_at m.store i ≡ (
        if in_range mem_offset size i
        then byte_at source (offset + (i - mem_offset))
        else byte_at s.memory.store i))

copy_from_lem :
    (s : RunState)
    → IsValid s.stack
    → (mem_offset offset size : ℕ) (rest : List ℕ)
    → view s.stack ≡ mem_offset ∷ offset ∷ size ∷ rest
    → (source : RunState → List ℕ) → ((st : Stack) → source (record s { stack = st }) ≡ source s)
    → Copies (copy_from source) s rest mem_offset offset size (source s)
copy_from_lem s valid mem_offset offset size rest shows source fixed =
    let (st, m, ran, ok_st, shows', stores) =
      writes s valid vs rest shows 3 (copy_operands source) mem_offset bs s.memory refl runs in
    (st, m, ran, ok_st, shows', λ i. ground (arith, stores.bytes i, len, bytes (i - mem_offset)))
  where
    vs : List ℕ
    vs = mem_offset ∷ offset ∷ size ∷ []

    slice :
        (bs : List ℕ) × (get_data_slice (source s) offset size ≡ ok bs)
        × (length bs ≡ size)
        × ((i : ℕ) → i < size → byte_at bs i ≡ byte_at (source s) (offset + i))
    slice = get_data_slice_lem (source s) offset size

    bs : List ℕ
    bs = slice.0

    len : length bs ≡ size
    len = slice.2

    bytes : (i : ℕ) → i < size → byte_at bs i ≡ byte_at (source s) (offset + i)
    bytes = slice.3

    runs :
        copy_operands source vs (record s { stack = shrunk 3 s.stack })
        ≡ write_memory mem_offset (length bs) bs (record s { stack = shrunk 3 s.stack })
    runs = elim (Bool-cases (size == 0)) [
      | inl empty ↦ unfold Memory.write in ground (arith, len)
      | inr some ↦ ground (arith, slice.1, len, fixed (shrunk 3 s.stack))
    ]

-- On a valid stack with a memory offset, a data offset and a size on top: CALLDATACOPY, CODECOPY
-- and RETURNDATACOPY succeed, pop them, and store that many bytes of the call data, the code and
-- the return data from the data offset on, which read as zeros beyond their end; every other byte
-- of the memory stays.
pub copy_ops :
    (s : RunState)
    → IsValid s.stack
    → (mem_offset offset size : ℕ) (rest : List ℕ)
    → view s.stack ≡ mem_offset ∷ offset ∷ size ∷ rest
    → Copies calldatacopy s rest mem_offset offset size s.env.call_data
      × Copies codecopy s rest mem_offset offset size s.env.code
      × Copies returndatacopy s rest mem_offset offset size s.return_bytes
unfolding calldatacopy codecopy returndatacopy
copy_ops s valid mem_offset offset size rest shows = (
  copy_from_lem s valid mem_offset offset size rest shows _ (λ st. refl),
  copy_from_lem s valid mem_offset offset size rest shows _ (λ st. refl),
  copy_from_lem s valid mem_offset offset size rest shows _ (λ st. refl),
)
