-- ===== src/Tvm/Ops/Context/Laws.antt =====
-- What the handlers of the frame, the transaction and the block push.
use tvmjs_monorepo.Prelude.{
  ℕ, zero, suc, ◌+◌, ◌-◌, ◌*◌, ◌^◌, ◌≤◌, ◌<◌, ◌≡◌, refl, sym, ap, ◌∙◌, List, [], ◌∷◌, ◌++◌, arith,
  length, ltb, Option, none, some, if◌then◌else◌, Bool-cases, inl, inr, err, take, drop, replicate,
  length-take, length-append, length-replicate, append_assoc, append-nil,
}
use native.Mathlib.Nat.{pow-suc, pow-zero}
use tvmjs_monorepo.Prelude.Power.{pow-double}
use tvmjs_monorepo.Util.Bytes.{bytes_to_bigint}
use tvmjs_monorepo.Util.Bytes.Numbers.{bytes_to_bigint-snoc}
use tvmjs_monorepo.Tvm.Memory.Bytes.{byte_at, byte_at-append_zeros, byte_at-take, byte_at-drop}
use tvmjs_monorepo.Tvm.Errors.{internal}
use tvmjs_monorepo.Tvm.Stack.View.{view, IsValid}
use tvmjs_monorepo.Tvm.Word.{shift_left}
use tvmjs_monorepo.Tvm.Machine.{Common, RunState, Exec, push}
use tvmjs_monorepo.Tvm.Ops.Frame.{Leaves, replaces_one_at, pushes_value}
use tvmjs_monorepo.Tvm.Ops.Context.{
  word_of, address, origin, caller, callvalue, calldataload, calldatasize, codesize, returndatasize,
  gasprice, timestamp, number, difficulty, gaslimit, slotnum, chainid, selfbalance, basefee, pc,
  msize, gas,
}

-- Zeros at the end scale the number.
bytes_to_bigint-append_zeros :
    (n : ℕ) (xs : List ℕ) → bytes_to_bigint (xs ++ replicate n 0) ≡ bytes_to_bigint xs * 256 ^ n
bytes_to_bigint-append_zeros zero xs = rw (append-nil, pow-zero) (omega arith)
bytes_to_bigint-append_zeros (suc n) xs =
    ap bytes_to_bigint (sym (append_assoc xs (0 ∷ []) (replicate n 0)))
    ∙ bytes_to_bigint-append_zeros n (xs ++ 0 ∷ [])
    ∙ rw (bytes_to_bigint-snoc, pow-suc) (omega arith)

word_from : List ℕ → ℕ → List ℕ
word_from xs i = take 32 (drop i xs) ++ replicate (32 - length (take 32 (drop i xs))) 0

two-pow_bytes : (k : ℕ) → 2 ^ (8 * k) ≡ 256 ^ k
two-pow_bytes k =
    let e : k + k + (k + k) + (k + k + (k + k)) ≡ 8 * k = omega arith in
    sym (pow-double 16 k ∙ pow-double 4 (k + k) ∙ pow-double 2 (k + k + (k + k)) ∙ ap (2 ^◌) e)

word_of_lem :
    (part : List ℕ)
    → length part ≤ 32
    → word_of part ≡ bytes_to_bigint (part ++ replicate (32 - length part) 0)
unfolding shift_left
word_of_lem [] h = unfold bytes_to_bigint in refl
word_of_lem (x ∷ xs) h = elim (Bool-cases (ltb (length (x ∷ xs)) 32)) [
  | inl short ↦ ground (
    arith,
    ap (λ (t : ℕ). bytes_to_bigint (x ∷ xs) * t) (two-pow_bytes (32 - length (x ∷ xs))),
    bytes_to_bigint-append_zeros (32 - length (x ∷ xs)) (x ∷ xs),
  )
  | inr full ↦
      let no_more : 32 - length (x ∷ xs) ≡ 0 = ground arith in
      let same : bytes_to_bigint ((x ∷ xs) ++ replicate (32 - length (x ∷ xs)) 0)
          ≡ bytes_to_bigint (x ∷ xs) =
        rw (no_more, append-nil) refl in
      ground (arith, same)
]

drop-beyond : (xs : List ℕ) (i : ℕ) → length xs ≤ i → drop i xs ≡ []
drop-beyond [] zero h = refl
drop-beyond [] (suc i) h = refl
drop-beyond (x ∷ xs) zero h = elim h [ ]
drop-beyond (x ∷ xs) (suc i) h = drop-beyond xs i (omega arith)

word_from-beyond : (xs : List ℕ) (i : ℕ) → length xs ≤ i → bytes_to_bigint (word_from xs i) ≡ 0
unfolding word_from
word_from-beyond xs i h = rw (drop-beyond xs i h) (unfold bytes_to_bigint in refl)

-- On a valid stack with an offset on top: CALLDATALOAD succeeds and leaves in its place the number
-- of 32 bytes, the highest first, which are those of the call data from the offset on and zeros
-- beyond its end.
pub calldataload_lem :
    (s : RunState)
    → IsValid s.stack
    → (offset : ℕ) (rest : List ℕ) → view s.stack ≡ offset ∷ rest
    → (bs : List ℕ) × (length bs ≡ 32)
      × ((i : ℕ) → byte_at bs i ≡ (if ltb i 32 then byte_at s.env.call_data (offset + i) else 0))
      × Leaves calldataload s (bytes_to_bigint bs ∷ rest)
unfolding calldataload word_from
calldataload_lem s valid offset rest shows = (
  word_from xs offset,
  omega (
    arith,
    measured,
    length-append part (replicate {0} {A = ℕ} (32 - length part) 0),
    length-replicate {0} {A = ℕ} (32 - length part) 0,
  ),
  λ i.
      byte_at-append_zeros part (32 - length part) i
      ∙ ground (arith, byte_at-take 32 (drop offset xs) i, byte_at-drop offset xs i),
  replaces_one_at s valid offset rest shows _ _ (elim (Bool-cases (ltb (length xs) offset)) [
    | inl beyond ↦ ground (arith, word_from-beyond xs offset)
    | inr within ↦ ground (arith, word_of_lem part measured)
  ]),
)
  where
    xs : List ℕ
    xs = s.env.call_data

    part : List ℕ
    part = take 32 (drop offset xs)

    measured : length part ≤ 32
    measured = omega (arith, length-take 32 (drop offset xs))

-- The handler leaves the value that there is, and throws where there is none.
abbrev pub PushesOption : Exec (Unit {0}) → RunState → Option ℕ → Type 0
PushesOption h s none = h s ≡ err internal
PushesOption h s (some v) = Leaves h s (v ∷ view s.stack)

-- Where there is room, the other handlers of this group leave the value of the frame, the transaction
-- or the block that they are named for; PC leaves the address of its own opcode. A missing base fee
-- or slot number throws.
pub context_ops :
    (s : RunState) (common : Common)
    → IsValid s.stack
    → s.stack.len < s.stack.max_height
    → let Pushes = λ (h : Exec (Unit {0})) (v : ℕ). Leaves h s (v ∷ view s.stack) in
      Pushes address (bytes_to_bigint s.env.address)
      × Pushes origin (bytes_to_bigint s.env.origin)
      × Pushes caller (bytes_to_bigint s.env.caller)
      × Pushes callvalue s.env.call_value
      × Pushes calldatasize (length s.env.call_data)
      × Pushes codesize (length s.env.code)
      × Pushes returndatasize (length s.return_bytes)
      × Pushes gasprice s.env.gas_price
      × Pushes timestamp s.env.block_timestamp
      × Pushes number s.env.block_number
      × Pushes
          (difficulty common)
          (if common.is_activated_eip 4399 then bytes_to_bigint s.env.block_prev_randao else 0)
      × Pushes gaslimit s.env.block_gas_limit
      × Pushes chainid s.env.chain_id
      × Pushes selfbalance s.env.contract_balance
      × Pushes pc (s.program_counter - 1)
      × Pushes msize (s.memory_word_count * 32)
      × Pushes gas s.gas_left
      × PushesOption basefee s s.env.block_base_fee
      × PushesOption slotnum s s.env.block_slot_number
unfolding address origin caller callvalue calldatasize codesize returndatasize gasprice timestamp
    number difficulty gaslimit chainid selfbalance pc msize gas basefee slotnum
context_ops s common valid room = (
  put address _ refl,
  put origin _ refl,
  put caller _ refl,
  put callvalue _ refl,
  put calldatasize _ refl,
  put codesize _ refl,
  put returndatasize _ refl,
  put gasprice _ refl,
  put timestamp _ refl,
  put number _ refl,
  put (difficulty common)
      (if common.is_activated_eip 4399 then bytes_to_bigint s.env.block_prev_randao else 0)
      (elim (Bool-cases (common.is_activated_eip 4399)) [
        | inl on ↦ ground (arith, on)
        | inr off ↦ ground (arith, off)
      ]),
  put gaslimit _ refl,
  put chainid _ refl,
  put selfbalance _ refl,
  put pc _ refl,
  put msize _ refl,
  put gas _ refl,
  option basefee s.env.block_base_fee (λ fee e. ground (arith, e)) (λ e. ground (arith, e)),
  option slotnum s.env.block_slot_number (λ slot e. ground (arith, e)) (λ e. ground (arith, e)),
)
  where
    put : (h : Exec (Unit {0})) (v : ℕ) → h s ≡ push v s → Leaves h s (v ∷ view s.stack)
    put h v pushes = pushes_value h s v valid room pushes

    option :
        (h : Exec (Unit {0})) (o : Option ℕ)
        → ((v : ℕ) → o ≡ some v → h s ≡ push v s)
        → (o ≡ none → h s ≡ err internal)
        → PushesOption h s o
    option h none f g = g refl
    option h (some v) f g = put h v (f v refl)
