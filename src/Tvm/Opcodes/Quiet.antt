-- ===== src/Tvm/Opcodes/Quiet.antt =====
-- packages/tvm/src/opcodes/functions.ts: no modelled handler that returns changes the code or adds gas, and all but the
-- jumps move forward.
use tvmjs_monorepo.Prelude.{
  ℕ, zero, suc, ◌+◌, ◌≡◌, ◌≤◌, List, [], ◌∷◌, ◌++◌, some, ok, Bool-cases, inl, inr, ◌==◌, ==_iff,
  arith,
}
use tvmjs_monorepo.Tvm.Ops.Arith.{
  add, mul, sub, div, sdiv, rem, smod, addmod, mulmod, exp, signextend,
}
use tvmjs_monorepo.Tvm.Ops.Logic.{
  lt, gt, slt, sgt, eq, iszero, and, or, xor, not, byte, shl, shr, sar, clz,
}
use tvmjs_monorepo.Tvm.Ops.Context.{
  address, origin, caller, callvalue, calldataload, calldatasize, codesize, returndatasize,
  gasprice, timestamp, number, difficulty, gaslimit, slotnum, chainid, selfbalance, basefee, pc,
  msize, gas,
}
use tvmjs_monorepo.Tvm.Ops.Mem.{
  calldatacopy, codecopy, returndatacopy, drop_item, mload, mstore, mstore8, mcopy,
}
use tvmjs_monorepo.Tvm.Ops.Transient.{tload, tstore}
use tvmjs_monorepo.Tvm.Ops.Flow.{
  jumpdest, push0, dupn, swapn, exchange_op, jump, jumpi, push_n, dup_n, swap_n,
}
use tvmjs_monorepo.Tvm.Ops.Halt.{keccak256, log_n, stop_op, return_op, revert_op}
use tvmjs_monorepo.Tvm.Ops.Flow.{
  read_immediate_byte_or_zero, decode_eip8024_single_immediate, decode_eip8024_pair_immediate,
}
use tvmjs_monorepo.Tvm.Machine.{use_gas, Common, RunState}
use tvmjs_monorepo.Tvm.Run.{Step, lift}
use tvmjs_monorepo.Tvm.Opcodes.Table.{
  entry_at, Handlers, fill_range, arith_handlers, logic_handlers, context_handlers, mem_handlers,
  transient_handlers, flow_handlers, hash_handlers, jump_handlers, halt_handlers, straight_groups,
  joined, straight_handlers,
}

-- What the keys and values of a list all satisfy.
abbrev pub All {ℓ κ} : {V : Type ℓ} → (ℕ → V → Type κ) → List (ℕ × V) → Type κ
All P [] = Unit
All P ((k, v) ∷ rest) = P k v × All P rest

pub All-append {ℓ κ} :
    {V : Type ℓ} (P : ℕ → V → Type κ) (xs ys : List (ℕ × V))
    → All P xs
    → All P ys
    → All P (xs ++ ys)
All-append P [] ys h h' = h'
All-append P ((k, v) ∷ xs) ys (p, h) h' = (p, All-append P xs ys h h')

value_of {ℓ} : {V : Type ℓ} (v w : V) → some w ≡ some v → w ≡ v
value_of v w e = cc

pub entry_at-All {ℓ κ} :
    {V : Type ℓ} (P : ℕ → V → Type κ) (op : ℕ) (xs : List (ℕ × V)) (v : V)
    → All P xs
    → entry_at op xs ≡ some v
    → P op v
unfolding entry_at
entry_at-All P op [] v h e = cc
entry_at-All P op ((k, w) ∷ xs) v (p, h) e = elim (Bool-cases (op == k)) [
  | inl same ↦ let key = (==_iff op k).0 same in rw (key, ← value_of v w (rw same at e)) p
  | inr other ↦ entry_at-All P op xs v h (rw other at e)
]

pub All-fill_range {ℓ κ} :
    {V : Type ℓ} (P : ℕ → V → Type κ) (first n : ℕ) (v : V)
    → ((op : ℕ) → P op v)
    → All P (fill_range first n v)
All-fill_range P first zero v p = tt
All-fill_range P first (suc n) v p = (p (first + n), All-fill_range P first n v p)

abbrev pub IsQuiet : ℕ → Step (Unit {0}) → Type 0
IsQuiet op h =
    (s t : RunState)
    → h s ≡ (t, ok tt)
    → (t.code ≡ s.code) × (t.gas_left ≤ s.gas_left) × (s.program_counter ≤ t.program_counter)

arith-AreQuiet : All IsQuiet arith_handlers
unfolding add mul sub div sdiv rem smod addmod mulmod exp signextend
arith-AreQuiet = (
  λ s t h. ground arith,
  (
    λ s t h. ground arith,
    (
      λ s t h. ground arith,
      (
        λ s t h. ground arith,
        (
          λ s t h. ground arith,
          (
            λ s t h. ground arith,
            (
              λ s t h. ground arith,
              (
                λ s t h. ground arith,
                (λ s t h. ground arith, (λ s t h. ground arith, (λ s t h. ground arith, tt))),
              ),
            ),
          ),
        ),
      ),
    ),
  ),
)

logic-AreQuiet : All IsQuiet logic_handlers
unfolding lt gt slt sgt eq iszero and or xor not byte shl shr sar clz
logic-AreQuiet = (
  λ s t h. ground arith,
  (
    λ s t h. ground arith,
    (
      λ s t h. ground arith,
      (
        λ s t h. ground arith,
        (
          λ s t h. ground arith,
          (
            λ s t h. ground arith,
            (
              λ s t h. ground arith,
              (
                λ s t h. ground arith,
                (
                  λ s t h. ground arith,
                  (
                    λ s t h. ground arith,
                    (
                      λ s t h. ground arith,
                      (
                        λ s t h. ground arith,
                        (
                          λ s t h. ground arith,
                          (λ s t h. ground arith, (λ s t h. ground arith, tt)),
                        ),
                      ),
                    ),
                  ),
                ),
              ),
            ),
          ),
        ),
      ),
    ),
  ),
)

context-AreQuiet : (common : Common) → All IsQuiet (context_handlers common)
unfolding address origin caller callvalue calldataload calldatasize codesize returndatasize gasprice
    timestamp number difficulty gaslimit slotnum chainid selfbalance basefee pc msize gas
context-AreQuiet common = (
  λ s t h. ground arith,
  (
    λ s t h. ground arith,
    (
      λ s t h. ground arith,
      (
        λ s t h. ground arith,
        (
          λ s t h. ground arith,
          (
            λ s t h. ground arith,
            (
              λ s t h. ground arith,
              (
                λ s t h. ground arith,
                (
                  λ s t h. ground arith,
                  (
                    λ s t h. ground arith,
                    (
                      λ s t h. ground arith,
                      (
                        λ s t h. ground arith,
                        (
                          λ s t h. ground arith,
                          (
                            λ s t h. ground arith,
                            (
                              λ s t h. ground arith,
                              (
                                λ s t h. ground arith,
                                (
                                  λ s t h. ground arith,
                                  (
                                    λ s t h. ground arith,
                                    (λ s t h. ground arith, (λ s t h. ground arith, tt)),
                                  ),
                                ),
                              ),
                            ),
                          ),
                        ),
                      ),
                    ),
                  ),
                ),
              ),
            ),
          ),
        ),
      ),
    ),
  ),
)

mem-AreQuiet : All IsQuiet mem_handlers
unfolding calldatacopy codecopy returndatacopy drop_item mload mstore mstore8 mcopy
mem-AreQuiet = (
  λ s t h. ground arith,
  (
    λ s t h. ground arith,
    (
      λ s t h. ground arith,
      (
        λ s t h. ground arith,
        (
          λ s t h. ground arith,
          (λ s t h. ground arith, (λ s t h. ground arith, (λ s t h. ground arith, tt))),
        ),
      ),
    ),
  ),
)

transient-AreQuiet : All IsQuiet transient_handlers
unfolding tload tstore
transient-AreQuiet = (λ s t h. ground arith, (λ s t h. ground arith, tt))

flow-AreQuiet : (common : Common) → All IsQuiet (flow_handlers common)
unfolding jumpdest push0 dupn read_immediate_byte_or_zero decode_eip8024_single_immediate swapn
    exchange_op decode_eip8024_pair_immediate
flow-AreQuiet common = (
  λ s t h. ground arith,
  (
    λ s t h. ground arith,
    (λ s t h. ground arith, (λ s t h. ground arith, (λ s t h. ground arith, tt))),
  ),
)

hash-AreQuiet : (common : Common) → All IsQuiet (hash_handlers common)
unfolding keccak256
hash-AreQuiet common = (λ s t h. ground arith, tt)

push_n-IsQuiet : (common : Common) (op : ℕ) → IsQuiet op (lift (push_n common))
unfolding push_n use_gas
push_n-IsQuiet common op s t h = ground arith

dup_n-IsQuiet : (op : ℕ) → IsQuiet op (lift dup_n)
unfolding dup_n
dup_n-IsQuiet op s t h = ground arith

swap_n-IsQuiet : (op : ℕ) → IsQuiet op (lift swap_n)
unfolding swap_n
swap_n-IsQuiet op s t h = ground arith

log_n-IsQuiet : (op : ℕ) → IsQuiet op (lift log_n)
unfolding log_n
log_n-IsQuiet op s t h = ground arith

halting-AreQuiet : All IsQuiet halt_handlers
unfolding stop_op return_op revert_op
halting-AreQuiet = (λ s t h. ground arith, (λ s t h. ground arith, (λ s t h. ground arith, tt)))

-- A jump that returns keeps the code and the gas.
abbrev pub IsSteady : ℕ → Step (Unit {0}) → Type 0
IsSteady op h = (s t : RunState) → h s ≡ (t, ok tt) → (t.code ≡ s.code) × (t.gas_left ≤ s.gas_left)

pub jumps-AreSteady : All IsSteady jump_handlers
unfolding jump jumpi
jumps-AreSteady = (λ s t h. ground arith, (λ s t h. ground arith, tt))

abbrev EachQuiet : List Handlers → Type 0
EachQuiet [] = Unit
EachQuiet (hs ∷ groups) = All IsQuiet hs × EachQuiet groups

joined-AreQuiet : (groups : List Handlers) → EachQuiet groups → All IsQuiet (joined groups)
joined-AreQuiet [] q = tt
joined-AreQuiet (hs ∷ groups) (q, qs) =
    All-append IsQuiet hs (joined groups) q (joined-AreQuiet groups qs)

groups-AreQuiet : (common : Common) → EachQuiet (straight_groups common)
groups-AreQuiet common = (
  arith-AreQuiet,
  (
    logic-AreQuiet,
    (
      context-AreQuiet common,
      (
        mem-AreQuiet,
        (
          transient-AreQuiet,
          (
            flow-AreQuiet common,
            (
              hash-AreQuiet common,
              (
                halting-AreQuiet,
                (
                  All-fill_range IsQuiet 0x60 32 (lift (push_n common)) (push_n-IsQuiet common),
                  (
                    All-fill_range IsQuiet 0x80 16 (lift dup_n) dup_n-IsQuiet,
                    (
                      All-fill_range IsQuiet 0x90 16 (lift swap_n) swap_n-IsQuiet,
                      (All-fill_range IsQuiet 0xa0 5 (lift log_n) log_n-IsQuiet, tt),
                    ),
                  ),
                ),
              ),
            ),
          ),
        ),
      ),
    ),
  ),
)

pub straight_handlers-AreQuiet : (common : Common) → All IsQuiet (straight_handlers common)
unfolding straight_handlers
straight_handlers-AreQuiet common =
    joined-AreQuiet (straight_groups common) (groups-AreQuiet common)
