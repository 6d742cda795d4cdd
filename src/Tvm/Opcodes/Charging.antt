-- ===== src/Tvm/Opcodes/Charging.antt =====
-- packages/tvm/src: every program ends.
use tvmjs_monorepo.Prelude.{
  ℕ, ◌<◌, ◌≤◌, ◌≡◌, ◌⊎◌, inl, inr, refl, Bool, true, false, List, [], ◌∷◌, Option, some, none,
  Option-cases, ok, ◌==◌, ◌||◌, if◌then◌else◌, length, arith,
}
use tvmjs_monorepo.Prelude.Effects.{return}
use tvmjs_monorepo.Tvm.Machine.{Common, RunState}
use tvmjs_monorepo.Tvm.Stack.{Stack}
use tvmjs_monorepo.Tvm.Run.{Step, RunResult, run}
use tvmjs_monorepo.Tvm.Run.Ends.{SameFrame, IsCharging, Runs, run-Runs}
use tvmjs_monorepo.Tvm.Opcodes.Codes.{OpcodeEntry}
use tvmjs_monorepo.Tvm.Opcodes.Table.{
  entry_at, handlers, straight_handlers, gas_handlers, or_other, known, opcode_map, invalid_entry,
  opcode_builder, fee_of, Handlers,
}
use tvmjs_monorepo.Tvm.Opcodes.Quiet.{
  All, entry_at-All, IsQuiet, jumps-AreSteady, straight_handlers-AreQuiet,
}
use tvmjs_monorepo.Tvm.Opcodes.Prices.{IsPrice, gas_handlers-ArePrices}

-- JUMP and JUMPI
abbrev pub is_jump : ℕ → Bool
is_jump op = op == 0x56 || op == 0x57

-- What the loop relies on of a handler.
abbrev IsLawful : ℕ → Step (Unit {0}) → Type 0
IsLawful op h =
    (s t : RunState)
    → h s ≡ (t, ok tt)
    → (t.code ≡ s.code)
      × (t.gas_left ≤ s.gas_left)
      × ((is_jump op ≡ true) ⊎ (s.program_counter ≤ t.program_counter))

quiet-AreLawful : (hs : Handlers) → All IsQuiet hs → All IsLawful hs
quiet-AreLawful [] q = tt
quiet-AreLawful ((op, h) ∷ hs) (q, qs) =
    (λ s t e. ((q s t e).0, (q s t e).1, inr (q s t e).2), quiet-AreLawful hs qs)

handlers-AreLawful : (common : Common) → All IsLawful (handlers common)
unfolding handlers
handlers-AreLawful common =
    let (j, (ji, done)) = jumps-AreSteady in
    (
      λ s t e. ((j s t e).0, (j s t e).1, inl refl),
      (
        λ s t e. ((ji s t e).0, (ji s t e).1, inl refl),
        quiet-AreLawful (straight_handlers common) (straight_handlers-AreQuiet common),
      ),
    )

pub priced_lem :
    (price : ℕ → Step ℕ) (op : ℕ)
    → IsPrice op price
    → (dynamic : Bool) (fee : ℕ) (s t : RunState) (gas : ℕ)
    → (if dynamic then price fee else return fee) s ≡ (t, ok gas)
    → SameFrame s t × (fee ≤ gas)
priced_lem price op law true fee s t gas h = law s t fee gas h
priced_lem price op law false fee s t gas h = ground arith

-- What the table is made of: the entries of its opcodes, and the entry that stands for the others.
abbrev pub IsEntry : Common → ℕ → OpcodeEntry → Type 0
IsEntry common op e =
    (entry_at op (opcode_builder common) ≡ some e) ⊎ ((op ≡ 0xfe) × (e ≡ invalid_entry))

-- What a jump costs at least.
least_of : ℕ → ℕ → Stack → ℕ
least_of op fee stack = if is_jump op then fee else 0

least_of-jump : (op fee : ℕ) (stack : Stack) → is_jump op ≡ true → least_of op fee stack ≡ fee
unfolding least_of
least_of-jump op fee stack jumps = rw jumps refl

least_of-le : (op fee gas : ℕ) (stack : Stack) → fee ≤ gas → least_of op fee stack ≤ gas
unfolding least_of
least_of-le op fee gas stack h = ground arith

module _ (common : Common) (other : ℕ → Step (Unit {0})) (other_gas : ℕ → ℕ → Step ℕ)
    (prices : (op : ℕ) → IsPrice op (other_gas op)) where
  pub or_other-IsPrice :
      (op : ℕ) (o : Option (ℕ → Step ℕ))
      → entry_at op (gas_handlers common) ≡ o
      → IsPrice op (or_other o (other_gas op))
  or_other-IsPrice op (some price) e =
      entry_at-All IsPrice op (gas_handlers common) price (gas_handlers-ArePrices common) e
  or_other-IsPrice op none e = prices op

  -- The entry of an opcode that has a modelled handler.
  known-IsCharging :
      (op : ℕ) (e : OpcodeEntry) (h : Step (Unit {0}))
      → entry_at op (handlers common) ≡ some h
      → (is_jump op ≡ true → 1 ≤ fee_of common op e)
      → IsCharging (known common other other_gas op e)
  unfolding known
  known-IsCharging op e h found costs = record {
    least = least_of op (fee_of common op e);
    prices = λ s t gas q.
        let (same, low) =
          priced_lem (or_other (entry_at op (gas_handlers common)) (other_gas op)) op
            (or_other-IsPrice op (entry_at op (gas_handlers common)) refl) e.dynamic_gas
            (fee_of common op e) s t gas q in
        (same, least_of-le op (fee_of common op e) gas t.stack low);
    runs = λ s t q.
        let (code, gas, moves) =
          entry_at-All IsLawful op (handlers common) h (handlers-AreLawful common) found s t
            (rw found at q) in
        (
          code,
          omega (arith, gas),
          elim moves [
            | inl jumps ↦ inl (
                omega
                  (arith, gas, costs jumps, least_of-jump op (fee_of common op e) s.stack jumps))
            | inr on ↦ inr on
          ],
        );
  }

  module _
      (jumps_cost : (op : ℕ) (e : OpcodeEntry)
        → entry_at op (opcode_builder common) ≡ some e
        → is_jump op ≡ true
        → 1 ≤ fee_of common op e)
      (others : (op : ℕ) (e : OpcodeEntry)
        → IsEntry common op e
        → entry_at op (handlers common) ≡ none
        → IsCharging (known common other other_gas op e)) where
    entry-IsCharging :
        (op : ℕ) (e : OpcodeEntry)
        → IsEntry common op e
        → (is_jump op ≡ true → 1 ≤ fee_of common op e)
        → IsCharging (known common other other_gas op e)
    entry-IsCharging op e entry costs = elim (Option-cases (entry_at op (handlers common))) [
      | inl absent ↦ others op e entry absent
      | inr (h, found) ↦ known-IsCharging op e h found costs
    ]

    opcode_map-IsCharging : (op : ℕ) → IsCharging (opcode_map common other other_gas op)
    unfolding opcode_map
    opcode_map-IsCharging op = entry_of (entry_at op (opcode_builder common)) refl
      where
        entry_of :
            (o : Option OpcodeEntry)
            → entry_at op (opcode_builder common) ≡ o
            → IsCharging (elim o [
              | some e ↦ known common other other_gas op e
              | none ↦ known common other other_gas 0xfe invalid_entry
            ])
        entry_of (some e) found = entry-IsCharging op e (inl found) (jumps_cost op e found)
        entry_of none absent = entry-IsCharging 0xfe invalid_entry (inr (refl, refl)) (λ h. cc h)

    -- Where JUMP and JUMPI cost something, the prices that are not modelled are not below the base
    -- fee and keep the frame, and for each entry of the table whose handler is not modelled there
    -- is an amount by the stack that the opcode costs at least, such that its handler gives back
    -- no more gas than that, moves backwards only where it gave back less, and keeps the code: a
    -- run of any code from its start, or from a place in it, ends within its fuel, with a result
    -- that the steps lead to.
    pub run-ends :
        (chunk_present : List ℕ → ℕ → Bool) (code : List ℕ) (pc : ℕ) (s : RunState)
        → (pc ≡ 0) ⊎ (pc < length code)
        → (r : RunResult) × (run chunk_present
              (opcode_map common other other_gas)
              common
              code
              (some pc)
              s
            ≡ some r)
          × Runs chunk_present
              (opcode_map common other other_gas)
              common
              (record s { code = code; program_counter = pc; should_do_jump_analysis = true })
              r
    run-ends chunk_present =
        run-Runs chunk_present (opcode_map common other other_gas) common opcode_map-IsCharging
