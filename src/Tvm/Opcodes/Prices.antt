-- ===== src/Tvm/Opcodes/Prices.antt =====
-- packages/tvm/src/opcodes/gas.ts: a price is at least the base fee, and asking for it changes neither the
-- stack nor the gas.
use tvmjs_monorepo.Prelude.{ℕ, ◌≡◌, ◌≤◌, ok, arith}
use tvmjs_monorepo.Tvm.Machine.{Common, RunState}
use tvmjs_monorepo.Tvm.Gas.{sub_mem_usage}
use tvmjs_monorepo.Tvm.Gas.Handlers.{
  exp_gas, keccak256_gas, calldatacopy_gas, codecopy_gas, returndatacopy_gas, memory_access_gas,
  mcopy_gas, log_gas, halt_gas,
}
use tvmjs_monorepo.Tvm.Run.{Step, lift}
use tvmjs_monorepo.Tvm.Run.Ends.{SameFrame}
use tvmjs_monorepo.Tvm.Opcodes.Table.{gas_handlers}
use tvmjs_monorepo.Tvm.Opcodes.Quiet.{All, All-fill_range}

abbrev pub IsPrice : ℕ → (ℕ → Step ℕ) → Type 0
IsPrice op price =
    (s t : RunState) (fee gas : ℕ) → price fee s ≡ (t, ok gas) → SameFrame s t × (fee ≤ gas)

sub_mem_usage-SameFrame :
    (offset length : ℕ) (common : Common) (s : RunState) (r : ℕ × RunState)
    → sub_mem_usage offset length common s ≡ ok r
    → SameFrame s r.1
unfolding sub_mem_usage
sub_mem_usage-SameFrame offset length common s r h = ground arith

exp_gas-IsPrice : (common : Common) (op : ℕ) → IsPrice op (λ gas. lift (exp_gas common gas))
unfolding exp_gas
exp_gas-IsPrice common op s t fee gas h = ground arith

keccak256_gas-IsPrice :
    (common : Common) (op : ℕ) → IsPrice op (λ gas. lift (keccak256_gas common gas))
unfolding keccak256_gas
keccak256_gas-IsPrice common op s t fee gas h = grind (arith, sub_mem_usage-SameFrame)

calldatacopy_gas-IsPrice :
    (common : Common) (op : ℕ) → IsPrice op (λ gas. lift (calldatacopy_gas common gas))
unfolding calldatacopy_gas
calldatacopy_gas-IsPrice common op s t fee gas h = grind (arith, sub_mem_usage-SameFrame)

codecopy_gas-IsPrice :
    (common : Common) (op : ℕ) → IsPrice op (λ gas. lift (codecopy_gas common gas))
unfolding codecopy_gas
codecopy_gas-IsPrice common op s t fee gas h = grind (arith, sub_mem_usage-SameFrame)

returndatacopy_gas-IsPrice :
    (common : Common) (op : ℕ) → IsPrice op (λ gas. lift (returndatacopy_gas common gas))
unfolding returndatacopy_gas
returndatacopy_gas-IsPrice common op s t fee gas h = grind (arith, sub_mem_usage-SameFrame)

memory_access_gas-IsPrice :
    (size : ℕ) (common : Common) (op : ℕ)
    → IsPrice op (λ gas. lift (memory_access_gas size common gas))
unfolding memory_access_gas
memory_access_gas-IsPrice size common op s t fee gas h = grind (arith, sub_mem_usage-SameFrame)

mcopy_gas-IsPrice : (common : Common) (op : ℕ) → IsPrice op (λ gas. lift (mcopy_gas common gas))
unfolding mcopy_gas
mcopy_gas-IsPrice common op s t fee gas h = grind (arith, sub_mem_usage-SameFrame)

log_gas-IsPrice : (common : Common) (op : ℕ) → IsPrice op (λ gas. lift (log_gas common gas))
unfolding log_gas
log_gas-IsPrice common op s t fee gas h = grind (arith, sub_mem_usage-SameFrame)

halt_gas-IsPrice : (common : Common) (op : ℕ) → IsPrice op (λ gas. lift (halt_gas common gas))
unfolding halt_gas
halt_gas-IsPrice common op s t fee gas h = grind (arith, sub_mem_usage-SameFrame)

pub gas_handlers-ArePrices : (common : Common) → All IsPrice (gas_handlers common)
unfolding gas_handlers
gas_handlers-ArePrices common = (
  exp_gas-IsPrice common 0x0a,
  (
    keccak256_gas-IsPrice common 0x20,
    (
      calldatacopy_gas-IsPrice common 0x37,
      (
        codecopy_gas-IsPrice common 0x39,
        (
          returndatacopy_gas-IsPrice common 0x3e,
          (
            memory_access_gas-IsPrice 32 common 0x51,
            (
              memory_access_gas-IsPrice 32 common 0x52,
              (
                memory_access_gas-IsPrice 1 common 0x53,
                (
                  mcopy_gas-IsPrice common 0x5e,
                  (
                    halt_gas-IsPrice common 0xf3,
                    (
                      halt_gas-IsPrice common 0xfd,
                      All-fill_range IsPrice 0xa0 5 (λ gas. lift (log_gas common gas))
                          (log_gas-IsPrice common),
                    ),
                  ),
                ),
              ),
            ),
          ),
        ),
      ),
    ),
  ),
)
