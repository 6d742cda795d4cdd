-- ===== src/Rlp/Integers.antt =====
-- packages/rlp/src/index.ts: numbers given to `encode`.
use tvmjs_monorepo.Prelude.{ℕ, ◌≡◌, ◌≢◌, List, []}
use tvmjs_monorepo.Util.Bytes.{bytes_to_bigint}
use tvmjs_monorepo.Util.Bytes.Leading.{IsLed}

-- The shortest bytes of a number: no bytes for 0, and else no zero in front.
abbrev pub IsShortest : ℕ → List ℕ → Type 0
IsShortest n v = (bytes_to_bigint v ≡ n) × (n ≡ 0 → v ≡ []) × (n ≢ 0 → IsLed v)
