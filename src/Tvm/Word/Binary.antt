-- ===== src/Tvm/Word/Binary.antt =====
-- The length of the binary representation.
use tvmjs_monorepo.Prelude.{
  ℕ, zero, suc, ◌*◌, ◌/◌, ◌^◌, ◌≤◌, ◌<◌, ◌≡◌, ◌≢◌, refl, arith, ◌==◌, Bool-cases, inl, inr,
}
use tvmjs_monorepo.Prelude.Bits.{two-pow-suc}
use tvmjs_monorepo.Tvm.Word.{digits_loop, binary_length}

digits_loop-zero : (fuel : ℕ) → digits_loop fuel 0 ≡ 0
unfolding digits_loop
digits_loop-zero zero = refl
digits_loop-zero (suc fuel) = refl

digits_loop_bounds :
    (fuel x : ℕ)
    → x ≤ fuel
    → x ≢ 0
    → (x < 2 ^ digits_loop fuel x) × (2 ^ digits_loop fuel x ≤ 2 * x)
unfolding digits_loop
digits_loop_bounds zero x h nz = absurd (nz (omega arith))
digits_loop_bounds (suc fuel) x h nz = elim (Bool-cases (x / 2 == 0)) [
  | inl last ↦ let e : x ≡ 1 = ground arith in rw e (rw (digits_loop-zero fuel) (omega arith))
  | inr more ↦
      ground (
        arith,
        two-pow-suc (digits_loop fuel (x / 2)),
        digits_loop_bounds fuel (x / 2) (omega arith),
      )
]

-- A number that is not 0 has `n` binary digits when 2 ^ (n - 1) ≤ x < 2 ^ n.
pub binary_length_bounds :
    (x : ℕ) → x ≢ 0 → (x < 2 ^ binary_length x) × (2 ^ binary_length x ≤ 2 * x)
unfolding binary_length
binary_length_bounds x = digits_loop_bounds x x (omega arith)
