-- ===== src/Tvm/Word/Exponent.antt =====
-- Square and multiply computes the power.
use mathlib.Core.Logic.{dif_pos, dif_neg}
use mathlib.Core.WellFounded.{Acc}
use tvmjs_monorepo.Prelude.{
  ℕ, suc, ◌+◌, ◌*◌, ◌/◌, ◌%◌, ◌^◌, ◌<◌, ◌≡◌, sym, ap, ◌∙◌, ◌==◌, arith, dec_lt, Bool-cases, inl,
  inr,
}
use native.Mathlib.Bridge.{le_prop}
use native.Mathlib.Nat.{pow-suc, pow-zero, mul_assoc, mul_comm, mod-eq_of_lt, mul-one}
use tvmjs_monorepo.Prelude.Power.{mod-mul-mod, mul-mod-mod, pow-mod, pow-double}
use tvmjs_monorepo.Prelude.Order.{lt_wf}
use tvmjs_monorepo.Tvm.Word.{two_pow256, halves, exponent_loop, exponentiation}

-- One squaring, with the base reduced.
squared : (N t bas k : ℕ) → t * (bas * bas % N) ^ k % N ≡ t * bas ^ (k + k) % N
squared N t bas k = rw (← mul-mod-mod, pow-mod, pow-double, mul-mod-mod)

multiplied : (N t bas k : ℕ) → t * bas % N * bas ^ (k + k) % N ≡ t * bas ^ suc (k + k) % N
multiplied N t bas k =
    rw (mod-mul-mod, pow-suc, mul_assoc t bas (bas ^ (k + k)), mul_comm bas (bas ^ (k + k)))

exponent_loop_lem :
    (t bas exp : ℕ) (w : Acc ◌<◌ exp)
    → t < two_pow256
    → exponent_loop t bas exp w ≡ t * bas ^ exp % two_pow256
unfolding exponent_loop
exponent_loop_lem t bas exp (Acc.intro _ smaller) h = elim (dec_lt 0 exp) [
  | yes p ↦ rw (dif_pos (dec_lt 0 exp) le_prop p) (elim (Bool-cases (exp % 2 == 0)) [
    | inl even ↦ rw even (
        exponent_loop_lem t _ (exp / 2) (smaller (exp / 2) (halves exp p)) h
        ∙ squared two_pow256 t bas (exp / 2)
        ∙ ap (λ (e : ℕ). t * bas ^ e % two_pow256) (ground arith))
    | inr odd ↦ rw odd (
        exponent_loop_lem (t * bas % two_pow256) _ (exp / 2) (smaller (exp / 2) (halves exp p))
          (omega arith)
        ∙ squared two_pow256 (t * bas % two_pow256) bas (exp / 2)
        ∙ multiplied two_pow256 t bas (exp / 2)
        ∙ ap (λ (e : ℕ). t * bas ^ e % two_pow256) (ground arith))
  ])
  | no p ↦
      rw (dif_neg (dec_lt 0 exp) p)
        (let z : exp ≡ 0 = omega arith in rw (z, pow-zero bas, mul-one) (sym (mod-eq_of_lt h)))
]

-- For every base and exponent the loop ends with the power, reduced.
pub exponentiation_lem : (bas exp : ℕ) → exponentiation bas exp ≡ bas ^ exp % two_pow256
unfolding exponentiation
exponentiation_lem bas exp =
    exponent_loop_lem 1 bas exp (lt_wf.apply exp) (omega arith) ∙ ap (◌% two_pow256) (omega arith)
