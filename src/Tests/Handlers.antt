-- ===== src/Tests/Handlers.antt =====
-- The laws of the arithmetic, comparison, shift and context handlers at a frame with 3, 2, 1 on top.
use tvmjs_monorepo.Prelude.{
  ℕ, ◌+◌, ◌-◌, ◌*◌, ◌/◌, ◌%◌, ◌^◌, ◌≤◌, ◌<◌, ◌≡◌, ◌≢◌, ◌⊎◌, inr, [], ◌∷◌, ltb, ◌==◌, if◌then◌else◌,
  arith,
}
use tvmjs_monorepo.Prelude.Int.{negsuc, ◌+ℤ◌, ◌*ℤ◌, pos_part, neg_part}
use tvmjs_monorepo.Tvm.Word.{IsWord, from_twos}
use tvmjs_monorepo.Tvm.Word.Signed.{magnitude}
use tvmjs_monorepo.Tvm.Ops.Frame.{Leaves}
use tvmjs_monorepo.Tvm.Ops.Arith.{add, mul, sub, div, sdiv, rem, smod, exp, signextend}
use tvmjs_monorepo.Tvm.Ops.Arith.Laws.{signed_division_ops, exp_lem, extended, signextend_lem}
use tvmjs_monorepo.Tvm.Ops.Logic.{lt, gt, slt, sgt, iszero, not, byte, shl, shr, sar, clz}
use tvmjs_monorepo.Tvm.Ops.Logic.Shifts.{floor_shift}
use tvmjs_monorepo.Tvm.Ops.Logic.Laws.{biased, byte_from_top, shift_ops, clz_lem}
use tvmjs_monorepo.Tvm.Ops.Words.{word_ops}
use tvmjs_monorepo.Tests.Data.{state, items_3_2_1-IsValid, view_3_2_1}

three-IsWord : IsWord 3
three-IsWord = omega arith

two-IsWord : IsWord 2
two-IsWord = omega arith

word_ops_example :
    (Leaves add state ((3 + 2) % 2 ^ 256 ∷ 1 ∷ [])
      × Leaves mul state (3 * 2 % 2 ^ 256 ∷ 1 ∷ [])
      × Leaves sub state ((3 + (2 ^ 256 - 2)) % 2 ^ 256 ∷ 1 ∷ []))
    × (Leaves div state ((if 2 == 0 then 0 else 3 / 2) ∷ 1 ∷ [])
        × Leaves rem state ((if 2 == 0 then 0 else 3 % 2) ∷ 1 ∷ []))
    × (Leaves lt state ((if ltb 3 2 then 1 else 0) ∷ 1 ∷ [])
        × Leaves gt state ((if ltb 2 3 then 1 else 0) ∷ 1 ∷ [])
        × Leaves slt state ((if ltb (biased 3) (biased 2) then 1 else 0) ∷ 1 ∷ [])
        × Leaves sgt state ((if ltb (biased 2) (biased 3) then 1 else 0) ∷ 1 ∷ []))
    × Leaves byte state (byte_from_top 3 2 ∷ 1 ∷ [])
    × (Leaves not state ((2 ^ 256 - 1 - 3) ∷ 2 ∷ 1 ∷ [])
        × Leaves iszero state ((if 3 == 0 then 1 else 0) ∷ 2 ∷ 1 ∷ []))
word_ops_example =
    word_ops state items_3_2_1-IsValid 3 2 (1 ∷ []) view_3_2_1 three-IsWord two-IsWord

two_ne : ◌≢◌ {A = ℕ} 2 0
two_ne = ground arith

fits : (from_twos 3 ≢ negsuc (2 ^ 255 - 1)) ⊎ (from_twos 2 ≢ negsuc 0)
unfolding from_twos
fits = inr (λ e. ground arith)

signed_division_ops_example :
    (q r : ℕ) × Leaves sdiv state (q ∷ 1 ∷ [])
    × Leaves smod state (r ∷ 1 ∷ [])
    × (from_twos q *ℤ from_twos 2 +ℤ from_twos r ≡ from_twos 3)
    × (magnitude (from_twos r) < magnitude (from_twos 2))
    × (pos_part (from_twos 3) * neg_part (from_twos r) ≡ 0)
    × (neg_part (from_twos 3) * pos_part (from_twos r) ≡ 0)
signed_division_ops_example =
    signed_division_ops state items_3_2_1-IsValid 3 2 (1 ∷ []) view_3_2_1 two_ne two-IsWord fits

exp_lem_example : Leaves exp state (3 ^ 2 % 2 ^ 256 ∷ 1 ∷ [])
exp_lem_example = exp_lem state items_3_2_1-IsValid 3 2 (1 ∷ []) view_3_2_1

signextend_lem_example : Leaves signextend state ((if ltb 3 31 then extended 3 2 else 2) ∷ 1 ∷ [])
signextend_lem_example = signextend_lem state items_3_2_1-IsValid 3 2 (1 ∷ []) view_3_2_1 two-IsWord

shift_ops_example :
    Leaves shl state (2 * 2 ^ 3 % 2 ^ 256 ∷ 1 ∷ [])
    × Leaves shr state (2 / 2 ^ 3 ∷ 1 ∷ [])
    × Leaves sar state (floor_shift 3 2 ∷ 1 ∷ [])
shift_ops_example = shift_ops state items_3_2_1-IsValid 3 2 (1 ∷ []) view_3_2_1 two-IsWord

clz_lem_example :
    (n : ℕ) × Leaves clz state (n ∷ 2 ∷ 1 ∷ [])
    × (((◌≡◌ {A = ℕ} 3 0) × (n ≡ 256)) ⊎ ((2 ^ 255 ≤ 3 * 2 ^ n) × (3 * 2 ^ n < 2 ^ 256)))
clz_lem_example = clz_lem state items_3_2_1-IsValid 3 (2 ∷ 1 ∷ []) view_3_2_1 three-IsWord
