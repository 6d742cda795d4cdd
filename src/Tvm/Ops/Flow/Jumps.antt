-- ===== src/Tvm/Ops/Flow/Jumps.antt =====
-- The jump analysis finds the JUMPDESTs that are opcodes, and the operand of every push.
use tvmjs_monorepo.Prelude.{
  ℕ, zero, suc, ◌+◌, ◌-◌, ◌<◌, ◌≡◌, ltb, leb, ◌==◌, ◌||◌, ◌&&◌, Bool, List, [], ◌∷◌, length,
  length-set, set, get_or, get_elem?, some, none, if◌then◌else◌, arith,
}
use tvmjs_monorepo.Tvm.Machine.{Common}
use tvmjs_monorepo.Tvm.Ops.Flow.{
  is_eip8024_single_immediate_valid, is_eip8024_pair_immediate_valid, lookup,
}
use tvmjs_monorepo.Tvm.Ops.Flow.Analysis.{push_operand, analyse_opcode}

-- How many bytes after the opcode belong to it.
unfoldable pub operand_bytes : Common → List ℕ → ℕ → ℕ
unfolding is_eip8024_single_immediate_valid is_eip8024_pair_immediate_valid
operand_bytes common code i =
    let opcode = get_or code i 0 in
    let immediate = get_or code (i + 1) 0 in
    if leb 96 opcode && leb opcode 127
    then opcode - 95
    else if common.is_activated_eip 8024 && ltb (i + 1) (length code)
    then (if opcode == 230 || opcode == 231
        then (if is_eip8024_single_immediate_valid immediate then 1 else 0)
        else if opcode == 232
        then (if is_eip8024_pair_immediate_valid immediate then 1 else 0)
        else 0)
    else 0

-- Opcode after opcode, from one address to another.
pub data Reach (common : Common) (code : List ℕ) : ℕ → ℕ → Type 0 where
  here : (i : ℕ) → Reach common code i i
  next :
      (i j : ℕ)
      → i < length code
      → Reach common code (i + operand_bytes common code i + 1) j
      → Reach common code i j

get_or-set :
    (xs : List ℕ) (i j v : ℕ)
    → i < length xs
    → get_or (set xs i v) j 0 ≡ (if j == i then v else get_or xs j 0)
get_or-set [] i j v h = elim h [ ]
get_or-set (x ∷ xs) zero zero v h = ground arith
get_or-set (x ∷ xs) zero (suc j) v h = ground arith
get_or-set (x ∷ xs) (suc i) zero v h = ground arith
get_or-set (x ∷ xs) (suc i) (suc j) v h = ground (arith, get_or-set xs i j v (omega arith))

get_elem?-get_or :
    (xs : List ℕ) (i : ℕ)
    → get_elem? xs i ≡ (if ltb i (length xs) then some (get_or xs i 0) else none)
get_elem?-get_or [] i = ground arith
get_elem?-get_or (x ∷ xs) zero = ground arith
get_elem?-get_or (x ∷ xs) (suc i) = ground (arith, get_elem?-get_or xs i)

module _ (common : Common) (code : List ℕ) where
  abbrev pub is_push : ℕ → Bool
  is_push i = leb 96 (get_or code i 0) && leb (get_or code i 0) 127

  module _ (i : ℕ) (jumps : List ℕ) (pushes : List (ℕ × ℕ)) where
    pub pass-skip : (analyse_opcode common code i jumps pushes).skip ≡ operand_bytes common code i
    unfolding analyse_opcode operand_bytes
    pass-skip = ground (arith, get_elem?-get_or code (i + 1))

    pub pass-length : length (analyse_opcode common code i jumps pushes).jumps ≡ length jumps
    unfolding analyse_opcode
    pass-length = ground (arith, get_elem?-get_or code (i + 1), length-set jumps i 1)

    pub pass-jumps :
        (j : ℕ)
        → i < length jumps
        → get_or (analyse_opcode common code i jumps pushes).jumps j 0
          ≡ (if j == i && get_or code i 0 == 91 then 1 else get_or jumps j 0)
    unfolding analyse_opcode
    pass-jumps j h = ground (arith, get_elem?-get_or code (i + 1), get_or-set jumps i j 1 h)

    pub pass-pushes :
        (k : ℕ)
        → lookup k (analyse_opcode common code i jumps pushes).pushes
          ≡ (if k == i + 1 && is_push i then some (push_operand code i) else lookup k pushes)
    unfolding analyse_opcode
    pass-pushes k = ground (arith, get_elem?-get_or code (i + 1))
