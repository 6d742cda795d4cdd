-- ===== src/Tvm/Ops/Flow/Scan.antt =====
-- The whole loop of the jump analysis: what it marks and what it caches.
use tvmjs_monorepo.Prelude.{
  ℕ, zero, suc, ◌+◌, ◌≤◌, ◌<◌, ◌≡◌, ◌↔◌, ◌⊎◌, inl, inr, refl, ◌∙◌, ltb, ◌==◌, ◌&&◌, true, List, [],
  length, replicate, length-replicate, get_or, some, arith, Bool-cases,
}
use tvmjs_monorepo.Tvm.Machine.{Common}
use tvmjs_monorepo.Tvm.Ops.Flow.{lookup}
use tvmjs_monorepo.Tvm.Ops.Flow.Analysis.{
  push_operand, analyse_opcode, analyse_from, get_valid_jump_destinations,
}
use tvmjs_monorepo.Tvm.Ops.Flow.Jumps.{
  Reach, here, next, is_push, pass-skip, pass-length, pass-jumps, pass-pushes,
}

module _ (common : Common) (code : List ℕ) where
  -- What is marked was marked before, or is a JUMPDEST that the loop reaches.
  marked :
      (fuel i : ℕ) (jumps : List ℕ) (pushes : List (ℕ × ℕ)) (j : ℕ)
      → length jumps ≡ length code
      → get_or (analyse_from common code fuel i jumps pushes).0 j 0 ≡ 1
      → (get_or jumps j 0 ≡ 1)
        ⊎ (Reach common code i j × (j < length code) × (get_or code j 0 ≡ 91))
  unfolding analyse_from
  marked zero i jumps pushes j e m = inl m
  marked (suc fuel) i jumps pushes j e m = elim (Bool-cases (ltb i (length code))) [
    | inr outside ↦ inl (ground arith)
    | inl inside ↦
        let p = analyse_opcode common code i jumps pushes in
        let later =
          marked fuel (i + p.skip + 1) p.jumps p.pushes j
            (pass-length common code i jumps pushes ∙ e) (ground arith) in
        elim later [
          | inr (reached, below, dest) ↦ inr (
            next i j (ground arith) (rw (← pass-skip common code i jumps pushes) reached),
            below,
            dest,
          )
          | inl old ↦ elim (Bool-cases (j == i && get_or code i 0 == 91)) [
            | inl now ↦
                let same : i ≡ j = ground arith in
                inr (rw (← same) (here i), ground arith, ground arith)
            | inr other ↦ inl (ground (arith, pass-jumps common code i jumps pushes j))
          ]
        ]
  ]

  -- A mark stays.
  keeps_mark :
      (fuel i : ℕ) (jumps : List ℕ) (pushes : List (ℕ × ℕ)) (j : ℕ)
      → length jumps ≡ length code
      → get_or jumps j 0 ≡ 1
      → get_or (analyse_from common code fuel i jumps pushes).0 j 0 ≡ 1
  unfolding analyse_from
  keeps_mark zero i jumps pushes j e m = m
  keeps_mark (suc fuel) i jumps pushes j e m = elim (Bool-cases (ltb i (length code))) [
    | inr outside ↦ ground arith
    | inl inside ↦
        let p = analyse_opcode common code i jumps pushes in
        let kept : get_or p.jumps j 0 ≡ 1 =
          ground (arith, pass-jumps common code i jumps pushes j) in
        let later =
          keeps_mark fuel (i + p.skip + 1) p.jumps p.pushes j
            (pass-length common code i jumps pushes ∙ e) kept in
        ground (arith, later)
  ]

  -- With enough fuel, every JUMPDEST that the loop reaches is marked.
  marks :
      (fuel i j : ℕ)
      → Reach common code i j
      → (jumps : List ℕ) (pushes : List (ℕ × ℕ)) → length jumps ≡ length code
      → length code ≤ i + fuel
      → j < length code
      → get_or code j 0 ≡ 91
      → get_or (analyse_from common code fuel i jumps pushes).0 j 0 ≡ 1
  unfolding analyse_from
  marks zero i _ (here _) jumps pushes e f below dest = absurd (omega arith)
  marks zero i j (next _ _ h r) jumps pushes e f below dest = absurd (omega arith)
  marks (suc fuel) i _ (here _) jumps pushes e f below dest =
      let p = analyse_opcode common code i jumps pushes in
      let now : get_or p.jumps i 0 ≡ 1 = ground (arith, pass-jumps common code i jumps pushes i) in
      let later =
        keeps_mark fuel (i + p.skip + 1) p.jumps p.pushes i
          (pass-length common code i jumps pushes ∙ e) now in
      ground (arith, later)
  marks (suc fuel) i j (next _ _ h r) jumps pushes e f below dest =
      let p = analyse_opcode common code i jumps pushes in
      let reached : Reach common code (i + p.skip + 1) j =
        rw (pass-skip common code i jumps pushes) r in
      let later =
        marks fuel (i + p.skip + 1) j reached p.jumps p.pushes
          (pass-length common code i jumps pushes ∙ e) (omega arith) below dest in
      ground (arith, later)

  -- The keys up to `i` keep their values.
  keeps_value :
      (fuel i : ℕ) (jumps : List ℕ) (pushes : List (ℕ × ℕ)) (k : ℕ)
      → k ≤ i
      → lookup k (analyse_from common code fuel i jumps pushes).1 ≡ lookup k pushes
  unfolding analyse_from
  keeps_value zero i jumps pushes k h = refl
  keeps_value (suc fuel) i jumps pushes k h =
      let p = analyse_opcode common code i jumps pushes in
      ground (
        arith,
        keeps_value fuel (i + p.skip + 1) p.jumps p.pushes k,
        pass-pushes common code i jumps pushes k,
      )

  -- With enough fuel, the operand of every push that the loop reaches is cached.
  caches :
      (fuel i j : ℕ)
      → Reach common code i j
      → (jumps : List ℕ) (pushes : List (ℕ × ℕ)) → length code ≤ i + fuel
      → j < length code
      → is_push common code j ≡ true
      → lookup (j + 1) (analyse_from common code fuel i jumps pushes).1 ≡ some (push_operand code j)
  unfolding analyse_from
  caches zero i _ (here _) jumps pushes f below push = absurd (omega arith)
  caches zero i j (next _ _ h r) jumps pushes f below push = absurd (omega arith)
  caches (suc fuel) i _ (here _) jumps pushes f below push =
      let p = analyse_opcode common code i jumps pushes in
      ground (
        arith,
        keeps_value fuel (i + p.skip + 1) p.jumps p.pushes (i + 1),
        pass-pushes common code i jumps pushes (i + 1),
      )
  caches (suc fuel) i j (next _ _ h r) jumps pushes f below push =
      let p = analyse_opcode common code i jumps pushes in
      let reached : Reach common code (i + p.skip + 1) j =
        rw (pass-skip common code i jumps pushes) r in
      ground
        (arith, caches fuel (i + p.skip + 1) j reached p.jumps p.pushes (omega arith) below push)

no_marks : (n j : ℕ) → get_or (replicate {A = ℕ} n 0) j 0 ≡ 0
no_marks zero j = refl
no_marks (suc n) zero = refl
no_marks (suc n) (suc j) = no_marks n j

-- For every code and address, the jump analysis marks the address exactly if it holds the byte
-- 0x5b and is reached from the start of the code by going from opcode to opcode over the operands;
-- the fuel of the loop, the length of the code, is enough.
pub get_valid_jump_destinations_lem :
    (common : Common) (code : List ℕ) (j : ℕ)
    → (get_or (get_valid_jump_destinations common code).0 j 0 ≡ 1)
      ↔ (Reach common code 0 j × (j < length code) × (get_or code j 0 ≡ 91))
unfolding get_valid_jump_destinations
get_valid_jump_destinations_lem common code j = (
  λ m. elim (marked common code n 0 (replicate n 0) [] j (length-replicate n 0) m) [
    | inl old ↦ absurd (omega (arith, old, no_marks n j))
    | inr found ↦ found
  ],
  λ (reached, below, dest).
      marks common code n 0 j reached (replicate n 0) [] (length-replicate n 0) (omega arith) below
        dest,
)
  where
    n : ℕ
    n = length code

-- For every push opcode that is reached so, the analysis caches its operand.
pub cached-operand :
    (common : Common) (code : List ℕ) (j : ℕ)
    → Reach common code 0 j
    → j < length code
    → is_push common code j ≡ true
    → lookup (j + 1) (get_valid_jump_destinations common code).1 ≡ some (push_operand code j)
unfolding get_valid_jump_destinations
cached-operand common code j reached below push =
    caches common code (length code) 0 j reached (replicate (length code) 0) [] (omega arith) below
      push
