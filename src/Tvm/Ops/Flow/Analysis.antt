-- ===== src/Tvm/Ops/Flow/Analysis.antt =====
-- packages/tvm/src/interpreter.ts: `_getValidJumpDestinations`, and where `runStep` calls it.
use tvmjs_monorepo.Prelude.{
  ℕ, zero, suc, ◌+◌, ◌-◌, ltb, leb, ◌==◌, ◌||◌, ◌&&◌, Bool, false, List, [], ◌∷◌, ◌++◌, take, drop,
  length, replicate, set, get_or, get_elem?, some, none, if◌then◌else◌,
}
use tvmjs_monorepo.Util.Bytes.{bytes_to_bigint}
use tvmjs_monorepo.Tvm.Machine.{Common, RunState}
use tvmjs_monorepo.Tvm.Ops.Flow.{is_eip8024_single_immediate_valid, is_eip8024_pair_immediate_valid}

-- What one pass of the loop does at an opcode: `skip` is how far `i` advances in the body.
pub record Pass : Type 0 where
  pub jumps : List ℕ
  pub pushes : List (ℕ × ℕ)
  pub skip : ℕ

-- `setLengthRight(pushBytes, bytesToPush)` where that is longer.
abbrev pub fill_right : List ℕ → ℕ → List ℕ
fill_right bs n = if ltb (length bs) n then bs ++ replicate (n - length bs) 0 else bs

-- The number after a push opcode.
abbrev pub push_operand : List ℕ → ℕ → ℕ
push_operand code i =
    let bytes_to_push = get_or code i 0 - 95 in
    bytes_to_bigint (fill_right (take bytes_to_push (drop (i + 1) code)) bytes_to_push)

unfoldable pub analyse_opcode : Common → List ℕ → ℕ → List ℕ → List (ℕ × ℕ) → Pass
unfolding is_eip8024_single_immediate_valid is_eip8024_pair_immediate_valid
analyse_opcode common code i jumps pushes =
    let opcode = get_or code i 0 in
    let keep : ℕ → Pass = λ (n : ℕ). record { jumps = jumps; pushes = pushes; skip = n } in
    if leb opcode 127
    then (if leb 96 opcode
        then record {
          jumps = jumps;
          pushes = (i + 1, push_operand code i) ∷ pushes;
          skip = opcode - 95;
        }
        else if opcode == 91
        then record { jumps = set jumps i 1; pushes = pushes; skip = 0 }
        else keep 0)
    else if common.is_activated_eip 8024 && (opcode == 230 || opcode == 231 || opcode == 232)
    then elim (get_elem? code (i + 1)) [
      | none ↦ keep 0
      | some immediate ↦
          if (if opcode == 232
            then is_eip8024_pair_immediate_valid immediate
            else is_eip8024_single_immediate_valid immediate)
          then keep 1
          else keep 0
    ]
    else keep 0

-- The loop, on fuel; the length of the code is enough.
unfoldable pub analyse_from :
    Common → List ℕ → ℕ → ℕ → List ℕ → List (ℕ × ℕ) → List ℕ × List (ℕ × ℕ)
unfolding analyse_opcode
analyse_from common code zero i jumps pushes = (jumps, pushes)
analyse_from common code (suc fuel) i jumps pushes =
    let p = analyse_opcode common code i jumps pushes in
    let rest = analyse_from common code fuel (i + p.skip + 1) p.jumps p.pushes in
    if ltb i (length code) then rest else (jumps, pushes)

unfoldable pub get_valid_jump_destinations : Common → List ℕ → List ℕ × List (ℕ × ℕ)
unfolding analyse_from
get_valid_jump_destinations common code =
    analyse_from common code (length code) 0 (replicate (length code) 0) []

-- Whether the loop comes to a place, so that `opcodesCached` has an entry there.
unfoldable pub caches_from : Common → List ℕ → ℕ → ℕ → ℕ → Bool
unfolding analyse_opcode
caches_from common code place zero i = false
caches_from common code place (suc fuel) i =
    let later =
      caches_from common code place fuel (i + (analyse_opcode common code i [] []).skip + 1) in
    if ltb i (length code) then i == place || later else false

unfoldable pub is_cached : Common → List ℕ → ℕ → Bool
unfolding caches_from
is_cached common code place = caches_from common code place (length code) 0

-- `runStep` before the first JUMP or JUMPI.
unfoldable pub analysed : Common → RunState → RunState
unfolding get_valid_jump_destinations
analysed common s =
    let r = get_valid_jump_destinations common s.code in
    record s { valid_jumps = r.0; cached_pushes = r.1; should_do_jump_analysis = false }
