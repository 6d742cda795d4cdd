-- ===== src/Tvm/Stack/Spec.antt =====
-- What a stack promises, on a list of items with the top first and a maximal height.
use tvmjs_monorepo.Prelude.{
  ℕ, ◌+◌, ◌-◌, List, ◌∷◌, length, take, drop, get_or, set, leb, ltb, if◌then◌else◌, Result, ok, err,
}
use tvmjs_monorepo.Tvm.Errors.{TvmError, stack_overflow, stack_underflow}

abbrev pub push_spec : ℕ → ℕ → List ℕ → Result TvmError (List ℕ)
push_spec max_height v xs = if leb max_height (length xs) then err stack_overflow else ok (v ∷ xs)

-- The items that are popped, the top first, and the items that are left.
abbrev pub pop_n_spec : ℕ → List ℕ → Result TvmError (List ℕ × List ℕ)
pop_n_spec num xs =
    if ltb (length xs) num then err stack_underflow else ok (take num xs, drop num xs)

abbrev pub peek_spec : ℕ → List ℕ → Result TvmError (List ℕ)
peek_spec num xs = if ltb (length xs) num then err stack_underflow else ok (take num xs)

-- The item at depth `i` and the item at depth `j` change places.
abbrev pub swapped : ℕ → ℕ → List ℕ → List ℕ
swapped i j xs = set (set xs j (get_or xs i 0)) i (get_or xs j 0)

abbrev pub exchange_spec : ℕ → ℕ → List ℕ → Result TvmError (List ℕ)
exchange_spec i j xs =
    if ltb (length xs) (i + 1)
    then err stack_underflow
    else if ltb (length xs) (j + 1)
    then err stack_underflow
    else ok (swapped i j xs)

-- The item at depth `position - 1` is pushed once more.
abbrev pub dup_spec : ℕ → ℕ → List ℕ → Result TvmError (List ℕ)
dup_spec max_height position xs =
    if ltb (length xs) position
    then err stack_underflow
    else if leb max_height (length xs)
    then err stack_overflow
    else ok (get_or xs (position - 1) 0 ∷ xs)

-- The top and the item at depth `position` change places.
abbrev pub swap_spec : ℕ → List ℕ → Result TvmError (List ℕ)
swap_spec position xs =
    if leb (length xs) position then err stack_underflow else ok (swapped position 0 xs)
