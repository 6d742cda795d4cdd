-- ===== src/Tvm/Stack.antt =====
-- packages/tvm/src/stack.ts: the machine stack. `_store` never shrinks, so that entries above `_len`
-- are stale; the class hides them.
pub mod View
pub mod Steps
pub mod Valid
pub mod Spec
pub mod Refine
use tvmjs_monorepo.Prelude.{
  ℕ, zero, suc, ◌+◌, ◌-◌, ◌≤◌, ◌<◌, ◌≡◌, Bool, true, false, List, [], ◌∷◌, ltb, leb, ◌==◌, length,
  set, take, get_or, if◌then◌else◌,
}
use tvmjs_monorepo.Prelude.{Result, ok, err, ◌>>=◌, ◌>>◌, throw_if}
use tvmjs_monorepo.Tvm.Errors.{TvmError, stack_overflow, stack_underflow}

pub record Stack : Type 0 where
  pub store : List ℕ
  pub max_height : ℕ
  pub len : ℕ

-- `new Stack(maxHeight)`; the default height is 1024.
unfoldable pub new : ℕ → Stack
new max_height = record { store = []; max_height = max_height; len = 0 }

-- `store[i] = v` on a JavaScript array: an index at the end appends. (Beyond the end JavaScript
-- leaves holes, here zeros; the invariant of the class excludes that.)
abbrev pub assign : List ℕ → ℕ → ℕ → List ℕ
assign [] zero v = v ∷ []
assign [] (suc i) v = 0 ∷ assign [] i v
assign (x ∷ xs) zero v = v ∷ xs
assign (x ∷ xs) (suc i) v = x ∷ assign xs i v

-- `store[i]`
abbrev pub read : List ℕ → ℕ → ℕ
read store i = get_or store i 0

unfoldable pub push : ℕ → Stack → Result TvmError Stack
push v s =
    if leb s.max_height s.len
    then err stack_overflow
    else ok (record s { store = assign s.store s.len v; len = s.len + 1 })

unfoldable pub pop : Stack → Result TvmError (ℕ × Stack)
pop s =
    if ltb s.len 1
    then err stack_underflow
    else ok (read s.store (s.len - 1), record s { len = s.len - 1 })

-- The loop of `popN`: `num` times `arr[pop] = cache[--len]`.
pub pop_loop : List ℕ → ℕ → ℕ → List ℕ
pop_loop store zero len = []
pop_loop store (suc num) len = read store (len - 1) ∷ pop_loop store num (len - 1)

unfoldable pub pop_n : ℕ → Stack → Result TvmError (List ℕ × Stack)
unfolding pop_loop
pop_n num s =
    if ltb s.len num
    then err stack_underflow
    else if num == 0
    then ok ([], s)
    else ok (pop_loop s.store num s.len, record s { len = s.len - num })

-- The loop of `peek`: it throws at the first index below 0, that is, when `start` is 0 already.
pub peek_loop : List ℕ → ℕ → ℕ → Result TvmError (List ℕ)
peek_loop store zero start = ok []
peek_loop store (suc num) start = do
  throw_if (start == 0) stack_underflow
  rest ← peek_loop store num (start - 1)
  ok (read store (start - 1) ∷ rest)

unfoldable pub peek : ℕ → Stack → Result TvmError (List ℕ)
unfolding peek_loop
peek num s = peek_loop s.store num s.len

unfoldable pub swap : ℕ → Stack → Result TvmError Stack
swap position s =
    if leb s.len position
    then err stack_underflow
    else let head = s.len - 1 in
      let i = head - position in
      let tmp = read s.store head in
      ok (record s { store = assign (assign s.store head (read s.store i)) i tmp })

unfoldable pub dup : ℕ → Stack → Result TvmError Stack
dup position s =
    if ltb s.len position
    then err stack_underflow
    else if leb s.max_height s.len
    then err stack_overflow
    else let i = s.len - position in
      ok (record s { store = assign s.store s.len (read s.store i); len = s.len + 1 })

-- The indices `len - 1 - swap` are negative when `len < swap + 1`.
unfoldable pub exchange : ℕ → ℕ → Stack → Result TvmError Stack
exchange swap1 swap2 s =
    if ltb s.len (swap1 + 1)
    then err stack_underflow
    else if ltb s.len (swap2 + 1)
    then err stack_underflow
    else let i = s.len - 1 - swap1 in
      let j = s.len - 1 - swap2 in
      let cache = read s.store j in
      ok (record s { store = assign (assign s.store j (read s.store i)) i cache })

-- `getStack`: a copy, bottom first.
unfoldable pub get_stack : Stack → List ℕ
get_stack s = take s.len s.store
