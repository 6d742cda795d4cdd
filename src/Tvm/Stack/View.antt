-- ===== src/Tvm/Stack/View.antt =====
-- What a stack shows: its items, the top first.
use tvmjs_monorepo.Prelude.{
  ℕ, zero, suc, ◌+◌, ◌-◌, ◌≤◌, ◌<◌, ◌≡◌, ◌≢◌, refl, ap, ap₂, List, [], ◌∷◌, arith, length, take,
  drop, get_or, set, ◌∙◌,
}
use native.Mathlib.Nat.{sub-zero, suc-sub-suc}
use tvmjs_monorepo.Tvm.Stack.{Stack, assign, read, pop_loop}

-- The items below index `n`, the highest first.
unfoldable pub items : List ℕ → ℕ → List ℕ
items store zero = []
items store (suc n) = read store n ∷ items store n

unfoldable pub view : Stack → List ℕ
unfolding items
view s = items s.store s.len

-- The class keeps its length within the array and within the maximal height.
pub record IsValid (s : Stack) : Type 0 where
  pub stored : s.len ≤ length s.store
  pub bounded : s.len ≤ s.max_height

pub length-items : (store : List ℕ) (n : ℕ) → length (items store n) ≡ n
unfolding items
length-items store zero = refl
length-items store (suc n) = ap suc (length-items store n)

pub length-view : (s : Stack) → length (view s) ≡ s.len
unfolding view
length-view s = length-items s.store s.len

pub read-assign_self : (store : List ℕ) (i v : ℕ) → read (assign store i v) i ≡ v
read-assign_self [] zero v = refl
read-assign_self [] (suc i) v = read-assign_self [] i v
read-assign_self (x ∷ xs) zero v = refl
read-assign_self (x ∷ xs) (suc i) v = read-assign_self xs i v

pub read-assign_ne : (store : List ℕ) (i j v : ℕ) → i ≢ j → read (assign store i v) j ≡ read store j
read-assign_ne [] zero zero v h = absurd (h refl)
read-assign_ne [] zero (suc j) v h = refl
read-assign_ne [] (suc i) zero v h = refl
read-assign_ne [] (suc i) (suc j) v h = read-assign_ne [] i j v (λ e. h (ap suc e))
read-assign_ne (x ∷ xs) zero zero v h = absurd (h refl)
read-assign_ne (x ∷ xs) zero (suc j) v h = refl
read-assign_ne (x ∷ xs) (suc i) zero v h = refl
read-assign_ne (x ∷ xs) (suc i) (suc j) v h = read-assign_ne xs i j v (λ e. h (ap suc e))

pub length-assign_end :
    (store : List ℕ) (i v : ℕ) → i ≤ length store → i + 1 ≤ length (assign store i v)
length-assign_end [] zero v h = omega arith
length-assign_end [] (suc i) v h = elim h [ ]
length-assign_end (x ∷ xs) zero v h = omega arith
length-assign_end (x ∷ xs) (suc i) v h = omega (arith, length-assign_end xs i v (omega arith))

pub length-le-assign : (store : List ℕ) (i v : ℕ) → length store ≤ length (assign store i v)
length-le-assign [] i v = omega arith
length-le-assign (x ∷ xs) zero v = omega arith
length-le-assign (x ∷ xs) (suc i) v = omega (arith, length-le-assign xs i v)

-- A write at or above `n` does not show below.
pub items-assign_above :
    (store : List ℕ) (n i v : ℕ) → n ≤ i → items (assign store i v) n ≡ items store n
unfolding items
items-assign_above store zero i v h = refl
items-assign_above store (suc n) i v h =
    ap₂ ◌∷◌ (read-assign_ne store i n v (omega arith))
      (items-assign_above store n i v (omega arith))

-- A write just above the items adds one.
pub items-push : (store : List ℕ) (n v : ℕ) → items (assign store n v) (suc n) ≡ v ∷ items store n
unfolding items
items-push store n v =
    ap₂ ◌∷◌ (read-assign_self store n v) (items-assign_above store n n v (omega arith))

-- A write at depth `d` below the top.
pub items-assign :
    (store : List ℕ) (n i v d : ℕ)
    → n ≡ suc (i + d)
    → items (assign store i v) n ≡ set (items store n) d v
unfolding items
items-assign store zero i v d e = absurd (omega arith)
items-assign store (suc n) i v zero e =
    let q : n ≡ i = omega arith in
    rw q (ap₂ ◌∷◌ (read-assign_self store i v) (items-assign_above store i i v (omega arith)))
items-assign store (suc n) i v (suc d) e =
    ap₂ ◌∷◌ (read-assign_ne store i n v (omega arith)) (items-assign store n i v d (omega arith))

pub pop_loop-items :
    (store : List ℕ) (num n : ℕ) → num ≤ n → pop_loop store num n ≡ take num (items store n)
unfolding items pop_loop
pop_loop-items store zero n h = refl
pop_loop-items store (suc num) zero h = elim h [ ]
pop_loop-items store (suc num) (suc n) h =
    rw pred_of_suc (ap (read store n ∷◌) (pop_loop-items store num n (omega arith)))
  where
    pred_of_suc : suc n - 1 ≡ n
    pred_of_suc = omega arith

pub drop-items :
    (store : List ℕ) (num n : ℕ) → num ≤ n → items store (n - num) ≡ drop num (items store n)
unfolding items
drop-items store zero n h = ap (items store) (sub-zero n)
drop-items store (suc num) zero h = elim h [ ]
drop-items store (suc num) (suc n) h =
    ap (items store) (suc-sub-suc n num) ∙ drop-items store num n (omega arith)

pub read-items :
    (store : List ℕ) (n d : ℕ) → d < n → get_or (items store n) d 0 ≡ read store (n - 1 - d)
unfolding items
read-items store zero d h = elim h [ ]
read-items store (suc n) zero h = let e : suc n - 1 - 0 ≡ n = omega arith in rw e refl
read-items store (suc n) (suc d) h =
    let e : suc n - 1 - suc d ≡ n - 1 - d = omega arith in rw e (read-items store n d (omega arith))
