-- ===== src/Mpt/Order.antt =====
-- packages/mpt/src/util/nibbles.ts: the order of paths and their common prefix.
use tvmjs_monorepo.Prelude.{
  ℕ, zero, suc, ◌≤◌, ◌≡◌, ◌≢◌, ◌⊎◌, ◌↔◌, inl, inr, refl, ap, ◌==◌, ltb, List, [], ◌∷◌, length, take,
  get_elem?, arith, Bool-cases,
}
use tvmjs_monorepo.Prelude.Int.{ℤ, pos, negsuc}
use tvmjs_monorepo.Mpt.Nibbles.{
  compare_common, compare_lengths, nibbles_compare, matching_nibble_length,
}

-- The sign of the opposite comparison.
abbrev pub opposite : ℤ → ℤ
opposite (pos zero) = pos 0
opposite (pos (suc n)) = negsuc n
opposite (negsuc n) = pos (suc n)

compare_common-opposite : (n1 n2 : List ℕ) → compare_common n2 n1 ≡ opposite (compare_common n1 n2)
unfolding compare_common
compare_common-opposite [] [] = refl
compare_common-opposite [] (y ∷ n2) = refl
compare_common-opposite (x ∷ n1) [] = refl
compare_common-opposite (x ∷ n1) (y ∷ n2) = ground (arith, compare_common-opposite n1 n2)

compare_lengths-opposite :
    (c : ℤ) (l1 l2 : ℕ) → compare_lengths (opposite c) l2 l1 ≡ opposite (compare_lengths c l1 l2)
unfolding compare_lengths
compare_lengths-opposite (pos zero) l1 l2 = ground arith
compare_lengths-opposite (pos (suc n)) l1 l2 = refl
compare_lengths-opposite (negsuc n) l1 l2 = refl

compare_common_self : (ns : List ℕ) → compare_common ns ns ≡ pos 0
unfolding compare_common
compare_common_self [] = refl
compare_common_self (x ∷ ns) = ground (arith, compare_common_self ns)

compare_common-eq :
    (n1 n2 : List ℕ) → compare_common n1 n2 ≡ pos 0 → length n1 ≡ length n2 → n1 ≡ n2
unfolding compare_common
compare_common-eq [] [] e h = refl
compare_common-eq [] (y ∷ n2) e h = absurd (omega arith)
compare_common-eq (x ∷ n1) [] e h = absurd (omega arith)
compare_common-eq (x ∷ n1) (y ∷ n2) e h = elim (Bool-cases (ltb x y)) [
  | inl less ↦ absurd (ground (arith, e))
  | inr not_less ↦ elim (Bool-cases (ltb y x)) [
    | inl more ↦ absurd (ground (arith, e))
    | inr not_more ↦
        let same : x ≡ y = ground arith in
        let rest = compare_common-eq n1 n2 (rw (not_less, not_more) at e) (omega arith) in
        rw (same, rest) refl
  ]
]

compare_lengths-zero :
    (c : ℤ) (l1 l2 : ℕ) → compare_lengths c l1 l2 ≡ pos 0 → (c ≡ pos 0) × (l1 ≡ l2)
unfolding compare_lengths
compare_lengths-zero (pos zero) l1 l2 e = (refl, ground (arith, e))
compare_lengths-zero (pos (suc n)) l1 l2 e = absurd (ground (arith, e))
compare_lengths-zero (negsuc n) l1 l2 e = absurd (ground (arith, e))

-- nibblesCompare gives 0 exactly on equal paths, and the opposite sign when the paths are swapped.
pub nibbles_compare-order :
    (n1 n2 : List ℕ)
    → (nibbles_compare n2 n1 ≡ opposite (nibbles_compare n1 n2))
      × ((nibbles_compare n1 n2 ≡ pos 0) ↔ (n1 ≡ n2))
unfolding nibbles_compare
nibbles_compare-order n1 n2 = (
  rw (compare_common-opposite n1 n2)
      (compare_lengths-opposite (compare_common n1 n2) (length n1) (length n2)),
  (
    λ e.
        let (common, sizes) = compare_lengths-zero _ (length n1) (length n2) e in
        compare_common-eq n1 n2 common sizes,
    λ e. rw (← e, compare_common_self n1) (unfold compare_lengths in ground arith),
  ),
)

-- The first nibbles of two paths that matchingNibbleLength counts are the same, both paths have as
-- many, and the first path ends there or the next nibbles differ.
pub matching_nibble_length_lem :
    (n1 n2 : List ℕ)
    → (take (matching_nibble_length n1 n2) n1 ≡ take (matching_nibble_length n1 n2) n2)
      × (matching_nibble_length n1 n2 ≤ length n1)
      × (matching_nibble_length n1 n2 ≤ length n2)
      × ((matching_nibble_length n1 n2 ≡ length n1)
          ⊎ (get_elem? n1 (matching_nibble_length n1 n2)
              ≢ get_elem? n2 (matching_nibble_length n1 n2)))
unfolding matching_nibble_length
matching_nibble_length_lem [] n2 = (refl, omega arith, omega arith, inl refl)
matching_nibble_length_lem (x ∷ n1) [] = (refl, omega arith, omega arith, inr (λ q. cc))
matching_nibble_length_lem (x ∷ n1) (y ∷ n2) = elim (Bool-cases (x == y)) [
  | inl same ↦
      let equal : x ≡ y = ground arith in
      let (front, le1, le2, next) = matching_nibble_length_lem n1 n2 in
      rw (same, front, equal) (refl, omega arith, omega arith, later next)
  | inr differ ↦ rw differ (refl, omega arith, omega arith, inr (λ q. absurd (ground (arith, q))))
]
  where
    later : {a b : ℕ} {P : Type 0} → (a ≡ b) ⊎ P → (suc a ≡ suc b) ⊎ P
    later (inl e) = inl (ap suc e)
    later (inr p) = inr p
