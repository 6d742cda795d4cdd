-- ===== src/StateManager/Simple/Objects/Reverts.antt =====
-- packages/statemanager/src/simpleStateManager.ts: accounts that are changed in place between a checkpoint and
-- its revert.
use tvmjs_monorepo.Prelude.{
  ℕ, ◌≤◌, ◌≡◌, refl, sym, ap, ◌∙◌, Bool-cases, inl, inr, List, [], ◌∷◌, Option, some, none, arith,
}
use mathlib.Core.Path.{subst}
use tvmjs_monorepo.Prelude.Maps.{Map, map_get, same_key}
use tvmjs_monorepo.Util.Account.{Account}
use tvmjs_monorepo.StateManager.Simple.{found}
use tvmjs_monorepo.StateManager.Simple.Objects.{
  Heap, Objects, value_of, value_at, allocate, copy_account, copy_level, checkpoint, commit, revert,
  get_account,
}
use tvmjs_monorepo.StateManager.Simple.Objects.Isolation.{
  AllObjects, IsFrom, AllObjects-map, OfObject, found-OfObject, Extends, Extends-refl,
  Extends-trans, IsFrom-Extends, value_of-Extends, allocate-Extends, allocate-IsFrom,
  value_of-allocate,
}
use tvmjs_monorepo.StateManager.Simple.Objects.Changes.{
  run_change, Phase, idle, changed, committed, reverted, objects, Leads, run_change-Leads,
}

-- The copies of a level are new objects, and the heap is the same below them.
copy_level-AllObjects :
    (m : Map (Option ℕ)) (h : Heap)
    → AllObjects (IsFrom h.next (copy_level m h).0) (copy_level m h).1
      × Extends h.next h (copy_level m h).0
unfolding copy_level copy_account
copy_level-AllObjects [] h = (tt, Extends-refl h.next h)
copy_level-AllObjects ((k, none) ∷ m) h = copy_level-AllObjects m h
copy_level-AllObjects ((k, some r) ∷ m) h =
    let h1 = allocate (value_of h r) h in
    let (all, later) = copy_level-AllObjects m h1 in
    let le : (h.next ≤ h1.next) = omega arith in
    let h2 = (copy_level m h1).0 in
    (
      (
        IsFrom-Extends h.next h1.next h1 h2 h.next (omega arith) later
            (allocate-IsFrom h.next (value_of h r) h (omega arith)),
        AllObjects-map (IsFrom h1.next h2) (IsFrom h.next h2) (copy_level m h1).1
            (λ r (low, high, low', high').
              (omega (arith, le, low), high, omega (arith, le, low'), high'))
            all,
      ),
      Extends-trans h.next h1.next h h1 h2 le (allocate-Extends (value_of h r) h) later,
    )

copy_account-value :
    (o : Option ℕ) (h : Heap) → value_at (copy_account o h).0 (copy_account o h).1 ≡ value_at h o
unfolding copy_account
copy_account-value none h = refl
copy_account-value (some r) h = ap some (value_of-allocate (value_of h r) h)

value_at-Extends :
    (c : ℕ) (h i : Heap) (o : Option ℕ)
    → h.next ≤ c
    → Extends c h i
    → OfObject (IsFrom 0 h) o
    → value_at i o ≡ value_at h o
value_at-Extends c h i none le e p = refl
value_at-Extends c h i (some r) le e p = ap some (value_of-Extends c h i r le e p)

-- The copies have the values of the level.
copy_level-value :
    (m : Map (Option ℕ)) (h : Heap) (k : List ℕ)
    → AllObjects (IsFrom 0 h) m
    → value_at (copy_level m h).0 (found (map_get k (copy_level m h).1))
      ≡ value_at h (found (map_get k m))
unfolding copy_level copy_account
copy_level-value [] h k all = refl
copy_level-value ((k', none) ∷ m) h k all = elim (Bool-cases (same_key k k')) [
  | inl same ↦ rw same refl
  | inr other ↦ rw other (copy_level-value m h k all)
]
copy_level-value ((k', some r) ∷ m) h k (p, all) =
    let h1 = allocate (value_of h r) h in
    let grown = allocate-Extends (value_of h r) h in
    let (new, later) = copy_level-AllObjects m h1 in
    elim (Bool-cases (same_key k k')) [
      | inl same ↦ rw same (
          ap some (
            value_of-Extends h1.next h1 (copy_level m h1).0 h.next (omega arith) later
              (allocate-IsFrom 0 (value_of h r) h (omega arith))
            ∙ value_of-allocate (value_of h r) h))
      | inr other ↦ rw other (
          copy_level-value m h1 k (
            AllObjects-map (IsFrom 0 h) (IsFrom 0 h1) m
              (λ r q. IsFrom-Extends 0 h.next h h1 r (omega arith) grown q) all)
          ∙ value_at-Extends h.next h h1 (found (map_get k m)) (omega arith) grown
              (found-OfObject (IsFrom 0 h) k m all))
    ]

-- A checkpoint, for what comes after it.
checkpoint-Leads :
    (h : Heap) (m : Map (Option ℕ)) (below : List (Map (Option ℕ)))
    → Leads h.next h (m ∷ below) (checkpoint (objects h m below))
unfolding checkpoint
checkpoint-Leads h m below =
    let (all, grown) = copy_level-AllObjects m h in
    ((copy_level m h).0, (copy_level m h).1, refl, all, grown)

Phase-Leads :
    (s t : Objects) (b : ℕ) (h : Heap) (m : Map (Option ℕ)) (below : List (Map (Option ℕ)))
    → Phase s t
    → s ≡ objects h m below
    → b ≤ h.next
    → AllObjects (IsFrom b h) m
    → Leads b h below t
unfolding commit revert
Phase-Leads s t b h m below idle e le all = (h, m, e, all, Extends-refl b h)
Phase-Leads s t b h m below (changed c rest) e le all =
    let (h1, m1, e1, all1, x1) = run_change-Leads c b h m below le all in
    let (h2, m2, e2, all2, x2) =
      Phase-Leads (run_change c s) t b h1 m1 below rest (ap (run_change c) e ∙ e1)
        (omega (arith, le, x1.0)) all1 in
    (h2, m2, e2, all2, Extends-trans b b h h1 h2 (omega arith) x1 x2)
Phase-Leads s u b h m below (committed {t = t} inner rest) e le all =
    let (h1, m1, e1, all1, x1) = checkpoint-Leads h m below in
    let (h2, m2, e2, all2, x2) =
      Phase-Leads (checkpoint s) t h.next h1 m1 (m ∷ below) inner (ap checkpoint e ∙ e1) x1.0
        all1 in
    let grown =
      Extends-trans b h.next h h1 h2 le (Extends-trans b h.next h h h1 le (Extends-refl b h) x1)
        x2 in
    let kept =
      AllObjects-map (IsFrom h.next h2) (IsFrom b h2) m2
        (λ r (low, high, low', high').
          (omega (arith, le, low), high, omega (arith, le, low'), high'))
        all2 in
    let (h3, m3, e3, all3, x3) =
      Phase-Leads (commit t) u b h2 m2 below rest (ap commit e2) (omega (arith, le, grown.0))
        kept in
    (h3, m3, e3, all3, Extends-trans b b h h2 h3 (omega arith) grown x3)
Phase-Leads s u b h m below (reverted {t = t} inner rest) e le all =
    let (h1, m1, e1, all1, x1) = checkpoint-Leads h m below in
    let (h2, m2, e2, all2, x2) =
      Phase-Leads (checkpoint s) t h.next h1 m1 (m ∷ below) inner (ap checkpoint e ∙ e1) x1.0
        all1 in
    let since = Extends-trans h.next h.next h h1 h2 (omega arith) x1 x2 in
    let grown = Extends-trans b h.next h h h2 le (Extends-refl b h) since in
    let kept =
      AllObjects-map (IsFrom b h) (IsFrom b h2) m
        (λ r p. IsFrom-Extends b h.next h h2 r (omega arith) since p) all in
    let (h3, m3, e3, all3, x3) =
      Phase-Leads (revert t) u b h2 m below rest (ap revert e2) (omega (arith, le, grown.0)) kept in
    (h3, m3, e3, all3, Extends-trans b b h h2 h3 (omega arith) grown x3)

-- Every object of every level is on the heap.
abbrev pub AreOnHeap : Heap → List (Map (Option ℕ)) → Type 0
AreOnHeap h [] = Unit {0}
AreOnHeap h (m ∷ below) = AllObjects (IsFrom 0 h) m × AreOnHeap h below

-- Every level has the accounts of before.
abbrev pub SameLevels : Heap → Heap → List (Map (Option ℕ)) → Type 0
SameLevels h h' [] = Unit {0}
SameLevels h h' (m ∷ below) =
    ((k : List ℕ) → value_at h' (found (map_get k m)) ≡ value_at h (found (map_get k m)))
    × SameLevels h h' below

Extends-SameLevels :
    (h h' : Heap) (levels : List (Map (Option ℕ)))
    → Extends h.next h h'
    → AreOnHeap h levels
    → SameLevels h h' levels
Extends-SameLevels h h' [] x all = tt
Extends-SameLevels h h' (m ∷ below) x (here, later) = (
  λ k.
      value_at-Extends h.next h h' (found (map_get k m)) (omega arith) x
        (found-OfObject (IsFrom 0 h) k m here),
  Extends-SameLevels h h' below x later,
)

abbrev pub account_of : List ℕ → Objects → Option Account
account_of k s = value_at s.heap (get_account k s)

-- The accounts and their assets are objects, which the code changes in place. Where every object
-- of every level is on the heap: a checkpoint gives every address the account that it had. After
-- it come changes in place of the fields and the token balances of accounts that it finds, puts of
-- new and of found accounts and deletions, and nested checkpoints, each committed or reverted. A
-- revert then leaves the levels of before, and every account of each of them has the fields and
-- the token balances of before; a commit instead keeps the newest accounts, and the levels below
-- with their accounts.
pub Phase-revert_isolated :
    (h : Heap) (m : Map (Option ℕ)) (below : List (Map (Option ℕ))) (t : Objects)
    → AreOnHeap h (m ∷ below)
    → Phase (checkpoint (objects h m below)) t
    → ((k : List ℕ)
        → account_of k (checkpoint (objects h m below)) ≡ account_of k (objects h m below))
      × ((revert t).account_stack ≡ m ∷ below)
      × SameLevels h (revert t).heap (m ∷ below)
      × ((revert (commit t)).account_stack ≡ below)
      × SameLevels h (commit t).heap below
      × ((k : List ℕ) → account_of k (commit t) ≡ account_of k t)
unfolding checkpoint commit revert get_account
Phase-revert_isolated h m below t (here, later) phase =
    let (h1, m1, e1, all1, x1) = checkpoint-Leads h m below in
    let (h2, m2, e2, all2, x2) =
      Phase-Leads (checkpoint (objects h m below)) t h.next h1 m1 (m ∷ below) phase e1 x1.0 all1 in
    let since = Extends-trans h.next h.next h h1 h2 (omega arith) x1 x2 in
    let heap_is : (h2 ≡ t.heap) = sym (ap (λ x. x.heap) e2) in
    let (kept, deeper) = Extends-SameLevels h h2 (m ∷ below) since (here, later) in
    (
      λ k. copy_level-value m h k here,
      rw e2 refl,
      subst (λ i. SameLevels h i (m ∷ below)) heap_is (kept, deeper),
      rw e2 refl,
      subst (λ i. SameLevels h i below) heap_is deeper,
      rw e2 (λ k. refl),
    )
