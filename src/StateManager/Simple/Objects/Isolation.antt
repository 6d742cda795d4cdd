-- ===== src/StateManager/Simple/Objects/Isolation.antt =====
-- packages/statemanager/src/simpleStateManager.ts: a change of an account in place stays in its level.
use tvmjs_monorepo.Prelude.{
  ℕ, ◌==◌, ◌≤◌, ◌<◌, ◌≡◌, refl, ◌∙◌, Bool-cases, inl, inr, List, [], ◌∷◌, Option, some, none, arith,
  true, false,
}
use tvmjs_monorepo.Prelude.Maps.{Map, map_get, map_set, same_key}
use tvmjs_monorepo.Util.Account.{Account}
use tvmjs_monorepo.StateManager.Simple.{found}
use tvmjs_monorepo.StateManager.Simple.Objects.{Heap, value_of, allocate}

-- Each object of a level.
abbrev pub AllObjects : (ℕ → Type 0) → Map (Option ℕ) → Type 0
AllObjects P [] = Unit {0}
AllObjects P ((k, none) ∷ m) = AllObjects P m
AllObjects P ((k, some r) ∷ m) = P r × AllObjects P m

-- An object and its assets are on the heap, and not below a bound.
abbrev pub IsFrom : ℕ → Heap → ℕ → Type 0
IsFrom b h r = (b ≤ r) × (r < h.next) × (b ≤ (h.accounts r).asset) × ((h.accounts r).asset < h.next)

pub AllObjects-map :
    (P Q : ℕ → Type 0) (m : Map (Option ℕ))
    → ((r : ℕ) → P r → Q r)
    → AllObjects P m
    → AllObjects Q m
AllObjects-map P Q [] f h = tt
AllObjects-map P Q ((k, none) ∷ m) f h = AllObjects-map P Q m f h
AllObjects-map P Q ((k, some r) ∷ m) f (p, h) = (f r p, AllObjects-map P Q m f h)

-- What an entry needs.
abbrev pub OfObject : (ℕ → Type 0) → Option ℕ → Type 0
OfObject P none = Unit {0}
OfObject P (some r) = P r

AllObjects-cons :
    (P : ℕ → Type 0) (k : List ℕ) (o : Option ℕ) (m : Map (Option ℕ))
    → OfObject P o
    → AllObjects P m
    → AllObjects P ((k, o) ∷ m)
AllObjects-cons P k none m p h = h
AllObjects-cons P k (some r) m p h = (p, h)

pub AllObjects-parts :
    (P : ℕ → Type 0) (k : List ℕ) (o : Option ℕ) (m : Map (Option ℕ))
    → AllObjects P ((k, o) ∷ m)
    → OfObject P o × AllObjects P m
AllObjects-parts P k none m h = (tt, h)
AllObjects-parts P k (some r) m (p, h) = (p, h)

pub map_set-AllObjects :
    (P : ℕ → Type 0) (k : List ℕ) (o : Option ℕ) (m : Map (Option ℕ))
    → OfObject P o
    → AllObjects P m
    → AllObjects P (map_set k o m)
map_set-AllObjects P k o [] p h = AllObjects-cons P k o [] p tt
map_set-AllObjects P k o ((k', o') ∷ m) p h =
    let (p', h') = AllObjects-parts P k' o' m h in
    elim (Bool-cases (same_key k k')) [
      | inl same ↦ rw same (AllObjects-cons P k' o m p h')
      | inr other ↦
          rw other (AllObjects-cons P k' o' (map_set k o m) p' (map_set-AllObjects P k o m p h'))
    ]

pub found-OfObject :
    (P : ℕ → Type 0) (k : List ℕ) (m : Map (Option ℕ))
    → AllObjects P m
    → OfObject P (found (map_get k m))
found-OfObject P k [] h = tt
found-OfObject P k ((k', o') ∷ m) h =
    let (p', h') = AllObjects-parts P k' o' m h in
    elim (Bool-cases (same_key k k')) [
      | inl same ↦ rw same p'
      | inr other ↦ rw other (found-OfObject P k m h')
    ]

-- The heap has grown and is the same below a bound.
abbrev pub Extends : ℕ → Heap → Heap → Type 0
Extends b h h' =
    (h.next ≤ h'.next)
    × ((r : ℕ) → r < b → (h'.accounts r ≡ h.accounts r) × (h'.assets r ≡ h.assets r))

pub Extends-refl : (b : ℕ) (h : Heap) → Extends b h h
Extends-refl b h = (omega arith, λ r p. (refl, refl))

pub Extends-trans : (b c : ℕ) (h i j : Heap) → b ≤ c → Extends b h i → Extends c i j → Extends b h j
Extends-trans b c h i j le (g1, s1) (g2, s2) = (
  omega (arith, g1, g2),
  λ r p. let (a1, t1) = s1 r p in let (a2, t2) = s2 r (omega (arith, le, p)) in (a2 ∙ a1, t2 ∙ t1),
)

pub IsFrom-Extends :
    (b c : ℕ) (h i : Heap) (r : ℕ) → h.next ≤ c → Extends c h i → IsFrom b h r → IsFrom b i r
IsFrom-Extends b c h i r le (grown, same) (low, high, low', high') =
    let (a, t) = same r (omega (arith, le, high)) in
    (low, omega (arith, grown, high), rw a low', rw a (omega (arith, grown, high')))

pub value_of-Extends :
    (c : ℕ) (h i : Heap) (r : ℕ)
    → h.next ≤ c
    → Extends c h i
    → IsFrom 0 h r
    → value_of i r ≡ value_of h r
value_of-Extends c h i r le (grown, same) (low, high, low', high') =
    let (a, t) = same r (omega (arith, le, high)) in
    let (a', t') = same (h.accounts r).asset (omega (arith, le, high')) in rw (a, t') refl

pub allocate-Extends : (a : Account) (h : Heap) → Extends h.next h (allocate a h)
allocate-Extends a h = (
  omega arith,
  λ r p. let other : ((r == h.next) ≡ false) = ground (arith, p) in rw other (refl, refl),
)

pub allocate-IsFrom : (b : ℕ) (a : Account) (h : Heap) → b ≤ h.next → IsFrom b (allocate a h) h.next
allocate-IsFrom b a h le =
    let here : ((h.next == h.next) ≡ true) = ground arith in
    rw here (le, omega arith, le, omega arith)

pub value_of-allocate : (a : Account) (h : Heap) → value_of (allocate a h) h.next ≡ a
value_of-allocate a h =
    let here : ((h.next == h.next) ≡ true) = ground arith in rw here (rw here refl)
