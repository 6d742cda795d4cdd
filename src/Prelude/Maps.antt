-- ===== src/Prelude/Maps.antt =====
-- `Map` of JavaScript as an association list: a key that is set again keeps its place.
use Prim.Native.Nat.{ℕ}
use mathlib.Core.Path.{◌≡◌, refl}
use mathlib.Core.Bool.{Bool, true, false}
use mathlib.Core.List.{List, [], ◌∷◌}
use mathlib.Core.Option.{Option, none, some}
use native.Mathlib.Omega.{arith}
use tvmjs_monorepo.Prelude.Tests.{◌==◌, if◌then◌else◌, ◌&&◌}

-- Keys are lists of numbers, the bytes that a hexadecimal string stands for.
abbrev pub same_key : List ℕ → List ℕ → Bool
same_key [] [] = true
same_key [] (y ∷ ys) = false
same_key (x ∷ xs) [] = false
same_key (x ∷ xs) (y ∷ ys) = x == y && same_key xs ys

abbrev pub Map {ℓ} : Type ℓ → Type ℓ
Map V = List (List ℕ × V)

module _ {ℓ} {V : Type ℓ} where
  abbrev pub map_get : List ℕ → Map V → Option V
  map_get k [] = none
  map_get k ((k', v) ∷ rest) = if same_key k k' then some v else map_get k rest

  abbrev pub map_set : List ℕ → V → Map V → Map V
  map_set k v [] = (k, v) ∷ []
  map_set k v ((k', v') ∷ rest) =
      if same_key k k' then (k', v) ∷ rest else (k', v') ∷ map_set k v rest

pub same_key_refl : (k : List ℕ) → same_key k k ≡ true
same_key_refl [] = refl
same_key_refl (x ∷ xs) = ground (arith, same_key_refl xs)

pub same_key_sound : (k k' : List ℕ) → same_key k k' ≡ true → k ≡ k'
same_key_sound [] [] e = refl
same_key_sound [] (y ∷ ys) e = cc
same_key_sound (x ∷ xs) [] e = cc
same_key_sound (x ∷ xs) (y ∷ ys) e = ground (arith, same_key_sound xs ys)

pub map_get-map_set {ℓ} :
    {V : Type ℓ} (k k' : List ℕ) (v : V) (m : Map V)
    → map_get k' (map_set k v m) ≡ (if same_key k' k then some v else map_get k' m)
map_get-map_set k k' v [] = refl
map_get-map_set k k' v ((k'', v') ∷ rest) = ground (
  arith,
  map_get-map_set k k' v rest,
  same_key_sound k k'',
  same_key_sound k' k,
  same_key_sound k' k'',
  same_key_refl k,
)
