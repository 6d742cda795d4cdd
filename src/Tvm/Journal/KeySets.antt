-- ===== src/Tvm/Journal/KeySets.antt =====
-- packages/tvm/src/journal.ts: sets of keys that grow with a difference, which takes the growth back.
use tvmjs_monorepo.Prelude.{
  ℕ, ◌≡◌, refl, sym, ◌∙◌, Bool, true, false, List, [], ◌∷◌, ◌||◌, ◌&&◌, not, Bool-cases, inl, inr,
}
use mathlib.Core.Path.{subst}
use tvmjs_monorepo.Prelude.Maps.{same_key, same_key_sound}
use tvmjs_monorepo.Tvm.Journal.{
  Keys, has_key, add_key, delete_key, delete_all, untouch, ripemd160_address,
}

pub has_key-add_key :
    (k k' : List ℕ) (keys : Keys) → has_key k' (add_key k keys) ≡ (same_key k' k || has_key k' keys)
unfolding has_key add_key
has_key-add_key k k' keys = elim (Bool-cases (has_key k keys)) [
  | inr fresh ↦ rw fresh refl
  | inl present ↦ rw present (elim (Bool-cases (same_key k' k)) [
    | inr other ↦ rw other refl
    | inl same ↦ let equal = same_key_sound k' k same in rw (same, equal) present
  ])
]

pub has_key-delete_key :
    (k k' : List ℕ) (keys : Keys)
    → has_key k' (delete_key k keys) ≡ (has_key k' keys && not (same_key k' k))
unfolding has_key delete_key
has_key-delete_key k k' [] = refl
has_key-delete_key k k' (x ∷ keys) = elim (Bool-cases (same_key x k)) [
  | inl same ↦
      let equal = same_key_sound x k same in
      rw (same, has_key-delete_key k k' keys, equal) (absorb (same_key k' k) (has_key k' keys))
  | inr other ↦
      rw (other, has_key-delete_key k k' keys)
        (elim (Bool-cases (same_key k' x)) [
          | inr apart ↦ rw apart refl
          | inl same ↦ let equal = same_key_sound k' x same in rw (same, equal, other) refl
        ])
]
  where
    absorb : (a b : Bool) → (b && not a) ≡ ((a || b) && not a)
    absorb true true = refl
    absorb true false = refl
    absorb false b = refl

pub has_key-delete_all :
    (ks : Keys) (k' : List ℕ) (keys : Keys)
    → has_key k' (delete_all ks keys) ≡ (has_key k' keys && not (has_key k' ks))
unfolding delete_all has_key
has_key-delete_all [] k' keys = and_true (has_key k' keys)
  where
    and_true : (b : Bool) → b ≡ (b && true)
    and_true true = refl
    and_true false = refl
has_key-delete_all (k ∷ ks) k' keys =
    rw (has_key-delete_all ks k' (delete_key k keys), has_key-delete_key k k' keys)
      (regroup (has_key k' keys) (same_key k' k) (has_key k' ks))
  where
    regroup : (a b c : Bool) → ((a && not b) && not c) ≡ (a && not (b || c))
    regroup true true c = refl
    regroup true false c = refl
    regroup false b c = refl

-- The loop over the touched addresses leaves one of them.
pub has_key-untouch :
    (ks : Keys) (k' : List ℕ) (keys : Keys)
    → same_key k' ripemd160_address ≡ false
    → has_key k' (untouch ks keys) ≡ (has_key k' keys && not (has_key k' ks))
unfolding untouch has_key
has_key-untouch [] k' keys h = and_true (has_key k' keys)
  where
    and_true : (b : Bool) → b ≡ (b && true)
    and_true true = refl
    and_true false = refl
has_key-untouch (k ∷ ks) k' keys h = elim (Bool-cases (same_key k ripemd160_address)) [
  | inl kept ↦
      let equal = same_key_sound k ripemd160_address kept in
      rw (kept, has_key-untouch ks k' keys h) (rw (equal, h) refl)
  | inr deleted ↦
      rw (deleted, has_key-untouch ks k' (delete_key k keys) h, has_key-delete_key k k' keys)
        (regroup (has_key k' keys) (same_key k' k) (has_key k' ks))
]
  where
    regroup : (a b c : Bool) → ((a && not b) && not c) ≡ (a && not (b || c))
    regroup true true c = refl
    regroup true false c = refl
    regroup false b c = refl

-- What was recorded since: what there was before, and the new keys of the difference.
pub record IsGrown (before now since : Keys) : Type 0 where
  pub whole : (k : List ℕ) → has_key k now ≡ (has_key k before || has_key k since)
  pub fresh : (k : List ℕ) → (has_key k before && has_key k since) ≡ false

pub IsGrown-nothing : (keys : Keys) → IsGrown keys keys []
unfolding has_key
IsGrown-nothing keys = record {
  whole = λ k. or_false (has_key k keys);
  fresh = λ k. and_false (has_key k keys);
}
  where
    or_false : (b : Bool) → b ≡ (b || false)
    or_false true = refl
    or_false false = refl

    and_false : (b : Bool) → (b && false) ≡ false
    and_false true = refl
    and_false false = refl

IsGrown-add_key :
    (k : List ℕ) (before now since : Keys)
    → IsGrown before now since
    → has_key k now ≡ false
    → IsGrown before (add_key k now) (add_key k since)
IsGrown-add_key k before now since g absent = record {
  whole = λ k'.
      rw (has_key-add_key k k' now, has_key-add_key k k' since, g.whole k')
        (swap (same_key k' k) (has_key k' before) (has_key k' since));
  fresh = λ k'. rw (has_key-add_key k k' since) (elim (Bool-cases (same_key k' k)) [
    | inr other ↦ rw other (g.fresh k')
    | inl same ↦
        let equal = same_key_sound k' k same in
        let nowhere : (has_key k' before || has_key k' since) ≡ false =
          sym (g.whole k') ∙ rw equal absent in
        rw same (left (has_key k' before) (has_key k' since) nowhere)
  ]);
}
  where
    swap : (a b c : Bool) → (a || b || c) ≡ (b || a || c)
    swap true true c = refl
    swap true false c = refl
    swap false b c = refl

    left : (b c : Bool) → (b || c) ≡ false → (b && true) ≡ false
    left true c e = cc
    left false c e = refl

add_key_absent : (k : List ℕ) (keys : Keys) → has_key k keys ≡ false → add_key k keys ≡ k ∷ keys
unfolding add_key
add_key_absent k keys absent = rw absent refl

pub IsGrown-cons :
    (k : List ℕ) (before now since : Keys)
    → IsGrown before now since
    → has_key k now ≡ false
    → IsGrown before (k ∷ now) (add_key k since)
IsGrown-cons k before now since g absent =
    subst (λ keys. IsGrown before keys (add_key k since)) (add_key_absent k now absent)
      (IsGrown-add_key k before now since g absent)

pub restored : (b c now : Bool) → now ≡ (b || c) → (b && c) ≡ false → (now && not c) ≡ b
restored true true now e f = cc
restored true false now e f = rw e refl
restored false true now e f = rw e refl
restored false false now e f = rw e refl

-- RIPEMD160 stays touched.
pub has_key-untouch_ripemd160 :
    (ks : Keys) (k' : List ℕ) (keys : Keys)
    → same_key k' ripemd160_address ≡ true
    → has_key k' (untouch ks keys) ≡ has_key k' keys
unfolding untouch
has_key-untouch_ripemd160 [] k' keys h = refl
has_key-untouch_ripemd160 (k ∷ ks) k' keys h = elim (Bool-cases (same_key k ripemd160_address)) [
  | inl kept ↦ rw kept (has_key-untouch_ripemd160 ks k' keys h)
  | inr deleted ↦
      let equal = same_key_sound k' ripemd160_address h in
      let apart : same_key k' k ≡ false = rw equal (differ k deleted) in
      rw
        (
          deleted,
          has_key-untouch_ripemd160 ks k' (delete_key k keys) h,
          has_key-delete_key k k' keys,
          apart,
        )
        (and_true (has_key k' keys))
]
  where
    and_true : (b : Bool) → (b && true) ≡ b
    and_true true = refl
    and_true false = refl

    differ :
        (k : List ℕ) → same_key k ripemd160_address ≡ false → same_key ripemd160_address k ≡ false
    differ k e = elim (Bool-cases (same_key ripemd160_address k)) [
      | inr apart ↦ apart
      | inl same ↦
          let equal = same_key_sound ripemd160_address k same in
          let self : same_key ripemd160_address ripemd160_address ≡ false = rw (← equal) at e in cc
    ]
