-- ===== src/Tvm/Journal/Rollback.antt =====
-- packages/tvm/src/journal.ts: a revert takes back what was touched and written since its checkpoint.
use tvmjs_monorepo.Prelude.{
  ℕ, ◌≡◌, refl, sym, ap, ◌∙◌, true, false, List, [], ◌∷◌, if◌then◌else◌, Bool-cases, inl, inr,
  arith, ok,
}
use tvmjs_monorepo.Prelude.Int.{ℤ, pos, negsuc, ◌+ℤ◌, ◌-ℤ◌, ltb_ℤ, +ℤ_cancel}
use mathlib.Core.Path.{subst}
use tvmjs_monorepo.Prelude.Maps.{same_key}
use tvmjs_monorepo.Tvm.Journal.{
  has_key, Entry, Journal, touch_account, record_storage_write, add_warmed_address,
  add_warmed_storage, has_map, slots_of, has_storage_write, checkpoint, opened, undo_diff,
  undo_entries, revert, ripemd160_address,
}
use tvmjs_monorepo.Tvm.Journal.KeySets.{
  IsGrown, IsGrown-nothing, IsGrown-cons, restored, has_key-delete_all, has_key-untouch,
  has_key-untouch_ripemd160,
}

-- What a frame of execution records.
pub data Access : Type 0 where
  touch storage_write warm_address : List ℕ → Access
  warm_slot : List ℕ → List ℕ → Access

unfoldable pub access : Access → Journal → Journal
access (touch a) s = touch_account a s
access (storage_write k) s = record_storage_write k s
access (warm_address a) s = add_warmed_address a s
access (warm_slot a k) s = add_warmed_storage a k s

unfoldable pub accesses : List Access → Journal → Journal
unfolding access
accesses [] s = s
accesses (a ∷ rest) s = accesses rest (access a s)

-- A state inside the checkpoint of another.
record IsWithin (t s : Journal) : Type 0 where
  below : s.older ≡ t.newest ∷ t.older
  newest_level : s.newest.at_height ≡ t.height +ℤ pos 1
  level : s.height ≡ t.height +ℤ pos 1
  writes_since : IsGrown t.storage_writes s.storage_writes s.newest.diff.writes
  touched_since : IsGrown t.touched s.touched s.newest.diff.touched_addresses

add_warmed_address-IsWithin :
    (a : List ℕ) (t s : Journal) → IsWithin t s → IsWithin t (add_warmed_address a s)
unfolding add_warmed_address
add_warmed_address-IsWithin a t s w = elim (Bool-cases (has_map a s.warm)) [
  | inl warm ↦ rw warm w
  | inr cold ↦ rw cold (record {
    below = w.below;
    newest_level = w.newest_level;
    level = w.level;
    writes_since = w.writes_since;
    touched_since = w.touched_since;
  })
]

access-IsWithin : (a : Access) (t s : Journal) → IsWithin t s → IsWithin t (access a s)
unfolding access touch_account record_storage_write add_warmed_storage
access-IsWithin (touch a) t s w = elim (Bool-cases (has_key a s.touched)) [
  | inl present ↦ rw present w
  | inr absent ↦ rw absent (record {
    below = w.below;
    newest_level = w.newest_level;
    level = w.level;
    writes_since = w.writes_since;
    touched_since =
        IsGrown-cons a t.touched s.touched s.newest.diff.touched_addresses w.touched_since absent;
  })
]
access-IsWithin (storage_write k) t s w = elim (Bool-cases (has_key k s.storage_writes)) [
  | inl present ↦ rw present w
  | inr absent ↦ rw absent (record {
    below = w.below;
    newest_level = w.newest_level;
    level = w.level;
    writes_since =
        IsGrown-cons k t.storage_writes s.storage_writes s.newest.diff.writes w.writes_since absent;
    touched_since = w.touched_since;
  })
]
access-IsWithin (warm_address a) t s w = add_warmed_address-IsWithin a t s w
access-IsWithin (warm_slot a k) t s w =
    let s' = add_warmed_address a s in
    let w' = add_warmed_address-IsWithin a t s w in
    elim (Bool-cases (has_key k (slots_of a (add_warmed_address a s).warm))) [
      | inl present ↦ rw present w'
      | inr absent ↦ rw absent (record {
        below = w'.below;
        newest_level = w'.newest_level;
        level = w'.level;
        writes_since = w'.writes_since;
        touched_since = w'.touched_since;
      })
    ]

accesses-IsWithin :
    (done : List Access) (t s : Journal) → IsWithin t s → IsWithin t (accesses done s)
unfolding accesses
accesses-IsWithin [] t s w = w
accesses-IsWithin (a ∷ rest) t s w = accesses-IsWithin rest t (access a s) (access-IsWithin a t s w)

opened-IsWithin : (t : Journal) → IsWithin t (opened t)
opened-IsWithin t = record {
  below = refl;
  newest_level = refl;
  level = refl;
  writes_since = IsGrown-nothing t.storage_writes;
  touched_since = IsGrown-nothing t.touched;
}

-- Where the loop of a revert ends.
undo_entries-lower :
    (e : Entry) (older : List Entry) (s : Journal)
    → ltb_ℤ e.at_height s.height ≡ true
    → undo_entries e older s ≡ record s { newest = e; older = older }
unfolding undo_entries
undo_entries-lower e [] s lower = rw lower refl
undo_entries-lower e (e' ∷ older) s lower = rw lower refl

undo_entries-level :
    (e e' : Entry) (older : List Entry) (s : Journal)
    → ltb_ℤ e.at_height s.height ≡ false
    → ltb_ℤ e'.at_height s.height ≡ true
    → undo_entries e (e' ∷ older) s ≡ record (undo_diff e.diff s) { newest = e'; older = older }
unfolding undo_entries
undo_entries-level e e' older s level lower =
    rw level (undo_entries-lower e' older (undo_diff e.diff s) (unfold undo_diff in lower))

-- The level of the checkpoint is undone, the one below is not.
undo_entries-within :
    (t s : Journal)
    → IsWithin t s
    → ltb_ℤ t.newest.at_height (t.height +ℤ pos 1) ≡ true
    → undo_entries s.newest s.older s
      ≡ record (undo_diff s.newest.diff s) { newest = t.newest; older = t.older }
undo_entries-within t s w lower =
    let same_level : ltb_ℤ s.newest.at_height s.height ≡ false =
      rw (w.newest_level, w.level) (irreflexive (t.height +ℤ pos 1)) in
    let below : ltb_ℤ t.newest.at_height s.height ≡ true = rw w.level lower in
    ap (λ older. undo_entries s.newest older s) w.below
    ∙ undo_entries-level s.newest t.newest t.older s same_level below
  where
    irreflexive : (h : ℤ) → ltb_ℤ h h ≡ false
    irreflexive (pos n) = ground arith
    irreflexive (negsuc n) = ground arith

-- The state after a checkpoint and accesses, and after its revert.
abbrev pub inside : List Access → Journal → Journal
inside done t = accesses done (checkpoint {Rejection = Unit {0}} (ok tt) t).0

abbrev pub reverted : List Access → Journal → Journal
reverted done t = (revert {Rejection = Unit {0}} (ok tt) (inside done t)).0

-- What is as before once the differences are undone.
abbrev IsUndone : Journal → Journal → List ℕ → List ℕ → Journal → Type 0
IsUndone t s k a u =
    (u.height -ℤ pos 1 ≡ t.height)
    × (u.newest ≡ t.newest)
    × (u.older ≡ t.older)
    × (has_key k u.storage_writes ≡ has_key k t.storage_writes)
    × (has_key a u.touched
        ≡ (if same_key a ripemd160_address then has_key a s.touched else has_key a t.touched))

undo_diff-IsUndone :
    (t s : Journal) (k a : List ℕ)
    → IsWithin t s
    → IsUndone t s k a (record (undo_diff s.newest.diff s) { newest = t.newest; older = t.older })
unfolding undo_diff
undo_diff-IsUndone t s k a w =
    let writes = s.newest.diff.writes in
    let addresses = s.newest.diff.touched_addresses in
    (
      ap (λ h. h -ℤ pos 1) w.level ∙ +ℤ_cancel t.height (pos 1),
      refl,
      refl,
      has_key-delete_all writes k s.storage_writes
          ∙ restored (has_key k t.storage_writes) (has_key k writes) (has_key k s.storage_writes)
              (w.writes_since.whole k) (w.writes_since.fresh k),
      elim (Bool-cases (same_key a ripemd160_address)) [
        | inl ripemd ↦ rw ripemd (has_key-untouch_ripemd160 addresses a s.touched ripemd)
        | inr other ↦ rw other (
            has_key-untouch addresses a s.touched other
            ∙ restored (has_key a t.touched) (has_key a addresses) (has_key a s.touched)
                (w.touched_since.whole a) (w.touched_since.fresh a))
      ],
    )

-- In a journal whose newest difference is not above its height: after a checkpoint, any run of
-- touches, storage writes and warmings, and a revert, none of them rejected, the height and the
-- differences are those of before, a key is written exactly if it was before, and an address is
-- touched exactly if it was before, except that RIPEMD160 is as it was before the revert.
pub revert-accesses :
    (t : Journal) (done : List Access) (k a : List ℕ)
    → ltb_ℤ t.newest.at_height (t.height +ℤ pos 1) ≡ true
    → ((reverted done t).height ≡ t.height)
      × ((reverted done t).newest ≡ t.newest)
      × ((reverted done t).older ≡ t.older)
      × (has_storage_write k (reverted done t) ≡ has_storage_write k t)
      × (has_key a (reverted done t).touched ≡ (
          if same_key a ripemd160_address
          then has_key a (inside done t).touched
          else has_key a t.touched))
unfolding checkpoint revert has_storage_write
revert-accesses t done k a lower =
    let s = accesses done (opened t) in
    let w = accesses-IsWithin done t (opened t) (opened-IsWithin t) in
    subst (IsUndone t s k a) (sym (undo_entries-within t s w lower)) (undo_diff-IsUndone t s k a w)
