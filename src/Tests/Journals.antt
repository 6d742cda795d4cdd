-- ===== src/Tests/Journals.antt =====
-- The journal at a concrete state.
use tvmjs_monorepo.Prelude.{◌≡◌, refl, true, [], ◌∷◌, List, if◌then◌else◌}
use tvmjs_monorepo.Prelude.Int.{pos, ltb_ℤ, ◌+ℤ◌}
use tvmjs_monorepo.Prelude.Maps.{same_key}
use tvmjs_monorepo.Tvm.Journal.{
  Journal, entry, no_diff, clean_journal, has_key, has_storage_write, checkpoint, ripemd160_address,
  add_warmed_storage, touch_account, record_storage_write,
}
use tvmjs_monorepo.Tvm.Journal.Rollback.{
  Access, touch, storage_write, warm_slot, accesses, inside, reverted, revert-accesses,
}

-- A journal with a written key, and what a frame does in a checkpoint of it.
abbrev with_write : Journal
with_write = record clean_journal {
  storage_writes = (7 ∷ []) ∷ [];
  newest = entry (pos 0) (record no_diff { writes = (7 ∷ []) ∷ [] });
}

abbrev frame : List Access
frame =
    storage_write (7 ∷ [])
    ∷ storage_write (8 ∷ [])
    ∷ touch (1 ∷ [])
    ∷ warm_slot (1 ∷ []) (2 ∷ [])
    ∷ []

not_above : ltb_ℤ with_write.newest.at_height (with_write.height +ℤ pos 1) ≡ true
unfolding clean_journal ◌+ℤ◌
not_above = refl

revert-accesses_example :
    ((reverted frame with_write).height ≡ with_write.height)
    × ((reverted frame with_write).newest ≡ with_write.newest)
    × ((reverted frame with_write).older ≡ with_write.older)
    × (has_storage_write (8 ∷ []) (reverted frame with_write)
        ≡ has_storage_write (8 ∷ []) with_write)
    × (has_key (1 ∷ []) (reverted frame with_write).touched ≡ (
        if same_key (1 ∷ []) ripemd160_address
        then has_key (1 ∷ []) (inside frame with_write).touched
        else has_key (1 ∷ []) with_write.touched))
revert-accesses_example = revert-accesses with_write frame (8 ∷ []) (1 ∷ []) not_above

written_inside : has_storage_write (8 ∷ []) (inside frame with_write) ≡ true
unfolding has_storage_write accesses checkpoint clean_journal add_warmed_storage touch_account
    record_storage_write
written_inside = refl
