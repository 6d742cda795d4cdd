-- ===== src/Tvm/Call/Protocol/Atomic.antt =====
-- packages/tvm/src/tvm.ts: a message call that throws leaves every layer as it was, or with its checkpoints.
use tvmjs_monorepo.Prelude.{
  ◌≡◌, refl, Bool, true, false, ◌||◌, ◌&&◌, List, Option, some, none, inl, inr, Result, ok, err,
  Bool-cases, if◌then◌else◌, arith,
}
use tvmjs_monorepo.Prelude.Effects.{Effect, after, ◌>>=◌, ◌>>◌, return, throw}
use tvmjs_monorepo.Tvm.Call.Protocol.{
  Methods, Which, outer_checkpoint, execution_checkpoint, Guarded, layer_call, layer_end, CallState,
  at_rest, is_active, first_of, error_of, outcome_of, Call, on_journal, on_storage, on_list, when,
  attempt, take_checkpoint, commit, revert, revert_for_cleanup, clean_up, finish, settle, execution,
  guarded, run_call,
}
use tvmjs_monorepo.Tvm.Call.Protocol.Layers.{
  IsLayer, KeepsOutermost, IsAligned, Outcome, LayerAt, LayerStep, checkpoint_outer-step,
  checkpoint_execution-step, revert_execution-IsAligned, revert_outer-IsAligned,
}
use tvmjs_monorepo.Tvm.Call.Protocol.Ends.{
  IsReliable, Keeps, LayerDone, Keeps-LayerAt, commit_execution-any, revert_execution-any,
  commit_outer-first, commit_outer-later,
}

module _ {J T B E V W U : Type 0} (eip7928 eip1153 : Bool) (journal : Methods J E)
    (storage : Methods T E) (access_list : Methods B E) (lj : IsLayer journal V)
    (ls : IsLayer storage W) (ll : IsLayer access_list U) (vj : V × List V) (vs : W × List W)
    (vl : U × List U) where
  -- The flags of every layer.
  abbrev At : Bool → Bool → Bool → Bool → Bool → Bool → CallState J T B → Type 0
  At jo je so se lo le s =
      LayerAt journal lj vj jo je s.journal
      × LayerAt storage ls vs so se s.transient_storage
      × LayerAt access_list ll vl lo le s.block_level_access_list

  -- Every layer is as it was where its flags are off, and has its checkpoints where they are on.
  abbrev pub AllAligned : CallState J T B → Type 0
  AllAligned s =
      IsAligned journal lj vj s.journal
      × IsAligned storage ls vs s.transient_storage
      × IsAligned access_list ll vl s.block_level_access_list

  abbrev pub AllDone : CallState J T B → Type 0
  AllDone s =
      LayerDone journal lj vj s.journal
      × LayerDone storage ls vs s.transient_storage
      × LayerDone access_list ll vl s.block_level_access_list

  abbrev Triple {ℓ} :
      {A : Type ℓ}
      → (CallState J T B → Type 0)
      → (CallState J T B → Type 0)
      → Call J T B E A
      → Type 0
  Triple P Q f = (s : CallState J T B) → P s → Outcome Q AllAligned (f s)

  bind-Triple {ℓ κ} :
      {A : Type ℓ} {C : Type κ} (P Q R : CallState J T B → Type 0) (f : Call J T B E A)
      (k : A → Call J T B E C)
      → Triple P Q f
      → ((a : A) → Triple Q R (k a))
      → Triple P R (f >>= k)
  bind-Triple {A = A} P Q R f k hf hk s p = next (f s).0 (f s).1 (hf s p)
    where
      next :
          (t : CallState J T B) (r : Result E A)
          → Outcome Q AllAligned (t, r)
          → Outcome R AllAligned (after k t r)
      next t (ok a) q = hk a t q
      next t (err e) q = q

  on_journal-Triple :
      (jo je so se lo le jo' je' : Bool) (f : Effect (Guarded J) E (Unit {0}))
      → LayerStep journal lj vj jo je jo' je' f
      → Triple (At jo je so se lo le) (At jo' je' so se lo le) (on_journal J T B E f)
  on_journal-Triple jo je so se lo le jo' je' f step s (before, st, li) =
      by_outcome (f s.journal).0 (f s.journal).1 (step s.journal before)
    where
      by_outcome :
          (g : Guarded J) (r : Result E (Unit {0}))
          → Outcome (LayerAt journal lj vj jo' je') (LayerAt journal lj vj jo je) (g, r)
          → Outcome (At jo' je' so se lo le) AllAligned (record s { journal = g }, r)
      by_outcome g (ok done) h = (h, st, li)
      by_outcome g (err thrown) h = (h.2, st.2, li.2)

  on_storage-Triple :
      (jo je so se lo le so' se' : Bool) (f : Effect (Guarded T) E (Unit {0}))
      → LayerStep storage ls vs so se so' se' f
      → Triple (At jo je so se lo le) (At jo je so' se' lo le) (on_storage J T B E f)
  on_storage-Triple jo je so se lo le so' se' f step s (j, before, li) =
      by_outcome (f s.transient_storage).0 (f s.transient_storage).1
        (step s.transient_storage before)
    where
      by_outcome :
          (g : Guarded T) (r : Result E (Unit {0}))
          → Outcome (LayerAt storage ls vs so' se') (LayerAt storage ls vs so se) (g, r)
          → Outcome (At jo je so' se' lo le) AllAligned (record s { transient_storage = g }, r)
      by_outcome g (ok done) h = (j, h, li)
      by_outcome g (err thrown) h = (j.2, h.2, li.2)

  on_list-Triple :
      (jo je so se lo le lo' le' : Bool) (f : Effect (Guarded B) E (Unit {0}))
      → LayerStep access_list ll vl lo le lo' le' f
      → Triple (At jo je so se lo le) (At jo je so se lo' le') (on_list J T B E f)
  on_list-Triple jo je so se lo le lo' le' f step s (j, st, before) =
      by_outcome (f s.block_level_access_list).0 (f s.block_level_access_list).1
        (step s.block_level_access_list before)
    where
      by_outcome :
          (g : Guarded B) (r : Result E (Unit {0}))
          → Outcome (LayerAt access_list ll vl lo' le') (LayerAt access_list ll vl lo le) (g, r)
          → Outcome
              (At jo je so se lo' le')
              AllAligned
              (record s { block_level_access_list = g }, r)
      by_outcome g (ok done) h = (j, st, h)
      by_outcome g (err thrown) h = (j.2, st.2, h.2)

  -- The switched off layers keep their flags off.
  when_list-outer :
      (on jo je so se : Bool)
      → Triple (At jo je so se false false) (At jo je so se on false) (
          when J T B E on
            (on_list J T B E (layer_call outer_checkpoint true access_list.checkpoint)))
  when_list-outer true jo je so se =
      on_list-Triple jo je so se false false true false _ (checkpoint_outer-step access_list ll vl)
  when_list-outer false jo je so se = λ s p. p

  when_list-execution :
      (on jo je so se : Bool)
      → Triple (At jo je so se on false) (At jo je so se on on) (
          when J T B E on
            (on_list J T B E (layer_call execution_checkpoint true access_list.checkpoint)))
  when_list-execution true jo je so se =
      on_list-Triple jo je so se true false true true _
        (checkpoint_execution-step access_list ll vl)
  when_list-execution false jo je so se = λ s p. p

  when_storage-outer :
      (on jo je lo le : Bool)
      → Triple (At jo je false false lo le) (At jo je on false lo le) (
          when J T B E on
            (on_storage J T B E (layer_call outer_checkpoint true storage.checkpoint)))
  when_storage-outer true jo je lo le =
      on_storage-Triple jo je false false lo le true false _ (checkpoint_outer-step storage ls vs)
  when_storage-outer false jo je lo le = λ s p. p

  when_storage-execution :
      (on jo je lo le : Bool)
      → Triple (At jo je on false lo le) (At jo je on on lo le) (
          when J T B E on
            (on_storage J T B E (layer_call execution_checkpoint true storage.checkpoint)))
  when_storage-execution true jo je lo le =
      on_storage-Triple jo je true false lo le true true _ (checkpoint_execution-step storage ls vs)
  when_storage-execution false jo je lo le = λ s p. p

  abbrev Idle : CallState J T B → Type 0
  Idle = At false false false false false false

  abbrev Outside : CallState J T B → Type 0
  Outside = At true false eip1153 false eip7928 false

  abbrev Inside : CallState J T B → Type 0
  Inside = At true true eip1153 eip1153 eip7928 eip7928

  then-Triple {κ} :
      {C : Type κ} (P Q R : CallState J T B → Type 0) (f : Call J T B E (Unit {0}))
      (k : Call J T B E C)
      → Triple P Q f
      → Triple Q R k
      → Triple P R (f >> k)
  then-Triple P Q R f k hf hk = bind-Triple P Q R f (λ done. k) hf (λ done. hk)

  take_outer-Triple :
      Triple Idle Outside
        (take_checkpoint J T B E eip7928 eip1153 journal storage access_list outer_checkpoint)
  unfolding take_checkpoint
  take_outer-Triple =
      then-Triple Idle (At false false false false eip7928 false) Outside _ _
        (when_list-outer eip7928 false false false false)
        (then-Triple (At false false false false eip7928 false)
          (At true false false false eip7928 false) Outside _ _
          (on_journal-Triple false false false false eip7928 false true false _
            (checkpoint_outer-step journal lj vj))
          (when_storage-outer eip1153 true false eip7928 false))

  take_execution-Triple :
      Triple Outside Inside
        (take_checkpoint J T B E eip7928 eip1153 journal storage access_list execution_checkpoint)
  unfolding take_checkpoint
  take_execution-Triple =
      then-Triple Outside (At true false eip1153 false eip7928 eip7928) Inside _ _
        (when_list-execution eip7928 true false eip1153 false)
        (then-Triple (At true false eip1153 false eip7928 eip7928)
          (At true true eip1153 false eip7928 eip7928) Inside _ _
          (on_journal-Triple true false eip1153 false eip7928 eip7928 true true _
            (checkpoint_execution-step journal lj vj))
          (when_storage-execution eip1153 true true eip7928 eip7928))

  commit_execution-Triple :
      Triple Inside Outside
        (commit J T B E eip7928 eip1153 journal storage access_list execution_checkpoint)
  unfolding commit
  commit_execution-Triple =
      then-Triple Inside (At true false eip1153 eip1153 eip7928 eip7928) Outside _ _
        (on_journal-Triple true true eip1153 eip1153 eip7928 eip7928 true false _
          (commit_execution-any journal lj vj true))
        (then-Triple (At true false eip1153 eip1153 eip7928 eip7928)
          (At true false eip1153 false eip7928 eip7928) Outside _ _
          (on_storage-Triple true false eip1153 eip1153 eip7928 eip7928 eip1153 false _
            (commit_execution-any storage ls vs eip1153))
          (on_list-Triple true false eip1153 false eip7928 eip7928 eip7928 false _
            (commit_execution-any access_list ll vl eip7928)))

  IsAligned-of :
      {X Y : Type 0} (n : Methods X E) (l : IsLayer n Y) (v0 : Y × List Y) (o e o' e' : Bool)
      (g : Guarded X) (r : Result E (Unit {0}))
      → Outcome (LayerAt n l v0 o e) (LayerAt n l v0 o' e') (g, r)
      → IsAligned n l v0 g
  IsAligned-of n l v0 o e o' e' g (ok done) h = h.2
  IsAligned-of n l v0 o e o' e' g (err thrown) h = h.2

  revert_execution-Triple :
      (preserve : Bool)
      → Triple Inside Outside
          (revert J T B E eip7928 eip1153 journal storage access_list execution_checkpoint preserve)
  unfolding revert
  revert_execution-Triple preserve s (j, st, li) =
      by_outcomes (fj s.journal).0 (fj s.journal).1 (fs s.transient_storage).0
        (fs s.transient_storage).1 (fl s.block_level_access_list).0 (fl s.block_level_access_list).1
        (revert_execution-any journal lj vj true preserve s.journal j)
        (revert_execution-any storage ls vs eip1153 preserve s.transient_storage st)
        (revert_execution-any access_list ll vl eip7928 preserve s.block_level_access_list li)
    where
      fj : Effect (Guarded J) E (Unit {0})
      fj = layer_end execution_checkpoint (journal.revert preserve)

      fs : Effect (Guarded T) E (Unit {0})
      fs = layer_end execution_checkpoint (storage.revert preserve)

      fl : Effect (Guarded B) E (Unit {0})
      fl = layer_end execution_checkpoint (access_list.revert preserve)

      by_outcomes :
          (gj : Guarded J) (rj : Result E (Unit {0})) (gs : Guarded T) (rs : Result E (Unit {0}))
          (gl : Guarded B) (rl : Result E (Unit {0}))
          → Outcome (LayerAt journal lj vj true false) (LayerAt journal lj vj true true) (gj, rj)
          → Outcome
              (LayerAt storage ls vs eip1153 false)
              (LayerAt storage ls vs eip1153 eip1153)
              (gs, rs)
          → Outcome
              (LayerAt access_list ll vl eip7928 false)
              (LayerAt access_list ll vl eip7928 eip7928)
              (gl, rl)
          → Outcome Outside AllAligned (
            record { journal = gj; transient_storage = gs; block_level_access_list = gl },
            outcome_of (first_of (first_of (error_of rj) (error_of rs)) (error_of rl)),
          )
      by_outcomes gj (ok a) gs (ok b) gl (ok c) hj hs hl = (hj, hs, hl)
      by_outcomes gj (ok a) gs (ok b) gl (err e) hj hs hl = (hj.2, hs.2, hl.2)
      by_outcomes gj (ok a) gs (err e) gl rl hj hs hl =
          (hj.2, hs.2, IsAligned-of access_list ll vl eip7928 false eip7928 eip7928 gl rl hl)
      by_outcomes gj (err e) gs rs gl rl hj hs hl = (
        hj.2,
        IsAligned-of storage ls vs eip1153 false eip1153 eip1153 gs rs hs,
        IsAligned-of access_list ll vl eip7928 false eip7928 eip7928 gl rl hl,
      )

  -- What code between the checkpoints keeps to.
  abbrev pub AllKept {ℓ} : {A : Type ℓ} → Call J T B E A → Type 0
  AllKept f =
      (s : CallState J T B)
      → Keeps journal lj true s.journal (f s).0.journal
        × Keeps storage ls eip1153 s.transient_storage (f s).0.transient_storage
        × Keeps access_list ll eip7928 s.block_level_access_list (f s).0.block_level_access_list

  AllKept-Triple {ℓ} :
      {A : Type ℓ} (e : Bool) (f : Call J T B E A)
      → AllKept f
      → Triple
          (At true (e && true) eip1153 (e && eip1153) eip7928 (e && eip7928))
          (At true (e && true) eip1153 (e && eip1153) eip7928 (e && eip7928))
          f
  AllKept-Triple {A = A} e f kept s (j, st, li) = by_outcome (f s).1 (
    Keeps-LayerAt journal lj vj true e s.journal (f s).0.journal (kept s).0 j,
    Keeps-LayerAt storage ls vs eip1153 e s.transient_storage (f s).0.transient_storage (kept s).1
        st,
    Keeps-LayerAt access_list ll vl eip7928 e s.block_level_access_list
        (f s).0.block_level_access_list (kept s).2 li,
  )
    where
      by_outcome :
          (r : Result E A)
          → At true (e && true) eip1153 (e && eip1153) eip7928 (e && eip7928) (f s).0
          → Outcome
              (At true (e && true) eip1153 (e && eip1153) eip7928 (e && eip7928))
              AllAligned
              ((f s).0, r)
      by_outcome (ok a) h = h
      by_outcome (err thrown) h = (h.0.2, h.1.2, h.2.2)

  -- Code that returns, and what holds then.
  abbrev Sure {ℓ} :
      {A : Type ℓ}
      → (CallState J T B → Type 0)
      → (CallState J T B → Type 0)
      → Call J T B E A
      → Type ℓ
  Sure {A = A} P Q f = (s : CallState J T B) → P s → (a : A) × ((f s).1 ≡ ok a) × Q (f s).0

  bind-Sure {ℓ κ} :
      {A : Type ℓ} {C : Type κ} (P Q R : CallState J T B → Type 0) (f : Call J T B E A)
      (k : A → Call J T B E C)
      → Sure P Q f
      → ((a : A) → Sure Q R (k a))
      → Sure P R (f >>= k)
  bind-Sure P Q R f k hf hk s p = let (a, returned, q) = hf s p in rw returned (hk a (f s).0 q)

  -- No inner checkpoint is active.
  abbrev NoExecution : CallState J T B → Type 0
  NoExecution s =
      AllAligned s
      × (s.journal.execution ≡ false)
      × (s.transient_storage.execution ≡ false)
      × (s.block_level_access_list.execution ≡ false)

  attempt_execution-Sure :
      (preserve : Bool)
      → Sure AllAligned AllAligned (
          attempt J T B E (
            revert J T B E eip7928 eip1153 journal storage access_list execution_checkpoint
              preserve))
  unfolding revert
  attempt_execution-Sure preserve s (j, st, li) = (
    _,
    refl,
    (
      revert_execution-IsAligned journal lj vj preserve s.journal j,
      revert_execution-IsAligned storage ls vs preserve s.transient_storage st,
      revert_execution-IsAligned access_list ll vl preserve s.block_level_access_list li,
    ),
  )

  -- The second try, whatever came of the first.
  again-Sure :
      (P : CallState J T B → Type 0) (k : Which) (preserve : Bool)
      → Sure P P
          (attempt J T B E (revert J T B E eip7928 eip1153 journal storage access_list k preserve))
      → (first : Option E) (still : Bool)
      → Sure {A = Option E} P P (elim first [
        | none ↦ return none
        | some e ↦
            if still
            then attempt J T B E
                (revert J T B E eip7928 eip1153 journal storage access_list k preserve)
            else return (some e)
      ])
  again-Sure P k preserve sure none still s p = (none, refl, p)
  again-Sure P k preserve sure (some e) true s p = sure s p
  again-Sure P k preserve sure (some e) false s p = (some e, refl, p)

  revert_for_cleanup-Sure :
      (P : CallState J T B → Type 0) (k : Which) (preserve : Bool)
      → Sure P P
          (attempt J T B E (revert J T B E eip7928 eip1153 journal storage access_list k preserve))
      → Sure P P (revert_for_cleanup J T B E eip7928 eip1153 journal storage access_list k preserve)
  unfolding revert_for_cleanup
  revert_for_cleanup-Sure P k preserve sure =
      bind-Sure P P P _ _ sure (λ first s p. again-Sure P k preserve sure first (is_active k s) s p)

  none_active : (a b c : Bool) → (a || (b || c)) ≡ false → (a ≡ false) × (b ≡ false) × (c ≡ false)
  none_active a b c h = ground arith

  module _ (outermost : KeepsOutermost journal lj vj.1)
      (outermost_storage : KeepsOutermost storage ls vs.1)
      (outermost_list : KeepsOutermost access_list ll vl.1)
      (reliable_storage : IsReliable storage ls) (reliable_list : IsReliable access_list ll) where
    attempt_outer-Sure : Sure NoExecution NoExecution (
        attempt J T B E
          (revert J T B E eip7928 eip1153 journal storage access_list outer_checkpoint false))
    unfolding revert
    attempt_outer-Sure s ((j, st, li), ej, es, el) =
        let (j', ej') = revert_outer-IsAligned journal lj vj outermost s.journal ej j in
        let (st', es') =
          revert_outer-IsAligned storage ls vs outermost_storage s.transient_storage es st in
        let (li', el') =
          revert_outer-IsAligned access_list ll vl outermost_list s.block_level_access_list el li in
        (_, refl, ((j', st', li'), ej', es', el'))

    commit_outer-Triple :
        Triple Outside AllDone
          (commit J T B E eip7928 eip1153 journal storage access_list outer_checkpoint)
    unfolding commit
    commit_outer-Triple =
        then-Triple Outside JournalDone AllDone _ _ journal_part
          (then-Triple JournalDone StorageDone AllDone _ _ storage_part list_part)
      where
        JournalDone : CallState J T B → Type 0
        JournalDone s =
            LayerDone journal lj vj s.journal
            × LayerAt storage ls vs eip1153 false s.transient_storage
            × LayerAt access_list ll vl eip7928 false s.block_level_access_list

        StorageDone : CallState J T B → Type 0
        StorageDone s =
            LayerDone journal lj vj s.journal
            × LayerDone storage ls vs s.transient_storage
            × LayerAt access_list ll vl eip7928 false s.block_level_access_list

        by_outcome :
            (s : CallState J T B) (g : Guarded J) (r : Result E (Unit {0}))
            → LayerAt storage ls vs eip1153 false s.transient_storage
            → LayerAt access_list ll vl eip7928 false s.block_level_access_list
            → Outcome (LayerDone journal lj vj) (LayerAt journal lj vj true false) (g, r)
            → Outcome JournalDone AllAligned (record s { journal = g }, r)
        by_outcome s g (ok done) st li h = (h, st, li)
        by_outcome s g (err e) st li h = (h.2, st.2, li.2)

        journal_part :
            Triple Outside JournalDone
              (on_journal J T B E (layer_end outer_checkpoint journal.commit))
        journal_part s (j, st, li) =
            by_outcome s (layer_end outer_checkpoint journal.commit s.journal).0
              (layer_end outer_checkpoint journal.commit s.journal).1 st li
              (commit_outer-first journal lj vj outermost s.journal j)

        storage_part :
            Triple JournalDone StorageDone
              (on_storage J T B E (layer_end outer_checkpoint storage.commit))
        storage_part s (j, st, li) =
            let (sure, d) =
              commit_outer-later storage ls vs eip1153 s.transient_storage reliable_storage st in
            rw sure (j, d, li)

        list_part :
            Triple StorageDone AllDone
              (on_list J T B E (layer_end outer_checkpoint access_list.commit))
        list_part s (j, st, li) =
            let (sure, d) =
              commit_outer-later access_list ll vl eip7928 s.block_level_access_list reliable_list
                li in
            rw sure (j, st, d)

    module _ (R : Type 0) (initialise : Call J T B E (Unit {0})) (execute : Call J T B E R)
        (failed : R → Bool) (after_message : R → Call J T B E (Unit {0}))
        (kept_initialise : AllKept initialise) (kept_execute : AllKept execute)
        (kept_after : (result : R) → AllKept (after_message result)) where
      ended-Triple :
          (failure : Bool)
          → Triple Inside Outside (
              if failure
              then revert J T B E eip7928 eip1153 journal storage access_list execution_checkpoint
                  true
              else commit J T B E eip7928 eip1153 journal storage access_list execution_checkpoint)
      ended-Triple true = revert_execution-Triple true
      ended-Triple false = commit_execution-Triple

      finish-Triple :
          (result : R)
          → Triple Outside AllDone (
              finish J T B E eip7928 eip1153 journal storage access_list R initialise execute failed
                after_message result)
      unfolding finish
      finish-Triple result =
          then-Triple Outside Outside AllDone (after_message result)
            (commit J T B E eip7928 eip1153 journal storage access_list outer_checkpoint
              >> return result)
            (AllKept-Triple false (after_message result) (kept_after result))
            (then-Triple Outside AllDone AllDone
              (commit J T B E eip7928 eip1153 journal storage access_list outer_checkpoint)
              (return result) commit_outer-Triple (λ s h. h))

      settle-Triple :
          (result : R)
          → Triple Inside AllDone (
              settle J T B E eip7928 eip1153 journal storage access_list R initialise execute failed
                after_message result)
      unfolding settle
      settle-Triple result =
          then-Triple Inside Outside AllDone
            (if failed result
              then revert J T B E eip7928 eip1153 journal storage access_list execution_checkpoint
                  true
              else commit J T B E eip7928 eip1153 journal storage access_list execution_checkpoint)
            (finish J T B E eip7928 eip1153 journal storage access_list R initialise execute failed
              after_message result)
            (ended-Triple (failed result)) (finish-Triple result)

      execution-Triple : Triple Outside AllDone (
          execution J T B E eip7928 eip1153 journal storage access_list R initialise execute failed
            after_message)
      unfolding execution
      execution-Triple =
          then-Triple Outside Inside AllDone
            (take_checkpoint J T B E eip7928 eip1153 journal storage access_list
              execution_checkpoint)
            (execute
              >>= settle J T B E eip7928 eip1153 journal storage access_list R initialise execute
                  failed after_message)
            take_execution-Triple
            (bind-Triple Inside Inside AllDone execute
              (settle J T B E eip7928 eip1153 journal storage access_list R initialise execute
                failed after_message)
              (AllKept-Triple true execute kept_execute) settle-Triple)

      guarded-Triple : Triple Idle AllDone (
          guarded J T B E eip7928 eip1153 journal storage access_list R initialise execute failed
            after_message)
      unfolding guarded
      guarded-Triple =
          then-Triple Idle Outside AllDone
            (take_checkpoint J T B E eip7928 eip1153 journal storage access_list outer_checkpoint)
            (initialise
              >> execution J T B E eip7928 eip1153 journal storage access_list R initialise execute
                  failed after_message)
            take_outer-Triple
            (then-Triple Outside Outside AllDone initialise
              (execution J T B E eip7928 eip1153 journal storage access_list R initialise execute
                failed after_message)
              (AllKept-Triple false initialise kept_initialise) execution-Triple)

      outer_part : Call J T B E (Option E)
      outer_part t =
          (if is_active execution_checkpoint t
              then return none
              else revert_for_cleanup J T B E eip7928 eip1153 journal storage access_list
                  outer_checkpoint false)
            t

      outer_part-Sure : Sure AllAligned AllAligned outer_part
      unfolding outer_part
      outer_part-Sure t p = elim (Bool-cases (is_active execution_checkpoint t)) [
        | inl still ↦ rw still (none, refl, p)
        | inr over ↦
            let (ej, es, el) =
              none_active t.journal.execution t.transient_storage.execution
                t.block_level_access_list.execution over in
            let (a, returned, q) =
              revert_for_cleanup-Sure NoExecution outer_checkpoint false attempt_outer-Sure t
                (p, ej, es, el) in
            rw over (a, returned, q.0)
      ]

      clean_up-Sure :
          (error : E)
          → Sure AllAligned AllAligned
              (clean_up J T B E eip7928 eip1153 journal storage access_list error)
      unfolding clean_up outer_part
      clean_up-Sure error =
          bind-Sure AllAligned AllAligned AllAligned
            (revert_for_cleanup J T B E eip7928 eip1153 journal storage access_list
              execution_checkpoint true)
            _
            (revert_for_cleanup-Sure AllAligned execution_checkpoint true
              (attempt_execution-Sure true))
            (λ inner.
              bind-Sure AllAligned AllAligned AllAligned outer_part
                (λ outer_error.
                  return (elim (first_of inner outer_error) [ some e ↦ e | none ↦ error ]))
                outer_part-Sure (λ outer_error s p. (_, refl, p)))

      rethrown :
          (t : CallState J T B) (r : Result E R)
          → Outcome AllDone AllAligned (t, r)
          → Outcome AllDone AllAligned (elim r as (λ r. CallState J T B × Result E R) [
            | ok result ↦ (t, ok result)
            | err error ↦
                (clean_up J T B E eip7928 eip1153 journal storage access_list error >>= throw) t
          ])
      rethrown t (ok result) h = h
      rethrown t (err error) h = let (a, returned, q) = clean_up-Sure error t h in rw returned q

      pub run_call-Outcome :
          (x : J) (y : T) (z : B)
          → lj.view x ≡ vj
          → ls.view y ≡ vs
          → ll.view z ≡ vl
          → Outcome AllDone AllAligned (
              run_call J T B E eip7928 eip1153 journal storage access_list R initialise execute
                failed after_message
                (at_rest x y z))
      unfolding run_call
      run_call-Outcome x y z hj hs hl =
          rethrown
            (guarded J T B E eip7928 eip1153 journal storage access_list R initialise execute failed
              after_message (at_rest x y z)).0
            (guarded J T B E eip7928 eip1153 journal storage access_list R initialise execute failed
              after_message (at_rest x y z)).1
            (guarded-Triple (at_rest x y z) ((refl, refl, hj), (refl, refl, hs), (refl, refl, hl)))
