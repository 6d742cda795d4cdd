-- ===== src/Tvm/Call/Protocol.antt =====
-- packages/tvm/src/tvm.ts: the two checkpoints of `_runCall` over the journal, the transient storage and the
-- block level access list, and its clean-up. Each of these is a layer with its own checkpoints. What the
-- initialisation, the execution and the event hooks do to the layers are parameters.
pub mod Layers
pub mod Ends
pub mod Atomic
use tvmjs_monorepo.Prelude.{
  Bool, true, false, ◌||◌, List, Option, some, none, if◌then◌else◌, Result, ok, err,
}
use tvmjs_monorepo.Prelude.Effects.{Effect, after, ◌>>=◌, ◌>>◌, return, throw, reading, update}

-- The methods of a layer, any call of which may be rejected. The access list is told whether a revert keeps
-- its reads; the others do not look at it.
pub record Methods (X E : Type 0) : Type 0 where
  pub checkpoint : Effect X E (Unit {0})
  pub commit : Effect X E (Unit {0})
  pub revert : Bool → Effect X E (Unit {0})

pub data Which : Type 0 where
  outer_checkpoint execution_checkpoint : Which

-- A layer with its flags in the two variables of type `CheckpointState`, which say whether the checkpoint of
-- that variable is active in the layer.
pub record Guarded (X : Type 0) : Type 0 where
  pub layer : X
  pub outer : Bool
  pub execution : Bool

module _ {X : Type 0} where
  abbrev pub active : Which → Guarded X → Bool
  active outer_checkpoint g = g.outer
  active execution_checkpoint g = g.execution

  abbrev pub set_active : Which → Bool → Guarded X → Guarded X
  set_active outer_checkpoint b g = record g { outer = b }
  set_active execution_checkpoint b g = record g { execution = b }

  -- A call of the layer, and the flag that is set where it returns.
  abbrev pub layer_call :
      {E : Type 0} → Which → Bool → Effect X E (Unit {0}) → Effect (Guarded X) E (Unit {0})
  layer_call k flag m g =
      after (λ done h. (set_active k flag h, ok tt)) (record g { layer = (m g.layer).0 })
        (m g.layer).1

  -- The same if the checkpoint is active.
  abbrev pub layer_end :
      {E : Type 0} → Which → Effect X E (Unit {0}) → Effect (Guarded X) E (Unit {0})
  layer_end k m g = if active k g then layer_call k false m g else (g, ok tt)

pub record CallState (J T B : Type 0) : Type 0 where
  pub journal : Guarded J
  pub transient_storage : Guarded T
  pub block_level_access_list : Guarded B

-- The state before the first checkpoint.
abbrev pub at_rest : {J T B : Type 0} → J → T → B → CallState J T B
at_rest x y z = record {
  journal = record { layer = x; outer = false; execution = false };
  transient_storage = record { layer = y; outer = false; execution = false };
  block_level_access_list = record { layer = z; outer = false; execution = false };
}

abbrev pub is_active : {J T B : Type 0} → Which → CallState J T B → Bool
is_active k s =
    active k s.journal || (active k s.transient_storage || active k s.block_level_access_list)

-- `a ?? b`
abbrev pub first_of : {E : Type 0} → Option E → Option E → Option E
first_of none b = b
first_of (some e) b = some e

abbrev pub error_of : {E : Type 0} → Result E (Unit {0}) → Option E
error_of (ok done) = none
error_of (err e) = some e

abbrev pub outcome_of : {E : Type 0} → Option E → Result E (Unit {0})
outcome_of none = ok tt
outcome_of (some e) = err e

module _ (J T B E : Type 0) where
  abbrev pub Call {ℓ} : Type ℓ → Type ℓ
  Call A = Effect (CallState J T B) E A

  abbrev pub on_journal : Effect (Guarded J) E (Unit {0}) → Call (Unit {0})
  on_journal m s = (record s { journal = (m s.journal).0 }, (m s.journal).1)

  abbrev pub on_storage : Effect (Guarded T) E (Unit {0}) → Call (Unit {0})
  on_storage m s =
      (record s { transient_storage = (m s.transient_storage).0 }, (m s.transient_storage).1)

  abbrev pub on_list : Effect (Guarded B) E (Unit {0}) → Call (Unit {0})
  on_list m s = (
    record s { block_level_access_list = (m s.block_level_access_list).0 },
    (m s.block_level_access_list).1,
  )

  abbrev pub when : Bool → Call (Unit {0}) → Call (Unit {0})
  when test m = if test then m else return tt

  -- `try { … } catch (error) { … }`, which goes on with the error if there is one.
  abbrev pub attempt : Call (Unit {0}) → Call (Option E)
  attempt m s = ((m s).0, ok (error_of (m s).1))

  abbrev pub throw_some : Option E → Call (Unit {0})
  throw_some o s = (s, outcome_of o)

  module _ (eip7928 eip1153 : Bool) (journal : Methods J E) (storage : Methods T E)
      (access_list : Methods B E) where
    unfoldable pub take_checkpoint : Which → Call (Unit {0})
    take_checkpoint k = do
      when eip7928 (on_list (layer_call k true access_list.checkpoint))
      on_journal (layer_call k true journal.checkpoint)
      when eip1153 (on_storage (layer_call k true storage.checkpoint))

    unfoldable pub commit : Which → Call (Unit {0})
    commit k = do
      on_journal (layer_end k journal.commit)
      on_storage (layer_end k storage.commit)
      on_list (layer_end k access_list.commit)

    -- Each layer is reverted also where another rejects; the first error is thrown at the end.
    unfoldable pub revert : Which → Bool → Call (Unit {0})
    revert k preserve = do
      e1 ← attempt (on_journal (layer_end k (journal.revert preserve)))
      e2 ← attempt (on_storage (layer_end k (storage.revert preserve)))
      e3 ← attempt (on_list (layer_end k (access_list.revert preserve)))
      throw_some (first_of (first_of e1 e2) e3)

    -- A rejected revert is tried once more.
    unfoldable pub revert_for_cleanup : Which → Bool → Call (Option E)
    revert_for_cleanup k preserve = do
      first ← attempt (revert k preserve)
      still ← reading (λ s. is_active k s)
      elim first [
        | none ↦ return none
        | some e ↦ if still then attempt (revert k preserve) else return (some e)
      ]

    -- The `catch` block, with what it throws.
    unfoldable pub clean_up : E → Call E
    clean_up error = do
      inner ← revert_for_cleanup execution_checkpoint true
      still ← reading (λ s. is_active execution_checkpoint s)
      outer_error ← (if still then return none else revert_for_cleanup outer_checkpoint false)
      return (elim (first_of inner outer_error) [ some e ↦ e | none ↦ error ])

    module _ (R : Type 0) (initialise : Call (Unit {0})) (execute : Call R) (failed : R → Bool)
        (after_message : R → Call (Unit {0})) where
      -- The `try` block, from its end.
      unfoldable pub finish : R → Call R
      finish result = do after_message result; commit outer_checkpoint; return result

      unfoldable pub settle : R → Call R
      settle result =
          (if failed result then revert execution_checkpoint true else commit execution_checkpoint)
          >> finish result

      unfoldable pub execution : Call R
      execution = take_checkpoint execution_checkpoint >> (execute >>= settle)

      unfoldable pub guarded : Call R
      guarded = do take_checkpoint outer_checkpoint; initialise; execution

      unfoldable pub run_call : Call R
      run_call s = elim (guarded s).1 [
        | ok result ↦ ((guarded s).0, ok result)
        | err error ↦ (clean_up error >>= throw) (guarded s).0
      ]
