-- ===== src/Tvm/Call/Protocol/Layers.antt =====
-- packages/tvm/src/tvm.ts: a layer is a stack of contents, the current first, and a message call keeps its
-- flags in step with it.
use tvmjs_monorepo.Prelude.{
  ◌≡◌, refl, ap, ◌∙◌, Bool, true, false, List, [], ◌∷◌, inl, inr, Result, ok, err, Result-cases,
}
use tvmjs_monorepo.Prelude.Effects.{Effect}
use tvmjs_monorepo.Tvm.Call.Protocol.{
  Methods, Which, outer_checkpoint, execution_checkpoint, Guarded, active, layer_call, layer_end,
}

-- The current contents, and the saved ones. A call that is rejected changes neither, but for the end of
-- an outermost checkpoint, which flushes and may be rejected when it has dropped the checkpoint. A revert
-- takes back the saved contents, and where reads are preserved they may have more of these.
pub record IsLayer {X E : Type 0} (m : Methods X E) (V : Type 0) : Type 0 where
  pub view : X → V × List V
  pub checkpoint_ok :
      (x : X)
      → (m.checkpoint x).1 ≡ ok tt
      → view (m.checkpoint x).0 ≡ ((view x).0, (view x).0 ∷ (view x).1)
  pub checkpoint_err :
      (x : X) (e : E) → (m.checkpoint x).1 ≡ err e → view (m.checkpoint x).0 ≡ view x
  pub commit_ok :
      (x : X) (c : V) (k : List V)
      → (view x).1 ≡ c ∷ k
      → (m.commit x).1 ≡ ok tt
      → view (m.commit x).0 ≡ ((view x).0, k)
  pub commit_err :
      (x : X) (e : E) (c d : V) (k : List V)
      → (view x).1 ≡ c ∷ d ∷ k
      → (m.commit x).1 ≡ err e
      → view (m.commit x).0 ≡ view x
  pub revert_saved :
      (preserve : Bool) (x : X) (c : V) (k : List V)
      → (view x).1 ≡ c ∷ k
      → (m.revert preserve x).1 ≡ ok tt
      → (view (m.revert preserve x).0).1 ≡ k
  pub revert_exact :
      (x : X) (c : V) (k : List V)
      → (view x).1 ≡ c ∷ k
      → (m.revert false x).1 ≡ ok tt
      → view (m.revert false x).0 ≡ (c, k)
  pub revert_err :
      (preserve : Bool) (x : X) (e : E) (c d : V) (k : List V)
      → (view x).1 ≡ c ∷ d ∷ k
      → (m.revert preserve x).1 ≡ err e
      → view (m.revert preserve x).0 ≡ view x

-- Where `k` is empty: an outermost commit or exact revert that is rejected leaves the layer as it was.
abbrev pub KeepsOutermost : {X E V : Type 0} (m : Methods X E) → IsLayer m V → List V → Type 0
KeepsOutermost {X = X} {E = E} {V = V} m l k =
    (x : X) (e : E) (c : V)
    → k ≡ []
    → (l.view x).1 ≡ c ∷ []
    → ((m.commit x).1 ≡ err e → l.view (m.commit x).0 ≡ l.view x)
      × ((m.revert false x).1 ≡ err e → l.view (m.revert false x).0 ≡ l.view x)

-- Where no checkpoint is active the contents are the first ones, `v0`; where one is, it has saved them.
abbrev pub Aligned : {V : Type 0} → V × List V → V × List V → Bool → Bool → Type 0
Aligned v0 v false false = v ≡ v0
Aligned v0 v true false = v.1 ≡ v0.0 ∷ v0.1
Aligned {V = V} v0 v true true = (c : V) × (v.1 ≡ c ∷ v0.0 ∷ v0.1)
Aligned v0 v false true = ⊥

-- What holds of the state, by the outcome.
abbrev pub Outcome {ℓ} :
    {S E : Type 0} {A : Type ℓ} → (S → Type 0) → (S → Type 0) → S × Result E A → Type 0
Outcome Returned Thrown (s, ok a) = Returned s
Outcome Returned Thrown (s, err e) = Thrown s

module _ {X E V : Type 0} (m : Methods X E) (l : IsLayer m V) (v0 : V × List V) where
  abbrev pub IsAligned : Guarded X → Type 0
  IsAligned g = Aligned v0 (l.view g.layer) g.outer g.execution

  abbrev pub LayerAt : Bool → Bool → Guarded X → Type 0
  LayerAt o e g = (g.outer ≡ o) × (g.execution ≡ e) × IsAligned g

  -- The flags change from `o e` to `o' e'`, and stay where the layer rejects.
  abbrev pub LayerStep : Bool → Bool → Bool → Bool → Effect (Guarded X) E (Unit {0}) → Type 0
  LayerStep o e o' e' f =
      (g : Guarded X) → LayerAt o e g → Outcome (LayerAt o' e') (LayerAt o e) (f g)

  abbrev of_parts : X → Bool → Bool → Guarded X
  of_parts x o e = record { layer = x; outer = o; execution = e }

  pub checkpoint_outer-step :
      LayerStep false false true false (layer_call outer_checkpoint true m.checkpoint)
  checkpoint_outer-step g = step g.layer g.outer g.execution
    where
      step :
          (x : X) (b d : Bool)
          → LayerAt false false (of_parts x b d)
          → Outcome
              (LayerAt true false)
              (LayerAt false false)
              (layer_call outer_checkpoint true m.checkpoint (of_parts x b d))
      step x true d (p, q, h) = cc
      step x false true (p, q, h) = cc
      step x false false (p, q, h) = elim (Result-cases (m.checkpoint x).1) [
        | inl (e, threw) ↦ rw threw (refl, refl, l.checkpoint_err x e threw ∙ h)
        | inr (done, returned) ↦
            rw returned
              (refl, refl, ap (λ v. v.1) (l.checkpoint_ok x returned) ∙ ap (λ v. v.0 ∷ v.1) h)
      ]

  pub checkpoint_execution-step :
      LayerStep true false true true (layer_call execution_checkpoint true m.checkpoint)
  checkpoint_execution-step g = step g.layer g.outer g.execution
    where
      step :
          (x : X) (b d : Bool)
          → LayerAt true false (of_parts x b d)
          → Outcome
              (LayerAt true true)
              (LayerAt true false)
              (layer_call execution_checkpoint true m.checkpoint (of_parts x b d))
      step x false d (p, q, h) = cc
      step x true true (p, q, h) = cc
      step x true false (p, q, h) = elim (Result-cases (m.checkpoint x).1) [
        | inl (e, threw) ↦ rw threw (refl, refl, ap (λ v. v.1) (l.checkpoint_err x e threw) ∙ h)
        | inr (done, returned) ↦ rw returned (
          refl,
          refl,
          ((l.view x).0, ap (λ v. v.1) (l.checkpoint_ok x returned) ∙ ap (λ k. (l.view x).0 ∷ k) h),
        )
      ]

  pub commit_execution-step :
      LayerStep true true true false (layer_end execution_checkpoint m.commit)
  commit_execution-step g = step g.layer g.outer g.execution
    where
      step :
          (x : X) (b d : Bool)
          → LayerAt true true (of_parts x b d)
          → Outcome
              (LayerAt true false)
              (LayerAt true true)
              (layer_end execution_checkpoint m.commit (of_parts x b d))
      step x false d (p, q, h) = cc
      step x true false (p, q, h) = cc
      step x true true (p, q, (c, h)) = elim (Result-cases (m.commit x).1) [
        | inl (e, threw) ↦
            rw threw (refl, refl, (c, ap (λ v. v.1) (l.commit_err x e c v0.0 v0.1 h threw) ∙ h))
        | inr (done, returned) ↦
            rw returned (refl, refl, ap (λ v. v.1) (l.commit_ok x c (v0.0 ∷ v0.1) h returned))
      ]

  pub revert_execution-step :
      (preserve : Bool)
      → LayerStep true true true false (layer_end execution_checkpoint (m.revert preserve))
  revert_execution-step preserve g = step g.layer g.outer g.execution
    where
      step :
          (x : X) (b d : Bool)
          → LayerAt true true (of_parts x b d)
          → Outcome
              (LayerAt true false)
              (LayerAt true true)
              (layer_end execution_checkpoint (m.revert preserve) (of_parts x b d))
      step x false d (p, q, h) = cc
      step x true false (p, q, h) = cc
      step x true true (p, q, (c, h)) = elim (Result-cases (m.revert preserve x).1) [
        | inl (e, threw) ↦
            rw threw
              (refl, refl, (c, ap (λ v. v.1) (l.revert_err preserve x e c v0.0 v0.1 h threw) ∙ h))
        | inr (done, returned) ↦
            rw returned (refl, refl, l.revert_saved preserve x c (v0.0 ∷ v0.1) h returned)
      ]

  revert_keeps :
      (k : List V) (x : X) (e : E) (c : V)
      → KeepsOutermost m l k
      → (l.view x).1 ≡ c ∷ k
      → (m.revert false x).1 ≡ err e
      → l.view (m.revert false x).0 ≡ l.view x
  revert_keeps [] x e c outermost h threw = (outermost x e c refl h).1 threw
  revert_keeps (d ∷ k) x e c outermost h threw = l.revert_err false x e c d k h threw

  pub revert_outer-step :
      KeepsOutermost m l v0.1
      → LayerStep true false false false (layer_end outer_checkpoint (m.revert false))
  revert_outer-step outermost g = step g.layer g.outer g.execution
    where
      step :
          (x : X) (b d : Bool)
          → LayerAt true false (of_parts x b d)
          → Outcome
              (LayerAt false false)
              (LayerAt true false)
              (layer_end outer_checkpoint (m.revert false) (of_parts x b d))
      step x false d (p, q, h) = cc
      step x true true (p, q, h) = cc
      step x true false (p, q, h) = elim (Result-cases (m.revert false x).1) [
        | inl (e, threw) ↦
            rw threw (refl, refl, ap (λ v. v.1) (revert_keeps v0.1 x e v0.0 outermost h threw) ∙ h)
        | inr (done, returned) ↦ rw returned (refl, refl, l.revert_exact x v0.0 v0.1 h returned)
      ]

  -- Where a checkpoint is not active, its end changes nothing.
  pub inactive-step :
      (k : Which) (f : Effect X E (Unit {0})) (g : Guarded X)
      → active k g ≡ false
      → layer_end k f g ≡ (g, ok tt)
  inactive-step k f g h = rw h refl

  -- Whatever the outcome, the end of a checkpoint keeps the layer aligned.
  pub revert_execution-IsAligned :
      (preserve : Bool) (g : Guarded X)
      → IsAligned g
      → IsAligned (layer_end execution_checkpoint (m.revert preserve) g).0
  revert_execution-IsAligned preserve g = ends g.layer g.outer g.execution
    where
      either_way :
          (r : Guarded X × Result E (Unit {0}))
          → Outcome (LayerAt true false) (LayerAt true true) r
          → IsAligned r.0
      either_way (g, ok done) (o, e, h) = h
      either_way (g, err thrown) (o, e, h) = h

      ends :
          (x : X) (o e : Bool)
          → Aligned v0 (l.view x) o e
          → IsAligned (layer_end execution_checkpoint (m.revert preserve) (of_parts x o e)).0
      ends x o false h = h
      ends x false true h = absurd h
      ends x true true h =
          either_way (layer_end execution_checkpoint (m.revert preserve) (of_parts x true true))
            (revert_execution-step preserve (of_parts x true true) (refl, refl, h))

  pub revert_outer-IsAligned :
      KeepsOutermost m l v0.1
      → (g : Guarded X) → g.execution ≡ false
      → IsAligned g
      → IsAligned (layer_end outer_checkpoint (m.revert false) g).0
        × ((layer_end outer_checkpoint (m.revert false) g).0.execution ≡ false)
  revert_outer-IsAligned outermost g = ends g.layer g.outer g.execution
    where
      either_way :
          (r : Guarded X × Result E (Unit {0}))
          → Outcome (LayerAt false false) (LayerAt true false) r
          → IsAligned r.0 × (r.0.execution ≡ false)
      either_way (g, ok done) (o, e, h) = (h, e)
      either_way (g, err thrown) (o, e, h) = (h, e)

      ends :
          (x : X) (o e : Bool)
          → e ≡ false
          → Aligned v0 (l.view x) o e
          → IsAligned (layer_end outer_checkpoint (m.revert false) (of_parts x o e)).0
            × ((layer_end outer_checkpoint (m.revert false) (of_parts x o e)).0.execution ≡ false)
      ends x o true inner h = cc
      ends x false false inner h = (h, refl)
      ends x true false inner h =
          either_way (layer_end outer_checkpoint (m.revert false) (of_parts x true false))
            (revert_outer-step outermost (of_parts x true false) (refl, refl, h))
