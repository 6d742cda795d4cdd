-- ===== src/Tvm/Call/Protocol/Ends.antt =====
-- packages/tvm/src/tvm.ts: how the checkpoints of a message call end in one layer.
use tvmjs_monorepo.Prelude.{
  ◌≡◌, refl, sym, ap, ◌∙◌, Bool, true, false, ◌&&◌, List, [], ◌∷◌, inl, inr, ok, Result-cases, err,
}
use tvmjs_monorepo.Tvm.Call.Protocol.{
  Methods, outer_checkpoint, execution_checkpoint, Guarded, layer_end, execution,
}
use tvmjs_monorepo.Tvm.Call.Protocol.Layers.{
  IsLayer, KeepsOutermost, Aligned, Outcome, LayerAt, LayerStep, commit_execution-step,
  revert_execution-step, inactive-step,
}

-- A layer whose commits are never rejected.
abbrev pub IsReliable : {X E V : Type 0} (m : Methods X E) → IsLayer m V → Type 0
IsReliable {X = X} {V = V} m l =
    (x : X) (c : V) (k : List V) → (l.view x).1 ≡ c ∷ k → (m.commit x).1 ≡ ok tt

-- Code between checkpoints keeps the flags and the saved contents, and does not touch a layer that is
-- switched off.
abbrev pub Keeps :
    {X E V : Type 0} (m : Methods X E) (l : IsLayer m V) → Bool → Guarded X → Guarded X → Type 0
Keeps m l switched_on g h =
    (h.outer ≡ g.outer)
    × (h.execution ≡ g.execution)
    × ((l.view h.layer).1 ≡ (l.view g.layer).1)
    × (switched_on ≡ false → l.view h.layer ≡ l.view g.layer)

module _ {X E V : Type 0} (m : Methods X E) (l : IsLayer m V) (v0 : V × List V) where
  -- The call has returned: nothing is active, and what was saved before is still saved.
  abbrev pub LayerDone : Guarded X → Type 0
  LayerDone g = (g.outer ≡ false) × (g.execution ≡ false) × ((l.view g.layer).1 ≡ v0.1)

  Aligned-in :
      (v : V × List V) (b d o e : Bool) → b ≡ o → d ≡ e → Aligned v0 v b d → Aligned v0 v o e
  Aligned-in v b d o e p q h = rw (← p, ← q) h

  Aligned-kept :
      (on e : Bool) (v w : V × List V)
      → w.1 ≡ v.1
      → (on ≡ false → w ≡ v)
      → Aligned v0 v on (e && on)
      → Aligned v0 w on (e && on)
  Aligned-kept true true v w same off (c, h) = (c, same ∙ h)
  Aligned-kept true false v w same off h = same ∙ h
  Aligned-kept false true v w same off h = off refl ∙ h
  Aligned-kept false false v w same off h = off refl ∙ h

  pub Keeps-LayerAt :
      (on e : Bool) (g h : Guarded X)
      → Keeps m l on g h
      → LayerAt m l v0 on (e && on) g
      → LayerAt m l v0 on (e && on) h
  Keeps-LayerAt on e g h (outer, execution, saved, off) (p, q, aligned) =
      let o = outer ∙ p in
      let x = execution ∙ q in
      let kept =
        Aligned-kept on e (l.view g.layer) (l.view h.layer) saved off
          (Aligned-in (l.view g.layer) g.outer g.execution on (e && on) p q aligned) in
      (o, x, Aligned-in (l.view h.layer) on (e && on) h.outer h.execution (sym o) (sym x) kept)

  pub commit_execution-any :
      (on : Bool) → LayerStep m l v0 on on on false (layer_end execution_checkpoint m.commit)
  commit_execution-any true = commit_execution-step m l v0
  commit_execution-any false =
      λ g (o, e, h). rw (inactive-step m l v0 execution_checkpoint m.commit g e) (o, e, h)

  pub revert_execution-any :
      (on preserve : Bool)
      → LayerStep m l v0 on on on false (layer_end execution_checkpoint (m.revert preserve))
  revert_execution-any true preserve = revert_execution-step m l v0 preserve
  revert_execution-any false preserve = λ g (o, e, h).
      rw (inactive-step m l v0 execution_checkpoint (m.revert preserve) g e) (o, e, h)

  commit_keeps :
      (k : List V) (x : X) (e : E) (c : V)
      → KeepsOutermost m l k
      → (l.view x).1 ≡ c ∷ k
      → (m.commit x).1 ≡ err e
      → l.view (m.commit x).0 ≡ l.view x
  commit_keeps [] x e c outermost h threw = (outermost x e c refl h).0 threw
  commit_keeps (d ∷ k) x e c outermost h threw = l.commit_err x e c d k h threw

  pub commit_outer-first :
      KeepsOutermost m l v0.1
      → (g : Guarded X) → LayerAt m l v0 true false g
      → Outcome LayerDone (LayerAt m l v0 true false) (layer_end outer_checkpoint m.commit g)
  commit_outer-first outermost g = step g.layer g.outer g.execution
    where
      step :
          (x : X) (b d : Bool)
          → LayerAt m l v0 true false (record { layer = x; outer = b; execution = d })
          → Outcome LayerDone
              (LayerAt m l v0 true false)
              (layer_end outer_checkpoint m.commit (record { layer = x; outer = b; execution = d }))
      step x false d (p, q, h) = cc
      step x true true (p, q, h) = cc
      step x true false (p, q, h) = elim (Result-cases (m.commit x).1) [
        | inl (e, threw) ↦
            rw threw (refl, refl, ap (λ v. v.1) (commit_keeps v0.1 x e v0.0 outermost h threw) ∙ h)
        | inr (done, returned) ↦
            rw returned (refl, refl, ap (λ v. v.1) (l.commit_ok x v0.0 v0.1 h returned))
      ]

  -- The layers behind the journal commit without fail.
  pub commit_outer-later :
      (on : Bool) (g : Guarded X)
      → IsReliable m l
      → LayerAt m l v0 on false g
      → ((layer_end outer_checkpoint m.commit g).1 ≡ ok tt)
        × LayerDone (layer_end outer_checkpoint m.commit g).0
  commit_outer-later on g reliable = step on g.layer g.outer g.execution
    where
      step :
          (on : Bool) (x : X) (b d : Bool)
          → LayerAt m l v0 on false (record { layer = x; outer = b; execution = d })
          → ((layer_end outer_checkpoint m.commit
                (record { layer = x; outer = b; execution = d })).1
              ≡ ok tt)
            × LayerDone
                (layer_end outer_checkpoint m.commit
                  (record { layer = x; outer = b; execution = d })).0
      step on x b true (p, q, h) = cc
      step on x false false (p, q, h) = (refl, (refl, refl, ap (λ v. v.1) h))
      step on x true false (p, q, h) =
          let sure = reliable x v0.0 v0.1 h in
          rw sure (refl, (refl, refl, ap (λ v. v.1) (l.commit_ok x v0.0 v0.1 h sure)))
