-- ===== src/Tests/Calls.antt =====
-- A message call over the state manager, a stack of numbers and the block level access list, with an execution
-- that changes the state and throws.
use tvmjs_monorepo.Prelude.{
  ℕ, ◌≡◌, refl, ap, Bool, List, [], ◌∷◌, ◌∙◌, Option, some, Result, ok, err,
}
use tvmjs_monorepo.Prelude.Effects.{return, update}
use tvmjs_monorepo.Prelude.Maps.{Map}
use tvmjs_monorepo.Util.Account.{Account, new_account}
use tvmjs_monorepo.StateManager.Simple.{SimpleStateManager, checkpoint, commit, revert}
use tvmjs_monorepo.StateManager.Simple.Levels.{Level, push_level}
use tvmjs_monorepo.Tvm.Call.AccessList.{Snapshot, BlockLevelAccessList}
use tvmjs_monorepo.Tvm.Call.Protocol.{Methods, Call}
use tvmjs_monorepo.Tvm.Call.Protocol.Layers.{IsLayer}

abbrev Saved : Type 0
Saved = ℕ × List ℕ

abbrev end_of : Saved → Saved → List ℕ → Saved × Result ℕ (Unit {0})
end_of x done [] = (x, err 0)
end_of x done (c ∷ k) = (done, ok tt)

abbrev dropped : List ℕ → List ℕ
dropped [] = []
dropped (c ∷ k) = k

abbrev top : List ℕ → ℕ
top [] = 0
top (c ∷ k) = c

abbrev numbers : Methods Saved ℕ
numbers = record {
  checkpoint = λ x. ((x.0, x.0 ∷ x.1), ok tt);
  commit = λ x. end_of x (x.0, dropped x.1) x.1;
  revert = λ preserve x. end_of x (top x.1, dropped x.1) x.1;
}

end_of-ok :
    (x done : Saved) (k : List ℕ) (c : ℕ) (rest : List ℕ)
    → k ≡ c ∷ rest
    → (end_of x done k ≡ (done, ok tt))
end_of-ok x done [] c rest e = cc
end_of-ok x done (d ∷ k) c rest e = refl

end_of-err :
    (x done : Saved) (k : List ℕ) (e : ℕ) → (end_of x done k).1 ≡ err e → (end_of x done k).0 ≡ x
end_of-err x done [] e h = refl
end_of-err x done (d ∷ k) e h = cc

dropped_cons : (k rest : List ℕ) (c : ℕ) → k ≡ c ∷ rest → dropped k ≡ rest
dropped_cons k rest c e = ap dropped e

abbrev numbers-IsLayer : IsLayer numbers ℕ
numbers-IsLayer = record {
  view = λ x. x;
  checkpoint_ok = λ x h. refl;
  checkpoint_err = λ x e h. cc;
  commit_ok = λ x c k e h.
      rw (end_of-ok x (x.0, dropped x.1) x.1 c k e) (ap (λ r. (x.0, r)) (dropped_cons x.1 k c e));
  commit_err = λ x e c d k held h. end_of-err x (x.0, dropped x.1) x.1 e h;
  revert_saved = λ preserve x c k e h.
      rw (end_of-ok x (top x.1, dropped x.1) x.1 c k e) (dropped_cons x.1 k c e);
  revert_exact = λ x c k e h.
      rw (end_of-ok x (top x.1, dropped x.1) x.1 c k e) (ap (λ r. (top r, dropped r)) e);
  revert_err = λ preserve x e c d k held h. end_of-err x (top x.1, dropped x.1) x.1 e h;
}

-- The state manager with its levels, the newest first, under a call of its methods.
abbrev Levels : Type 0
Levels = Level × List Level

abbrev below_of : List Level → SimpleStateManager
below_of [] = record {
  account_stack = [];
  code_stack = [];
  storage_stack = [];
  token_id_stack = [];
}
below_of (l ∷ ls) = push_level l (below_of ls)

abbrev state_of : Levels → SimpleStateManager
state_of (l, ls) = push_level l (below_of ls)

-- The levels of four stacks of one height.
abbrev levels_of :
    List (Map (Option Account))
    → List (Map (List ℕ))
    → List (Map (List ℕ))
    → List (List ℕ)
    → List Level
levels_of (a ∷ accounts) (c ∷ codes) (s ∷ storages) (t ∷ ids) =
    record { accounts = a; code = c; storage = s; token_ids = t }
    ∷ levels_of accounts codes storages ids
levels_of (a ∷ accounts) (c ∷ codes) (s ∷ storages) [] = []
levels_of (a ∷ accounts) (c ∷ codes) [] ids = []
levels_of (a ∷ accounts) [] storages ids = []
levels_of [] codes storages ids = []

abbrev no_level : Level
no_level = record { accounts = []; code = []; storage = []; token_ids = [] }

abbrev split : List Level → Levels
split [] = (no_level, [])
split (l ∷ ls) = (l, ls)

abbrev read_levels : SimpleStateManager → List Level
read_levels s = levels_of s.account_stack s.code_stack s.storage_stack s.token_id_stack

levels_of-below_of : (ls : List Level) → read_levels (below_of ls) ≡ ls
levels_of-below_of [] = refl
levels_of-below_of (l ∷ ls) = ap (λ rest. l ∷ rest) (levels_of-below_of ls)

abbrev manager : Methods Levels ℕ
manager = record {
  checkpoint = update (λ x. split (read_levels (checkpoint (state_of x))));
  commit = update (λ x. split (read_levels (commit (state_of x))));
  revert = λ preserve. update (λ x. split (read_levels (revert (state_of x))));
}

checkpoint_levels :
    (l : Level) (ls : List Level)
    → split (read_levels (checkpoint (state_of (l, ls)))) ≡ (l, l ∷ ls)
unfolding checkpoint
checkpoint_levels l ls = ap (λ rest. (l, l ∷ rest)) (levels_of-below_of ls)

commit_levels :
    (l c : Level) (ls k : List Level)
    → ls ≡ c ∷ k
    → split (read_levels (commit (state_of (l, ls)))) ≡ (l, k)
unfolding commit
commit_levels l c [] k e = cc
commit_levels l c (d ∷ ls) k e =
    ap (λ rest. (l, rest)) (levels_of-below_of ls ∙ ap (λ r. (split r).1) e)

revert_levels :
    (l c : Level) (ls k : List Level)
    → ls ≡ c ∷ k
    → split (read_levels (revert (state_of (l, ls)))) ≡ (c, k)
unfolding revert
revert_levels l c [] k e = cc
revert_levels l c (d ∷ ls) k e = ap split (levels_of-below_of (d ∷ ls) ∙ e)

abbrev manager-IsLayer : IsLayer manager Level
manager-IsLayer = record {
  view = λ x. x;
  checkpoint_ok = λ x h. checkpoint_levels x.0 x.1;
  checkpoint_err = λ x e h. cc;
  commit_ok = λ x c k e h. commit_levels x.0 c x.1 k e;
  commit_err = λ x e c d k held h. cc;
  revert_saved = λ preserve x c k e h. ap (λ r. r.1) (revert_levels x.0 c x.1 k e);
  revert_exact = λ x c k e h. revert_levels x.0 c x.1 k e;
  revert_err = λ preserve x e c d k held h. cc;
}

abbrev paid : Level
paid = record no_level { accounts = (1 ∷ [], some new_account) ∷ [] }

abbrev snapshot : Snapshot
snapshot = record {
  accesses = [];
  block_access_index = 0;
  original_balances = [];
  original_codes_at_index = [];
}

abbrev access_list : BlockLevelAccessList
access_list = record { now = snapshot; checkpoints = [] }

abbrev pay : Call Levels Saved BlockLevelAccessList ℕ (Unit {0})
pay s = (record s { journal = record s.journal { layer = (paid, s.journal.layer.1) } }, ok tt)

abbrev pay_and_throw : Call Levels Saved BlockLevelAccessList ℕ Bool
pay_and_throw s =
    (record s { journal = record s.journal { layer = (no_level, s.journal.layer.1) } }, err 9)

abbrev hook : Bool → Call Levels Saved BlockLevelAccessList ℕ (Unit {0})
hook result = return tt
