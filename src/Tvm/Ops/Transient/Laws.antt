-- ===== src/Tvm/Ops/Transient/Laws.antt =====
-- A word that TSTORE stored is the word that TLOAD loads.
use tvmjs_monorepo.Prelude.{
  ℕ, ◌≤◌, ◌≡◌, ◌≢◌, refl, ap, ◌∙◌, ◌==◌, false, List, [], ◌∷◌, length, ok, if◌then◌else◌,
  Bool-cases, inl, inr, arith,
}
use tvmjs_monorepo.Util.Bytes.{bytes_to_bigint, bigint_to_bytes}
use tvmjs_monorepo.Util.Bytes.Numbers.{
  bytes_to_bigint-bigint_to_bytes, length-bigint_to_bytes, set_length_left-bigint_to_bytes,
}
use tvmjs_monorepo.Prelude.Maps.{same_key_refl}
use tvmjs_monorepo.Tvm.TransientStorage
use tvmjs_monorepo.Tvm.TransientStorage.{TransientStorage}
use tvmjs_monorepo.Tvm.TransientStorage.Rollback.{put_ok, get-put}
use tvmjs_monorepo.Tvm.Stack.View.{view, IsValid}
use tvmjs_monorepo.Tvm.Stack.Steps.{shrunk, pop_n-shrunk}
use tvmjs_monorepo.Tvm.Word.{IsWord}
use tvmjs_monorepo.Tvm.Machine.{RunState}
use tvmjs_monorepo.Tvm.Ops.Frame.{Leaves, replaces_one_at}
use tvmjs_monorepo.Tvm.Ops.Transient.{tload, tstore}

-- The bytes of a value, of which 0 has none.
abbrev value_bytes : ℕ → List ℕ
value_bytes val = if val == 0 then [] else bigint_to_bytes val

value_bytes-short : (val : ℕ) → IsWord val → length (value_bytes val) ≤ 32
value_bytes-short val h = ground (arith, length-bigint_to_bytes val 31 h)

value_back :
    (val : ℕ)
    → (if length (value_bytes val) == 0 then 0 else bytes_to_bigint (value_bytes val)) ≡ val
value_back val = elim (Bool-cases (val == 0)) [
  | inl z ↦ ground arith
  | inr nz ↦ elim (Bool-cases (length (bigint_to_bytes val) == 0)) [
    | inl empty ↦ absurd (
        no_bytes (bigint_to_bytes val) (ground arith)
          (ground (arith, (bytes_to_bigint-bigint_to_bytes val).0)))
    | inr some ↦ ground (arith, (bytes_to_bigint-bigint_to_bytes val).0)
  ]
]
  where
    no_bytes : (bs : List ℕ) → length bs ≡ 0 → bytes_to_bigint bs ≢ 0 → ⊥
    no_bytes [] e h = h (unfold bytes_to_bigint in refl)
    no_bytes (b ∷ bs) e h = absurd (omega arith)

-- TSTORE in a frame that may change the state succeeds and pops a key and a value.
pub tstore_lem :
    (s : RunState)
    → IsValid s.stack
    → s.env.is_static ≡ false
    → (key val : ℕ) (rest : List ℕ) → view s.stack ≡ key ∷ val ∷ rest
    → IsWord key
    → IsWord val
    → (ts : TransientStorage) × (tstore s
        ≡ ok (tt, record s { stack = shrunk 2 s.stack; transient_storage = ts }))
      × (view (shrunk 2 s.stack) ≡ rest)
unfolding tstore
tstore_lem s valid dynamic key val rest shows hk hv =
    let (buf, padded, len, num) = set_length_left-bigint_to_bytes key 31 hk in
    let (ts, stored) =
      put_ok s.env.address buf (value_bytes val) s.transient_storage len
        (value_bytes-short val hv) in
    let (popped, ok_st, shows') = pop_n-shrunk s.stack valid (key ∷ val ∷ []) rest shows 2 refl in
    (ts, ground (arith, dynamic, popped, padded, stored), shows')

-- After a TSTORE that succeeds, in a frame that may change the state, of a word at a key: TLOAD of
-- that key, in every later state with this transient storage, the same contract address and a
-- valid stack with the key on top, succeeds and leaves the word in place of the key.
pub tload-tstore :
    (s : RunState)
    → IsValid s.stack
    → s.env.is_static ≡ false
    → (key val : ℕ) (rest : List ℕ) → view s.stack ≡ key ∷ val ∷ rest
    → IsWord key
    → IsWord val
    → (s' : RunState) → tstore s ≡ ok (tt, s')
    → (t : RunState) (items : List ℕ) → IsValid t.stack
    → t.transient_storage ≡ s'.transient_storage
    → t.env.address ≡ s.env.address
    → view t.stack ≡ key ∷ items
    → Leaves tload t (val ∷ items)
unfolding tload tstore
tload-tstore s valid dynamic key val rest shows hk hv s' ran t items ok_t same_ts same_a shows_t =
    let (buf, padded, len, num) = set_length_left-bigint_to_bytes key 31 hk in
    let (ts, stored) =
      put_ok s.env.address buf (value_bytes val) s.transient_storage len
        (value_bytes-short val hv) in
    let popped = (pop_n-shrunk s.stack valid (key ∷ val ∷ []) rest shows 2 refl).0 in
    let result : s' ≡ record s { stack = shrunk 2 s.stack; transient_storage = ts } =
      ground (arith, ran, dynamic, popped, padded, stored) in
    let held : t.transient_storage ≡ ts = same_ts ∙ ap (λ r. r.transient_storage) result in
    let loaded : TransientStorage.get t.env.address buf t.transient_storage ≡ value_bytes val =
      rw (same_a, held)
        (get-put s.env.address buf (value_bytes val) s.transient_storage ts s.env.address buf stored
          ∙ ground (arith, same_key_refl s.env.address, same_key_refl buf)) in
    replaces_one_at t ok_t key items shows_t _ val (ground (arith, padded, loaded, value_back val))
