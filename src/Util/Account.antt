-- ===== src/Util/Account.antt =====
-- packages/util/src/account.ts: an account whose fields are loaded, less its permissions, which nothing here
-- reads. The keys of its assets are canonical, so that they are the token ids.
use tvmjs_monorepo.Prelude.{ℕ, ◌==◌, List, [], ◌∷◌, map, if◌then◌else◌}

pub record Account : Type 0 where
  pub nonce : ℕ
  pub balance : ℕ
  pub storage_root : List ℕ
  pub code_hash : List ℕ
  pub asset : List (ℕ × ℕ)

abbrev pub asset_get : ℕ → List (ℕ × ℕ) → ℕ
asset_get k [] = 0
asset_get k ((k', v) ∷ rest) = if k == k' then v else asset_get k rest

abbrev pub asset_set : ℕ → ℕ → List (ℕ × ℕ) → List (ℕ × ℕ)
asset_set k v [] = (k, v) ∷ []
asset_set k v ((k', v') ∷ rest) = if k == k' then (k, v) ∷ rest else (k', v') ∷ asset_set k v rest

-- `getTokenBalance`
abbrev pub token_balance : ℕ → Account → ℕ
token_balance token_id account = asset_get token_id account.asset

abbrev pub token_ids : Account → List ℕ
token_ids account = map (λ entry. entry.0) account.asset

abbrev pub keccak256_rlp : List ℕ
keccak256_rlp =
    0x56 ∷ 0xe8 ∷ 0x1f ∷ 0x17 ∷ 0x1b ∷ 0xcc ∷ 0x55 ∷ 0xa6 ∷ 0xff ∷ 0x83 ∷ 0x45 ∷ 0xe6 ∷ 0x92 ∷ 0xc0
    ∷ 0xf8 ∷ 0x6e ∷ 0x5b ∷ 0x48 ∷ 0xe0 ∷ 0x1b ∷ 0x99 ∷ 0x6c ∷ 0xad ∷ 0xc0 ∷ 0x01 ∷ 0x62 ∷ 0x2f
    ∷ 0xb5 ∷ 0xe3 ∷ 0x63 ∷ 0xb4 ∷ 0x21 ∷ []

abbrev pub keccak256_null : List ℕ
keccak256_null =
    0xc5 ∷ 0xd2 ∷ 0x46 ∷ 0x01 ∷ 0x86 ∷ 0xf7 ∷ 0x23 ∷ 0x3c ∷ 0x92 ∷ 0x7e ∷ 0x7d ∷ 0xb2 ∷ 0xdc ∷ 0xc7
    ∷ 0x03 ∷ 0xc0 ∷ 0xe5 ∷ 0x00 ∷ 0xb6 ∷ 0x53 ∷ 0xca ∷ 0x82 ∷ 0x27 ∷ 0x3b ∷ 0x7b ∷ 0xfa ∷ 0xd8
    ∷ 0x04 ∷ 0x5d ∷ 0x85 ∷ 0xa4 ∷ 0x70 ∷ []

abbrev pub new_account : Account
new_account = record {
  nonce = 0;
  balance = 0;
  storage_root = keccak256_rlp;
  code_hash = keccak256_null;
  asset = [];
}
