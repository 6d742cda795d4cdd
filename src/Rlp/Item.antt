-- ===== src/Rlp/Item.antt =====
-- packages/rlp/src/index.ts: what is encoded and what is decoded.
use tvmjs_monorepo.Prelude.{ℕ, ◌==◌, List, [], if◌then◌else◌, Result, ok, err}
use tvmjs_monorepo.Prelude.Int.{ℤ, pos, negsuc}
use tvmjs_monorepo.Rlp.Hex.{
  RlpError, negative_integer, unsupported_type, is_hex_string, strip_hex_prefix, hex_to_bytes,
  pad_to_even, number_to_hex,
}

-- `Uint8Array | NestedUint8Array`
mutual
  pub data Item : Type 0 where
    bytes : List ℕ → Item
    list : Items → Item

  pub data Items : Type 0 where
    nil : Items
    cons : Item → Items → Items

-- `Input`: a text is the codes of its characters; a number or a bigint is an integer, as a number
-- with a fraction has no bytes; `null` and `undefined` are one.
mutual
  pub data Input : Type 0 where
    text : List ℕ → Input
    integer : ℤ → Input
    raw : List ℕ → Input
    nothing : Input
    array : Inputs → Input

  pub data Inputs : Type 0 where
    none_left : Inputs
    input : Input → Inputs → Inputs

-- `toBytes` of a text; `utf8` is the `TextEncoder` of the platform.
unfoldable pub text_to_bytes : (List ℕ → List ℕ) → List ℕ → Result RlpError (List ℕ)
unfolding is_hex_string strip_hex_prefix hex_to_bytes pad_to_even
text_to_bytes utf8 t =
    if is_hex_string t then hex_to_bytes (pad_to_even (strip_hex_prefix t)) else ok (utf8 t)

-- `toBytes` of a number.
unfoldable pub integer_to_bytes : ℤ → Result RlpError (List ℕ)
unfolding number_to_hex hex_to_bytes
integer_to_bytes (pos n) = if n == 0 then ok [] else hex_to_bytes (number_to_hex n)
integer_to_bytes (negsuc n) = err negative_integer

unfoldable pub to_bytes : (List ℕ → List ℕ) → Input → Result RlpError (List ℕ)
unfolding text_to_bytes integer_to_bytes
to_bytes utf8 (text t) = text_to_bytes utf8 t
to_bytes utf8 (integer n) = integer_to_bytes n
to_bytes utf8 (raw bs) = ok bs
to_bytes utf8 nothing = ok []
to_bytes utf8 (array xs) = err unsupported_type
