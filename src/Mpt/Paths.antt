-- ===== src/Mpt/Paths.antt =====
-- packages/mpt/src/util: the two writers of compact paths agree, and the reader inverts them.
use tvmjs_monorepo.Prelude.{
  ℕ, ◌+◌, ◌-◌, ◌*◌, ◌/◌, ◌%◌, ◌<◌, ◌≡◌, refl, sym, ap, ◌∙◌, bit_and, bit_or, ◌==◌, Bool, true,
  false, List, [], ◌∷◌, ◌++◌, length, drop, get_or, if◌then◌else◌, arith, Bool-cases, inl, inr,
  length-append, take-append,
}
use tvmjs_monorepo.Prelude.Bits.{bit_and_mask, bit_or_low}
use tvmjs_monorepo.Mpt.Nibbles.{
  AreNibbles, nibbles_type_to_packed_bytes, flag_terminator, add_hex_prefix, remove_hex_prefix,
  is_terminator,
}
use tvmjs_monorepo.Mpt.Encoding.{
  has_terminator, nibbles_to_bytes, without_last, nibbles_to_compact_bytes, bytes_to_nibbles,
  compact_bytes_to_nibbles,
}

-- A path as HEX encoding has it: a leaf's ends with 16.
abbrev pub hex_path : List ℕ → Bool → List ℕ
hex_path ns terminator = if terminator then ns ++ 16 ∷ [] else ns

has_terminator-nibbles : (ns : List ℕ) → AreNibbles ns → has_terminator ns ≡ false
unfolding has_terminator
has_terminator-nibbles [] h = refl
has_terminator-nibbles (n ∷ []) h = ground arith
has_terminator-nibbles (n ∷ m ∷ ns) (_, h) = has_terminator-nibbles (m ∷ ns) h

pub has_terminator-snoc : (ns : List ℕ) → has_terminator (ns ++ 16 ∷ []) ≡ true
unfolding has_terminator
has_terminator-snoc [] = refl
has_terminator-snoc (n ∷ []) = refl
has_terminator-snoc (n ∷ m ∷ ns) = has_terminator-snoc (m ∷ ns)

pub without_last-snoc : (ns : List ℕ) (x : ℕ) → without_last (ns ++ x ∷ []) ≡ ns
unfolding without_last
without_last-snoc ns x =
    take-append (length (ns ++ x ∷ []) - 1) ns (x ∷ []) (omega (arith, length-append ns (x ∷ [])))

parity : (n : ℕ) → bit_and n 1 ≡ n % 2
parity n = bit_and_mask 1 n

pub high_or_low : (n m : ℕ) → m < 16 → bit_or (n * 16) m ≡ n * 16 + m
high_or_low n m h = bit_or_low 4 n m (n * 16) refl h

nibbles_to_bytes-packed :
    (ns : List ℕ) → AreNibbles ns → nibbles_to_bytes ns ≡ nibbles_type_to_packed_bytes ns
unfolding nibbles_to_bytes nibbles_type_to_packed_bytes
nibbles_to_bytes-packed [] h = refl
nibbles_to_bytes-packed (n ∷ []) h = refl
nibbles_to_bytes-packed (n ∷ m ∷ ns) (hn, (hm, h)) =
    rw (high_or_low n m hm, nibbles_to_bytes-packed ns h)

first_nibble : (ns : List ℕ) → AreNibbles ns → get_or ns 0 0 < 16
first_nibble [] h = omega arith
first_nibble (n ∷ ns) h = h.0

other_nibbles : (ns : List ℕ) → AreNibbles ns → AreNibbles (drop 1 ns)
other_nibbles [] h = tt
other_nibbles (n ∷ ns) h = h.1

-- What both writers write for a path: the flags and the first nibble of an odd number, and the
-- pairs of the others.
abbrev compact_body : ℕ → List ℕ → List ℕ
compact_body flags ns =
    if length ns % 2 == 1
    then (flags * 32 + 16 + get_or ns 0 0) ∷ nibbles_type_to_packed_bytes (drop 1 ns)
    else flags * 32 ∷ nibbles_type_to_packed_bytes ns

nibbles_to_compact_bytes-body :
    (ns : List ℕ) (terminator : Bool)
    → AreNibbles ns
    → nibbles_to_compact_bytes (hex_path ns terminator)
      ≡ compact_body (if terminator then 1 else 0) ns
unfolding nibbles_to_compact_bytes
nibbles_to_compact_bytes-body ns true h =
    let flags = bit_or_low 4 3 (get_or ns 0 0) 48 refl (first_nibble ns h) in
    let odd = nibbles_to_bytes-packed (drop 1 ns) (other_nibbles ns h) in
    rw
      (
        has_terminator-snoc ns,
        without_last-snoc ns 16,
        parity (length ns),
        flags,
        odd,
        nibbles_to_bytes-packed ns h,
      )
      refl
nibbles_to_compact_bytes-body ns false h =
    let flags = bit_or_low 4 1 (get_or ns 0 0) 16 refl (first_nibble ns h) in
    let odd = nibbles_to_bytes-packed (drop 1 ns) (other_nibbles ns h) in
    rw (has_terminator-nibbles ns h, parity (length ns), flags, odd, nibbles_to_bytes-packed ns h)
      refl

add_hex_prefix-body :
    (ns : List ℕ) (terminator : Bool)
    → AreNibbles ns
    → nibbles_type_to_packed_bytes (add_hex_prefix ns terminator)
      ≡ compact_body (if terminator then 1 else 0) ns
unfolding add_hex_prefix flag_terminator nibbles_type_to_packed_bytes
add_hex_prefix-body ns terminator h = elim (Bool-cases (length ns % 2 == 1)) [
  | inl odd ↦ rw odd (odd_body ns terminator h odd)
  | inr even ↦ rw even (even_body terminator)
]
  where
    odd_body :
        (ns : List ℕ) (terminator : Bool)
        → AreNibbles ns
        → (length ns % 2 == 1) ≡ true
        → nibbles_type_to_packed_bytes ((if terminator then 3 else 1) ∷ ns)
          ≡ ((if terminator then 1 else 0) * 32 + 16 + get_or ns 0 0)
            ∷ nibbles_type_to_packed_bytes (drop 1 ns)
    odd_body [] terminator h odd = cc
    odd_body (n ∷ ns) true h odd =
        ap (λ b. b ∷ nibbles_type_to_packed_bytes ns) (omega (arith, h.0))
    odd_body (n ∷ ns) false h odd =
        ap (λ b. b ∷ nibbles_type_to_packed_bytes ns) (omega (arith, h.0))

    even_body :
        (terminator : Bool)
        → ((if terminator then 2 else 0) * 16 + 0) % 256 ∷ nibbles_type_to_packed_bytes ns
          ≡ (if terminator then 1 else 0) * 32 ∷ nibbles_type_to_packed_bytes ns
    even_body true = refl
    even_body false = refl

-- For a path of nibbles and a leaf flag, nibblesToCompactBytes of the HEX encoded path writes the
-- bytes that nibblesTypeToPackedBytes packs from addHexPrefix of the path.
pub nibbles_to_compact_bytes-add_hex_prefix :
    (ns : List ℕ) (terminator : Bool)
    → AreNibbles ns
    → nibbles_to_compact_bytes (hex_path ns terminator)
      ≡ nibbles_type_to_packed_bytes (add_hex_prefix ns terminator)
nibbles_to_compact_bytes-add_hex_prefix ns terminator h =
    nibbles_to_compact_bytes-body ns terminator h ∙ sym (add_hex_prefix-body ns terminator h)

-- The nibbles of packed nibbles, where their number is even.
unpacked :
    (ns : List ℕ)
    → AreNibbles ns
    → length ns % 2 ≡ 0
    → bytes_to_nibbles (nibbles_type_to_packed_bytes ns) ≡ ns ++ 16 ∷ []
unfolding bytes_to_nibbles nibbles_type_to_packed_bytes
unpacked [] h even = refl
unpacked (n ∷ []) h even = absurd (omega arith)
unpacked (n ∷ m ∷ ns) (hn, (hm, h)) even =
    let high : (n * 16 + m) % 256 / 16 ≡ n = omega arith in
    let low : (n * 16 + m) % 256 % 16 ≡ m = omega arith in
    rw (high, low, unpacked ns h (omega arith)) refl

read_body :
    (ns : List ℕ) (terminator : Bool)
    → AreNibbles ns
    → compact_bytes_to_nibbles (compact_body (if terminator then 1 else 0) ns)
      ≡ hex_path ns terminator
unfolding compact_bytes_to_nibbles bytes_to_nibbles
read_body ns terminator h = elim (Bool-cases (length ns % 2 == 1)) [
  | inl odd ↦ rw odd (odd_body ns terminator h odd)
  | inr even ↦ rw even (even_body terminator (ground arith))
]
  where
    odd_body :
        (ns : List ℕ) (terminator : Bool)
        → AreNibbles ns
        → (length ns % 2 == 1) ≡ true
        → compact_bytes_to_nibbles (
            ((if terminator then 1 else 0) * 32 + 16 + get_or ns 0 0)
            ∷ nibbles_type_to_packed_bytes (drop 1 ns))
          ≡ hex_path ns terminator
    odd_body [] terminator h odd = cc
    odd_body (n ∷ ns) true h odd =
        let first : (48 + n) / 16 ≡ 3 = omega (arith, h.0) in
        let second : (48 + n) % 16 ≡ n = omega (arith, h.0) in
        rw (first, second, unpacked ns h.1 (ground arith)) refl
    odd_body (n ∷ ns) false h odd =
        let first : (16 + n) / 16 ≡ 1 = omega (arith, h.0) in
        let second : (16 + n) % 16 ≡ n = omega (arith, h.0) in
        rw (first, second, unpacked ns h.1 (ground arith), without_last-snoc (1 ∷ n ∷ ns) 16) refl

    even_body :
        (terminator : Bool)
        → length ns % 2 ≡ 0
        → compact_bytes_to_nibbles
            ((if terminator then 1 else 0) * 32 ∷ nibbles_type_to_packed_bytes ns)
          ≡ hex_path ns terminator
    even_body true even = rw (unpacked ns h even) refl
    even_body false even = rw (unpacked ns h even, without_last-snoc (0 ∷ 0 ∷ ns) 16) refl

-- For a path of nibbles and a leaf flag, compactBytesToNibbles reads back the HEX encoded path
-- that nibblesToCompactBytes wrote.
pub compact_bytes_to_nibbles-nibbles_to_compact_bytes :
    (ns : List ℕ) (terminator : Bool)
    → AreNibbles ns
    → compact_bytes_to_nibbles (nibbles_to_compact_bytes (hex_path ns terminator))
      ≡ hex_path ns terminator
compact_bytes_to_nibbles-nibbles_to_compact_bytes ns terminator h =
    ap compact_bytes_to_nibbles (nibbles_to_compact_bytes-body ns terminator h)
    ∙ read_body ns terminator h

-- The flags and the path of a prefixed path are read back.
pub hex_prefix_lem :
    (ns : List ℕ) (terminator : Bool)
    → (remove_hex_prefix (add_hex_prefix ns terminator) ≡ ns)
      × (is_terminator (add_hex_prefix ns terminator) ≡ terminator)
unfolding add_hex_prefix flag_terminator remove_hex_prefix is_terminator
hex_prefix_lem ns terminator = elim (Bool-cases (length ns % 2 == 1)) [
  | inl odd ↦ rw odd (odd_prefix terminator)
  | inr even ↦ rw even (even_prefix terminator)
]
  where
    odd_prefix :
        (t : Bool)
        → (remove_hex_prefix (flag_terminator t (1 ∷ ns)) ≡ ns)
          × (is_terminator (flag_terminator t (1 ∷ ns)) ≡ t)
    odd_prefix true = (refl, refl)
    odd_prefix false = (refl, refl)

    even_prefix :
        (t : Bool)
        → (remove_hex_prefix (flag_terminator t (0 ∷ 0 ∷ ns)) ≡ ns)
          × (is_terminator (flag_terminator t (0 ∷ 0 ∷ ns)) ≡ t)
    even_prefix true = (refl, refl)
    even_prefix false = (refl, refl)
