-- ===== src/Inventory/Leaf.antt =====
-- A set leaf of the inventory is read back as it was written.
pub mod Values
use check_po.Prelude.{
  ℕ, zero, suc, ◌+◌, ◌≤◌, ◌<◌, ◌^◌, ◌*◌, ◌≡◌, refl, sym, ap, subst, ◌∙◌, Bool, true, false, not,
  ◌&&◌, ◌||◌, Option, none, some, List, [], ◌∷◌, ◌++◌, append_assoc, append-nil, arith, length,
  take, drop, All, any_true, ltb, ltb→lt, ltb-eq_false, ◌==◌, ==_iff, list_eq, list_eq_refl,
  if◌then◌else◌, length-append,
}
use check_po.Prelude.Result.{ok, err, >>=-eq_ok, reject_if, reject_if-eq_ok}
use check_po.Prelude.Bytes.{
  IsByte, to_be_bytes, from_be_bytes, length-to_be_bytes, from_be_bytes-to_be_bytes,
}
use check_po.Prelude.Map.{compare_text}
use check_po.Prelude.Slices.{
  slice, joined, HasLengths, length-joined, Sliced-joined, get_or-slice, joined-append,
  take-append_at, drop-append_at,
}
use check_po.Codec.{Digest32, IsArray}
use check_po.Inventory.{
  SetLeaf, is_less, ascending, concat, not_above, decode_ids, encode_set_leaf, decode_set_leaf,
  leaf_magic, leaf_header_bytes, schema_version, byte_at, corruption,
}
use check_po.Inventory.Fields.{require_schema-eq_ok, not-false, first_only}

pub record IsSetLeafValue (leaf : SetLeaf) : Type 0 where
  pub project_id : IsArray 16 leaf.project_id
  pub prefix : IsByte leaf.prefix
  pub ids : All (IsArray 32) leaf.ids

abbrev pub OfPrefix : ℕ → List Digest32 → Type 0
OfPrefix prefix ids = any_true (λ id. not (byte_at id 0 == prefix)) ids ≡ false

-- In order, and above an identifier before them.
abbrev pub Above : Option Digest32 → List Digest32 → Type 0
Above none ids = ascending ids ≡ true
Above (some x) ids = ascending (x ∷ ids) ≡ true

length-concat : (ids : List Digest32) → All (IsArray 32) ids → length (concat ids) ≡ length ids * 32
unfolding concat
length-concat [] h = refl
length-concat (id ∷ ids) h =
    omega (arith, length-append id (concat ids), h.0.0, length-concat ids h.1)

Above-first :
    (last : Option Digest32) (id : Digest32) (ids : List Digest32)
    → Above last (id ∷ ids)
    → (not_above last id ≡ false) × Above (some id) ids
unfolding ascending
Above-first none id ids h = (refl, h)
Above-first (some x) id ids h = ground arith

decode_ids-concat :
    (ids : List Digest32) (prefix : ℕ) (last : Option Digest32) (back : List ℕ)
    → All (IsArray 32) ids
    → OfPrefix prefix ids
    → Above last ids
    → decode_ids (length ids) prefix last (concat ids ++ back) ≡ ok ids
unfolding decode_ids concat
decode_ids-concat [] prefix last back v p a = refl
decode_ids-concat (id ∷ ids) prefix last back v p a =
    let (first, rest) = Above-first last id ids a in
    let front : take 32 (id ++ (concat ids ++ back)) ≡ id =
      take-append_at 32 id (concat ids ++ back) v.0.0 in
    let left : drop 32 (id ++ (concat ids ++ back)) ≡ concat ids ++ back =
      drop-append_at 32 id (concat ids ++ back) v.0.0 in
    let (same, others) = first_only (byte_at id 0 == prefix) _ p in
    rw
      (
        append_assoc id (concat ids) back,
        front,
        left,
        same,
        first,
        decode_ids-concat ids prefix (some id) back v.1 others rest,
      )
      refl

abbrev header_parts : SetLeaf → List (List ℕ)
header_parts leaf =
    leaf_magic
    ∷ to_be_bytes 4 schema_version
    ∷ leaf.project_id
    ∷ (leaf.prefix ∷ [])
    ∷ to_be_bytes 4 (length leaf.ids)
    ∷ []

abbrev header_lengths : List ℕ
header_lengths = 8 ∷ 4 ∷ 16 ∷ 1 ∷ 4 ∷ []

header-HasLengths :
    (leaf : SetLeaf) → IsSetLeafValue leaf → HasLengths (header_parts leaf) header_lengths
header-HasLengths leaf v = (
  refl,
  (
    length-to_be_bytes 4 schema_version,
    (v.project_id.0, (refl, (length-to_be_bytes 4 (length leaf.ids), tt))),
  ),
)

-- What `encode_set_leaf` checks.
pub record IsCanonical (leaf : SetLeaf) : Type 0 where
  pub filled : (length leaf.ids == 0) ≡ false
  pub order : ascending leaf.ids ≡ true
  pub prefixed : OfPrefix leaf.prefix leaf.ids
  pub fits : length leaf.ids < 2 ^ 32

decode_leaf_bytes :
    (leaf : SetLeaf)
    → IsSetLeafValue leaf
    → IsCanonical leaf
    → decode_set_leaf (joined (header_parts leaf) ++ (concat leaf.ids ++ [])) ≡ ok leaf
unfolding decode_set_leaf
decode_leaf_bytes leaf v c =
    let lengths = header-HasLengths leaf v in
    let front = joined (header_parts leaf) in
    let bytes = front ++ (concat leaf.ids ++ []) in
    let long : length front ≡ 33 = length-joined (header_parts leaf) header_lengths lengths in
    let all : length bytes ≡ 33 + length leaf.ids * 32 = omega (
      arith,
      length-append front (concat leaf.ids ++ []),
      length-append (concat leaf.ids) [],
      long,
      length-concat leaf.ids v.ids,
    ) in
    let (magic, (schema, (project, (prefix, (count, u))))) =
      Sliced-joined 0 (header_parts leaf) header_lengths [] (concat leaf.ids ++ []) refl lengths in
    let first = get_or-slice 28 leaf.prefix bytes prefix in
    let rest : drop 33 bytes ≡ concat leaf.ids ++ [] =
      drop-append_at 33 front (concat leaf.ids ++ []) long in
    let not_short : ltb (33 + length leaf.ids * 32) 33 ≡ false =
      ltb-eq_false (33 + length leaf.ids * 32) 33 (omega arith) in
    let exact : (33 + length leaf.ids * 32 == 33 + length leaf.ids * 32) ≡ true =
      (==_iff (33 + length leaf.ids * 32) (33 + length leaf.ids * 32)).1 refl in
    rw (all, magic, schema, project, first, count, rest)
      (rw
        (
          not_short,
          list_eq_refl leaf_magic,
          from_be_bytes-to_be_bytes 4 schema_version (omega arith),
          from_be_bytes-to_be_bytes 4 (length leaf.ids) c.fits,
          c.filled,
          exact,
          decode_ids-concat leaf.ids leaf.prefix none [] v.ids c.prefixed c.order,
        )
        refl)

pub encode_set_leaf-eq_ok :
    (leaf : SetLeaf) (bytes : List ℕ)
    → encode_set_leaf leaf ≡ ok bytes
    → IsCanonical leaf × (joined (header_parts leaf ++ concat leaf.ids ∷ []) ≡ bytes)
unfolding encode_set_leaf
encode_set_leaf-eq_ok leaf bytes h =
    let e1 = corruption "snapshot inventory set leaf cannot be empty" in
    let e2 = corruption "snapshot inventory set leaf is not canonical" in
    let e3 = corruption "snapshot inventory set leaf exceeds u32 entries" in
    let (u1, g1, h1) = >>=-eq_ok (reject_if (length leaf.ids == 0) e1) _ h in
    let (u2, g2, h2) =
      >>=-eq_ok
        (reject_if
          (not (ascending leaf.ids) || any_true (λ id. not (byte_at id 0 == leaf.prefix)) leaf.ids)
          e2)
        _ h1 in
    let (u3, g3, h3) = >>=-eq_ok (reject_if (not (ltb (length leaf.ids) (2 ^ 32))) e3) _ h2 in
    let canonical = first_only (ascending leaf.ids) _ (reject_if-eq_ok _ e2 g2) in
    (
      record {
        filled = reject_if-eq_ok (length leaf.ids == 0) e1 g1;
        order = canonical.0;
        prefixed = canonical.1;
        fits = ltb→lt (length leaf.ids) (2 ^ 32) (not-false _ (reject_if-eq_ok _ e3 g3));
      },
      cc h3,
    )

pub length-encode_set_leaf :
    (leaf : SetLeaf) (bytes : List ℕ)
    → IsSetLeafValue leaf
    → encode_set_leaf leaf ≡ ok bytes
    → length bytes ≡ 33 + length leaf.ids * 32
unfolding joined
length-encode_set_leaf leaf bytes v h =
    let front = joined (header_parts leaf) in
    let same = (encode_set_leaf-eq_ok leaf bytes h).1 in
    let split = joined-append (header_parts leaf) (concat leaf.ids ∷ []) in
    let all = ap length (sym same ∙ split) in
    let long : length front ≡ 33 =
      length-joined (header_parts leaf) header_lengths (header-HasLengths leaf v) in
    omega (
      arith,
      all,
      length-append front (concat leaf.ids ++ []),
      length-append (concat leaf.ids) [],
      long,
      length-concat leaf.ids v.ids,
    )

-- If a set leaf of values in range encodes, then decoding its bytes gives it again.
pub decode_set_leaf-encode_set_leaf :
    (leaf : SetLeaf) (bytes : List ℕ)
    → IsSetLeafValue leaf
    → encode_set_leaf leaf ≡ ok bytes
    → decode_set_leaf bytes ≡ ok leaf
unfolding joined
decode_set_leaf-encode_set_leaf leaf bytes v h =
    let (c, same) = encode_set_leaf-eq_ok leaf bytes h in
    subst (λ b. decode_set_leaf b ≡ ok leaf)
      (sym (joined-append (header_parts leaf) (concat leaf.ids ∷ [])) ∙ same)
      (decode_leaf_bytes leaf v c)
