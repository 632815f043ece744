-- ===== src/Inventory/Leaf/Values.antt =====
-- A set leaf that decodes is in order, its identifiers have its prefix, and its values are in range.
use check_po.Prelude.{
  ℕ, zero, suc, ◌+◌, ◌≤◌, ◌<◌, ◌*◌, ◌≡◌, refl, ap, subst, false, not, ◌||◌, Option, none, some,
  List, [], ◌∷◌, arith, length, length-drop, take, drop, All, ltb, ◌==◌, ==_iff, list_eq, get_or,
}
use check_po.Prelude.Result.{ok, >>=-eq_ok, reject_if, reject_if-eq_ok}
use check_po.Prelude.Bytes.{IsByte, from_be_bytes}
use check_po.Prelude.Slices.{slice, All-drop}
use check_po.Codec.{Digest32, IsArray}
use check_po.Inventory.{
  SetLeaf, ascending, not_above, decode_ids, decode_set_leaf, leaf_magic, leaf_header_bytes,
  byte_at, corruption, require_schema,
}
use check_po.Inventory.Fields.{slice-IsArray, number_bound, neither, first_only, not-false}
use check_po.Inventory.Leaf.{OfPrefix, Above, IsSetLeafValue, IsCanonical}

Above-cons :
    (last : Option Digest32) (id : Digest32) (ids : List Digest32)
    → not_above last id ≡ false
    → Above (some id) ids
    → Above last (id ∷ ids)
unfolding ascending
Above-cons none id ids n a = a
Above-cons (some x) id ids n a = ground arith

decode_ids-Above :
    (count prefix : ℕ) (last : Option Digest32) (bytes : List ℕ) (ids : List Digest32)
    → All IsByte bytes
    → count * 32 ≤ length bytes
    → decode_ids count prefix last bytes ≡ ok ids
    → (length ids ≡ count) × All (IsArray 32) ids × OfPrefix prefix ids × Above last ids
unfolding decode_ids ascending
decode_ids-Above zero prefix last bytes ids b fits h =
    let same : [] ≡ ids = cc h in
    subst (λ l. (length l ≡ 0) × All (IsArray 32) l × OfPrefix prefix l × Above last l) same
      (refl, tt, refl, empty last)
  where
    empty : (last : Option Digest32) → Above last []
    empty none = refl
    empty (some x) = refl
decode_ids-Above (suc count) prefix last bytes ids b fits h =
    let id = take 32 bytes in
    let e = corruption "snapshot inventory set leaf is not canonical" in
    let (u, g, h1) =
      >>=-eq_ok (reject_if (not (byte_at id 0 == prefix) || not_above last id) e) _ h in
    let (rest, e2, h2) = >>=-eq_ok (decode_ids count prefix (some id) (drop 32 bytes)) _ h1 in
    let tests = first_only (byte_at id 0 == prefix) (not_above last id) (reject_if-eq_ok _ e g) in
    let (len, arrays, prefixed, above) =
      decode_ids-Above count prefix (some id) (drop 32 bytes) rest (All-drop IsByte 32 bytes b)
        (omega (arith, length-drop 32 bytes, fits)) e2 in
    let array : IsArray 32 id = slice-IsArray bytes b 0 32 (omega (arith, fits)) in
    let prefixed' : OfPrefix prefix (id ∷ rest) = rw (tests.0, prefixed) refl in
    let same : id ∷ rest ≡ ids = cc h2 in
    subst (λ l. (length l ≡ suc count) × All (IsArray 32) l × OfPrefix prefix l × Above last l) same
      (ap suc len, (array, arrays), prefixed', Above-cons last id rest tests.1 above)

pub decode_set_leaf-value :
    (bytes : List ℕ) (leaf : SetLeaf)
    → All IsByte bytes
    → decode_set_leaf bytes ≡ ok leaf
    → IsSetLeafValue leaf × IsCanonical leaf
unfolding decode_set_leaf
decode_set_leaf-value bytes leaf b h =
    let e1 = corruption "invalid snapshot inventory set leaf header" in
    let e2 = corruption "snapshot inventory set leaf has an invalid length" in
    let (u1, g1, h1) =
      >>=-eq_ok
        (reject_if
          (ltb (length bytes) leaf_header_bytes || not (list_eq (slice 0 8 bytes) leaf_magic)) e1)
        _ h in
    let (u2, g2, h2) =
      >>=-eq_ok
        (require_schema "snapshot inventory set leaf schema" (from_be_bytes (slice 8 4 bytes))) _
        h1 in
    let prefix = byte_at bytes 28 in
    let count = from_be_bytes (slice 29 4 bytes) in
    let (u3, g3, h3) =
      >>=-eq_ok (reject_if (count == 0 || not (length bytes == 33 + count * 32)) e2) _ h2 in
    let (ids, e4, h4) = >>=-eq_ok (decode_ids count prefix none (drop 33 bytes)) _ h3 in
    let sizes =
      neither (count == 0) (not (length bytes == 33 + count * 32)) (reject_if-eq_ok _ e2 g3) in
    let len : length bytes ≡ 33 + count * 32 =
      (==_iff (length bytes) (33 + count * 32)).0 (not-false _ sizes.1) in
    let found =
      decode_ids-Above count prefix none (drop 33 bytes) ids (All-drop IsByte 33 bytes b)
        (omega (arith, length-drop 33 bytes, len)) e4 in
    let built : SetLeaf = record { project_id = slice 12 16 bytes; prefix = prefix; ids = ids } in
    let same : built ≡ leaf = cc h4 in
    subst (λ l. IsSetLeafValue l × IsCanonical l) same
      (
        record {
          project_id = slice-IsArray bytes b 12 16 (omega (arith, len));
          prefix = byte_bound bytes 28 b;
          ids = found.1;
        },
        record {
          filled = rw found.0 sizes.0;
          order = found.3;
          prefixed = found.2;
          fits = rw found.0 (number_bound bytes b 29 4 (omega (arith, len)));
        },
      )
  where
    byte_bound : (bs : List ℕ) (i : ℕ) → All IsByte bs → get_or bs i 0 < 256
    byte_bound [] i h = omega arith
    byte_bound (x ∷ bs) zero h = h.0
    byte_bound (x ∷ bs) (suc i) h = byte_bound bs i h.1
