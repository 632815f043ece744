-- ===== src/Inventory/Root.antt =====
-- A set root of the inventory is read back as it was written.
pub mod Values
use check_po.Prelude.{
  ℕ, zero, suc, ◌+◌, ◌≤◌, ◌<◌, ◌^◌, ◌*◌, ◌≡◌, refl, sym, ap, subst, ◌∙◌, Bool, true, false, not,
  ◌&&◌, ◌||◌, Option, none, some, List, [], ◌∷◌, ◌++◌, append_assoc, append-nil, arith, length, All,
  ltb, ◌==◌, ==_iff, list_eq, list_eq_refl, if◌then◌else◌, length-append,
}
use check_po.Prelude.Result.{ok, err, >>=-eq_ok, reject_if, reject_if-eq_ok}
use check_po.Prelude.Bytes.{
  IsByte, IsU32, IsU64, to_be_bytes, from_be_bytes, length-to_be_bytes, from_be_bytes-to_be_bytes,
}
use check_po.Prelude.Map.{is_some}
use check_po.Prelude.Slices.{
  slice, joined, HasLengths, length-joined, Sliced-joined, Sliced-whole, get_or-slice,
  joined-append,
}
use check_po.Codec.{Digest32, IsArray}
use check_po.Inventory.{
  LeafRef, SetRoot, zeros, flag, is_zero, slot_id, slot_count, slot_parts, encode_slots,
  encode_set_root, decode_slot, decode_slots, decode_set_root, root_magic, root_slot_bytes,
  root_header_bytes, root_bytes, schema_version, byte_at, corruption,
}
use check_po.Inventory.Fields.{is_zero-zeros, require_schema-eq_ok, not-false, guard_header}

-- A slot that is taken names a leaf that is not empty, by an id that is not all zeros.
abbrev pub IsSlot : Option LeafRef → Type 0
IsSlot none = Unit {0}
IsSlot (some r) = IsArray 32 r.id × (is_zero r.id ≡ false) × (0 < r.count) × IsU32 r.count

pub record IsSetRootValue (root : SetRoot) : Type 0 where
  pub project_id : IsArray 16 root.project_id
  pub count : IsU64 root.count
  pub leaves : All IsSlot root.leaves

slot-HasLengths : (r : Option LeafRef) → IsSlot r → HasLengths (slot_parts r) (1 ∷ 32 ∷ 4 ∷ [])
slot-HasLengths none h = (refl, (refl, (length-to_be_bytes 4 0, tt)))
slot-HasLengths (some r) h = (refl, (h.0.0, (length-to_be_bytes 4 r.count, tt)))

decode_slot-slot :
    (r : Option LeafRef)
    → IsSlot r
    → decode_slot (flag (is_some r)) (slot_id r) (from_be_bytes (to_be_bytes 4 (slot_count r)))
      ≡ ok r
decode_slot-slot none h = rw (from_be_bytes-to_be_bytes 4 0 (omega arith)) refl
decode_slot-slot (some r) h = rw (from_be_bytes-to_be_bytes 4 r.count h.3) (ground arith)

length-slot : (r : Option LeafRef) → IsSlot r → length (joined (slot_parts r)) ≡ 37
length-slot r h = length-joined (slot_parts r) (1 ∷ 32 ∷ 4 ∷ []) (slot-HasLengths r h)

length-encode_slots :
    (leaves : List (Option LeafRef))
    → All IsSlot leaves
    → length (encode_slots leaves) ≡ length leaves * 37
unfolding encode_slots
length-encode_slots [] h = refl
length-encode_slots (r ∷ leaves) h = omega (
  arith,
  length-append (joined (slot_parts r)) (encode_slots leaves),
  length-slot r h.0,
  length-encode_slots leaves h.1,
)

decode_slots-encode_slots :
    (leaves : List (Option LeafRef)) (offset : ℕ) (front back : List ℕ)
    → length front ≡ offset
    → All IsSlot leaves
    → decode_slots (length leaves) offset (front ++ (encode_slots leaves ++ back)) ≡ ok leaves
unfolding decode_slots encode_slots
decode_slots-encode_slots [] offset front back e h = refl
decode_slots-encode_slots (r ∷ leaves) offset front back e h =
    let slot = joined (slot_parts r) in
    let bytes = front ++ (slot ++ (encode_slots leaves ++ back)) in
    let (present, (id, (count, u))) =
      Sliced-joined offset (slot_parts r) (1 ∷ 32 ∷ 4 ∷ []) front (encode_slots leaves ++ back) e
        (slot-HasLengths r h.0) in
    let has = get_or-slice offset (flag (is_some r)) bytes present in
    let rest =
      decode_slots-encode_slots leaves (offset + 37) (front ++ slot) back
        (omega (arith, length-append front slot, length-slot r h.0, e)) h.1 in
    let whole : (front ++ slot) ++ (encode_slots leaves ++ back) ≡ bytes =
      append_assoc front slot (encode_slots leaves ++ back) in
    let rest' : decode_slots (length leaves) (offset + 37) bytes ≡ ok leaves =
      subst (λ b. decode_slots (length leaves) (offset + 37) b ≡ ok leaves) whole rest in
    let count' : slice (offset + 33) 4 bytes ≡ to_be_bytes 4 (slot_count r) =
      subst (λ k. slice k 4 bytes ≡ to_be_bytes 4 (slot_count r)) (omega arith) count in
    rw
      (append_assoc slot (encode_slots leaves) back, has, id, count', decode_slot-slot r h.0, rest')
      refl

abbrev header_parts : SetRoot → List (List ℕ)
header_parts root =
    root_magic ∷ to_be_bytes 4 schema_version ∷ root.project_id ∷ to_be_bytes 8 root.count ∷ []

abbrev header_lengths : List ℕ
header_lengths = 8 ∷ 4 ∷ 16 ∷ 8 ∷ []

header-HasLengths :
    (root : SetRoot) → IsSetRootValue root → HasLengths (header_parts root) header_lengths
header-HasLengths root v = (
  refl,
  (length-to_be_bytes 4 schema_version, (v.project_id.0, (length-to_be_bytes 8 root.count, tt))),
)

-- The bytes of a root are its header and its slots.
decode_root_bytes :
    (root : SetRoot)
    → IsSetRootValue root
    → length root.leaves ≡ 256
    → decode_set_root (joined (header_parts root) ++ (encode_slots root.leaves ++ [])) ≡ ok root
unfolding decode_set_root
decode_root_bytes root v len =
    let lengths = header-HasLengths root v in
    let front = joined (header_parts root) in
    let bytes = front ++ (encode_slots root.leaves ++ []) in
    let long : length front ≡ 36 = length-joined (header_parts root) header_lengths lengths in
    let slots : length (encode_slots root.leaves) ≡ length root.leaves * 37 =
      length-encode_slots root.leaves v.leaves in
    let all : length bytes ≡ 9508 = omega (
      arith,
      length-append front (encode_slots root.leaves ++ []),
      length-append (encode_slots root.leaves) [],
      long,
      slots,
      len,
    ) in
    let (magic, (schema, (project, (count, u)))) =
      Sliced-joined 0 (header_parts root) header_lengths [] (encode_slots root.leaves ++ []) refl
        lengths in
    let read : decode_slots 256 36 bytes ≡ ok root.leaves =
      subst (λ n. decode_slots n 36 bytes ≡ ok root.leaves) len
        (decode_slots-encode_slots root.leaves 36 front [] long v.leaves) in
    rw (all, magic, schema, project, count, read)
      (rw
        (
          list_eq_refl root_magic,
          from_be_bytes-to_be_bytes 4 schema_version (omega arith),
          from_be_bytes-to_be_bytes 8 root.count v.count,
        )
        refl)

pub length-decoded :
    (root : SetRoot) (bytes : List ℕ) → decode_set_root bytes ≡ ok root → length bytes ≡ 9508
unfolding decode_set_root
length-decoded root bytes h =
    let e1 = corruption "invalid snapshot inventory set root header" in
    let wrong = not (length bytes == root_bytes) || not (list_eq (slice 0 8 bytes) root_magic) in
    let (u1, g1, h1) = >>=-eq_ok (reject_if wrong e1) _ h in
    let header =
      guard_header (length bytes == root_bytes) (list_eq (slice 0 8 bytes) root_magic)
        (reject_if-eq_ok wrong e1 g1) in
    (==_iff (length bytes) 9508).0 header.0

-- If a set root of values in range encodes, then decoding its bytes gives it again.
pub decode_set_root-encode_set_root :
    (root : SetRoot) (bytes : List ℕ)
    → IsSetRootValue root
    → encode_set_root root ≡ ok bytes
    → decode_set_root bytes ≡ ok root
unfolding encode_set_root
decode_set_root-encode_set_root root bytes v h =
    let error = corruption "snapshot inventory set root must have 256 slots" in
    let (u, g, h') = >>=-eq_ok (reject_if (not (length root.leaves == 256)) error) _ h in
    let test = not-false (length root.leaves == 256) (reject_if-eq_ok _ error g) in
    let same : joined (header_parts root ++ encode_slots root.leaves ∷ []) ≡ bytes = cc h' in
    subst (λ b. decode_set_root b ≡ ok root)
      (sym (joined-append (header_parts root) (encode_slots root.leaves ∷ [])) ∙ same)
      (decode_root_bytes root v ((==_iff (length root.leaves) 256).0 test))
