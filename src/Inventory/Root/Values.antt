-- ===== src/Inventory/Root/Values.antt =====
-- A set root that decodes has 256 slots, and its values are in range.
use check_po.Prelude.{
  ℕ, zero, suc, ◌+◌, ◌≤◌, ◌<◌, ◌*◌, ◌≡◌, refl, sym, ap, subst, false, not, ◌||◌, Option, none, some,
  List, [], ◌∷◌, arith, length, All, ◌==◌, ==_iff, list_eq,
}
use check_po.Prelude.Result.{ok, >>=-eq_ok, reject_if, reject_if-eq_ok}
use check_po.Prelude.Bytes.{IsByte, IsU32, from_be_bytes}
use check_po.Prelude.Slices.{slice}
use check_po.Codec.{IsArray}
use check_po.Inventory.{
  LeafRef, SetRoot, is_zero, decode_slot, decode_slots, decode_set_root, root_magic,
  root_slot_bytes, root_header_bytes, root_bytes, byte_at, corruption, require_schema,
}
use check_po.Inventory.Fields.{slice-IsArray, number_bound, guard_header}
use check_po.Inventory.Root.{IsSlot, IsSetRootValue}

decode_slot-IsSlot :
    (present count : ℕ) (digest : List ℕ) (r : Option LeafRef)
    → IsArray 32 digest
    → IsU32 count
    → decode_slot present digest count ≡ ok r
    → IsSlot r
decode_slot-IsSlot present count digest none d c h = tt
decode_slot-IsSlot present count digest (some r) d c h =
    let id : r.id ≡ digest = ground arith in
    let number : r.count ≡ count = ground arith in
    let filled : is_zero digest ≡ false = ground arith in
    let positive : 0 < count = ground arith in
    (
      subst (IsArray 32) (sym id) d,
      subst (λ x. is_zero x ≡ false) (sym id) filled,
      omega (arith, number, positive),
      omega (arith, number, c),
    )

decode_slots-IsSlot :
    (n offset : ℕ) (bytes : List ℕ) (leaves : List (Option LeafRef))
    → All IsByte bytes
    → offset + n * 37 ≤ length bytes
    → decode_slots n offset bytes ≡ ok leaves
    → (length leaves ≡ n) × All IsSlot leaves
unfolding decode_slots
decode_slots-IsSlot zero offset bytes leaves b fits h =
    let same : [] ≡ leaves = cc h in subst (λ l. (length l ≡ 0) × All IsSlot l) same (refl, tt)
decode_slots-IsSlot (suc n) offset bytes leaves b fits h =
    let digest = slice (offset + 1) 32 bytes in
    let count = from_be_bytes (slice (offset + 33) 4 bytes) in
    let (r, e1, h1) = >>=-eq_ok (decode_slot (byte_at bytes offset) digest count) _ h in
    let (rest, e2, h2) = >>=-eq_ok (decode_slots n (offset + root_slot_bytes) bytes) _ h1 in
    let (len, slots) = decode_slots-IsSlot n (offset + 37) bytes rest b (omega (arith, fits)) e2 in
    let slot =
      decode_slot-IsSlot (byte_at bytes offset) count digest r
        (slice-IsArray bytes b (offset + 1) 32 (omega (arith, fits)))
        (number_bound bytes b (offset + 33) 4 (omega (arith, fits))) e1 in
    let same : r ∷ rest ≡ leaves = cc h2 in
    subst (λ l. (length l ≡ suc n) × All IsSlot l) same (ap suc len, (slot, slots))

pub decode_set_root-value :
    (bytes : List ℕ) (root : SetRoot)
    → All IsByte bytes
    → decode_set_root bytes ≡ ok root
    → (length root.leaves ≡ 256) × IsSetRootValue root
unfolding decode_set_root
decode_set_root-value bytes root b h =
    let e1 = corruption "invalid snapshot inventory set root header" in
    let short = not (length bytes == root_bytes) || not (list_eq (slice 0 8 bytes) root_magic) in
    let (u1, g1, h1) = >>=-eq_ok (reject_if short e1) _ h in
    let header =
      guard_header (length bytes == root_bytes) (list_eq (slice 0 8 bytes) root_magic)
        (reject_if-eq_ok short e1 g1) in
    let len : length bytes ≡ 9508 = (==_iff (length bytes) 9508).0 header.0 in
    let (u2, g2, h2) =
      >>=-eq_ok
        (require_schema "snapshot inventory set root schema" (from_be_bytes (slice 8 4 bytes))) _
        h1 in
    let (leaves, e3, h3) = >>=-eq_ok (decode_slots 256 root_header_bytes bytes) _ h2 in
    let slots = decode_slots-IsSlot 256 36 bytes leaves b (omega (arith, len)) e3 in
    let built : SetRoot = record {
      project_id = slice 12 16 bytes;
      count = from_be_bytes (slice 28 8 bytes);
      leaves = leaves;
    } in
    let same : built ≡ root = cc h3 in
    subst (λ r. (length r.leaves ≡ 256) × IsSetRootValue r) same
      (
        slots.0,
        record {
          project_id = slice-IsArray bytes b 12 16 (omega (arith, len));
          count = number_bound bytes b 28 8 (omega (arith, len));
          leaves = slots.1;
        },
      )
