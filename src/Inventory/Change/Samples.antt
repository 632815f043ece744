-- ===== src/Inventory/Change/Samples.antt =====
-- An empty inventory, and the files of a snapshot that is added to it.
mod Tests
mod Heads
mod Projected
use check_po.Prelude.{
  ℕ, zero, suc, ◌+◌, ◌%◌, ◌<◌, ◌^◌, ◌≡◌, refl, sym, ap, subst, ◌∙◌, Bool, true, false, inl, inr,
  Option, none, some, List, [], ◌∷◌, ◌++◌, arith, length, drop, take, All, get_or, list_eq,
  list_eq→eq, list_eq_refl, Bool-cases, ltb, ◌==◌, if◌then◌else◌,
}
use check_po.Prelude.Result.{ok, err}
use check_po.Prelude.Bytes.{IsByte, to_be_bytes, le_bytes}
use check_po.Prelude.Decided.{bytes_decided}
use check_po.Prelude.Map.{get, insert, compare_text, get-insert_other, get-insert_same}
use check_po.Prelude.Slices.{joined}
use check_po.Prelude.Text.{codes}
use check_po.Codec.{Digest32, IsArray}
use check_po.Codec.Samples.{sixteen, sample_digest, sample_digest-IsArray}
use check_po.Path.Id.{encode_lower_hex}
use check_po.Inventory.{
  InventoryOperation, add, remove, InventoryState, LeafRef, SetRoot, SetLeaf, zeros, is_zero,
  encode_set_root, decode_set_root, encode_slots, encode_set_leaf, concat, ascending, byte_at,
  root_magic, leaf_magic,
}
use check_po.Inventory.Root.{
  IsSlot, IsSetRootValue, decode_set_root-encode_set_root, length-decoded,
}
use check_po.Inventory.Store.{
  Files, inventory_set_root_path, inventory_set_leaf_path, set_root_id, set_leaf_id, content_id,
  load_set_root, store_set_root, store_set_leaf,
}
use check_po.Inventory.Store.Loaded.{RootAt, RootAt-load_set_root}
use check_po.Inventory.Change.{
  binary_search, set, changed_count, set_root_contains, mutate_root, mutate_set,
}
use check_po.Inventory.Change.Slots.{Keeps, HoldsBytes}
use check_po.Inventory.Change.Parts.{after}
use check_po.Inventory.Change.Refines.{mutate_set-after}
use check_po.Inventory.Listing.{empty_slots, first_state}

-- A hash of 32 bytes that looks at a part of the text.
abbrev pub fixed : ℕ → List ℕ → List ℕ
fixed zero bs = []
fixed (suc n) [] = 0 ∷ fixed n []
fixed (suc n) (b ∷ bs) = b % 256 ∷ fixed n bs

pub part_hash : List ℕ → Digest32
part_hash bs = 1 ∷ fixed 31 (drop 60 bs)

pub fixed-IsArray : (n : ℕ) (bs : List ℕ) → IsArray n (fixed n bs)
fixed-IsArray zero bs = (refl, tt)
fixed-IsArray (suc n) [] = let (l, a) = fixed-IsArray n [] in (ap suc l, (omega arith, a))
fixed-IsArray (suc n) (b ∷ bs) = let (l, a) = fixed-IsArray n bs in (ap suc l, (omega arith, a))

pub part_hash-IsArray : (bs : List ℕ) → IsArray 32 (part_hash bs)
unfolding part_hash
part_hash-IsArray bs = let (l, a) = fixed-IsArray 31 (drop 60 bs) in (ap suc l, (omega arith, a))

pub part_hash_not_zero : (bs : List ℕ) → is_zero (part_hash bs) ≡ false
unfolding part_hash
part_hash_not_zero bs = refl

-- The empty inventory.
abbrev pub no_slots : SetRoot
no_slots = record { project_id = sixteen; count = 0; leaves = empty_slots 256 }

abbrev pub root_stored : SetRoot → List ℕ
root_stored root = joined (
    root_magic
    ∷ to_be_bytes 4 2
    ∷ root.project_id
    ∷ to_be_bytes 8 root.count
    ∷ encode_slots root.leaves
    ∷ [])

pub empty_slots-IsSlot : (n : ℕ) → All IsSlot (empty_slots n)
empty_slots-IsSlot zero = tt
empty_slots-IsSlot (suc n) = (tt, empty_slots-IsSlot n)

pub no_slots-IsSetRootValue : IsSetRootValue no_slots
no_slots-IsSetRootValue = record {
  project_id = (refl, bytes_decided sixteen refl);
  count = omega arith;
  leaves = empty_slots-IsSlot 256;
}

pub no_slots_encodes : encode_set_root no_slots ≡ ok (root_stored no_slots)
unfolding encode_set_root
no_slots_encodes = refl

pub no_slots_id : Digest32
no_slots_id = set_root_id part_hash (root_stored no_slots)

pub files : Files
files = (inventory_set_root_path no_slots_id, root_stored no_slots) ∷ []

pub no_slots_loads :
    (fs : Files)
    → get (inventory_set_root_path no_slots_id) fs ≡ some (root_stored no_slots)
    → load_set_root part_hash no_slots_id sixteen fs ≡ (ok no_slots, fs)
unfolding no_slots_id
no_slots_loads fs stored =
    let decodes =
      decode_set_root-encode_set_root no_slots (root_stored no_slots) no_slots-IsSetRootValue
        no_slots_encodes in
    RootAt-load_set_root part_hash fs no_slots_id sixteen no_slots (record {
      bytes = root_stored no_slots;
      stored = stored;
      sized = length-decoded no_slots (root_stored no_slots) decodes;
      named = refl;
      decodes = decodes;
      owned = refl;
    })

-- A snapshot of the last slot.
abbrev pub snapshot : Digest32
snapshot = 255 ∷ drop 1 sample_digest

pub snapshot-IsArray : IsArray 32 snapshot
snapshot-IsArray = (refl, bytes_decided snapshot refl)

abbrev pub one_leaf : SetLeaf
one_leaf = record { project_id = sixteen; prefix = 255; ids = snapshot ∷ [] }

abbrev pub leaf_stored : List ℕ
leaf_stored = joined (
    leaf_magic
    ∷ to_be_bytes 4 2
    ∷ sixteen
    ∷ (255 ∷ [])
    ∷ to_be_bytes 4 1
    ∷ concat (snapshot ∷ [])
    ∷ [])

pub leaf_encodes : encode_set_leaf one_leaf ≡ ok leaf_stored
unfolding encode_set_leaf ascending
leaf_encodes = refl

pub one_leaf_id : Digest32
one_leaf_id = set_leaf_id part_hash leaf_stored

abbrev pub one_slot : SetRoot
one_slot = record {
  project_id = sixteen;
  count = 1;
  leaves = set (empty_slots 256) 255 (some (record { id = one_leaf_id; count = 1 }));
}

pub one_slot_encodes : encode_set_root one_slot ≡ ok (root_stored one_slot)
unfolding encode_set_root
one_slot_encodes = refl

pub one_slot_id : Digest32
one_slot_id = set_root_id part_hash (root_stored one_slot)

pub files_between : Files
files_between = insert (inventory_set_leaf_path one_leaf_id) leaf_stored files

pub files_after : Files
files_after = insert (inventory_set_root_path one_slot_id) (root_stored one_slot) files_between

-- The files after the snapshot was added to the set.
abbrev pub added_to : Files → Files
added_to fs =
    insert (inventory_set_root_path one_slot_id) (root_stored one_slot)
      (insert (inventory_set_leaf_path one_leaf_id) leaf_stored fs)

pub adds :
    (fs : Files)
    → get (inventory_set_root_path no_slots_id) fs ≡ some (root_stored no_slots)
    → mutate_set part_hash sixteen (first_state sixteen no_slots_id) add snapshot fs
      ≡ (ok (one_slot_id, 1), added_to fs)
unfolding mutate_set binary_search store_set_leaf store_set_root one_slot_id one_leaf_id
adds fs stored = rw (no_slots_loads fs stored, leaf_encodes, one_slot_encodes) refl

pub files_stored : get (inventory_set_root_path no_slots_id) files ≡ some (root_stored no_slots)
unfolding files get
files_stored = rw (list_eq_refl (inventory_set_root_path no_slots_id)) refl

pub files-HoldsBytes : HoldsBytes files
unfolding files encode_slots joined to_be_bytes le_bytes
files-HoldsBytes = (bytes_decided (root_stored no_slots) refl, tt)
