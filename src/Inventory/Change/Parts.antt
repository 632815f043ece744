-- ===== src/Inventory/Change/Parts.antt =====
-- The parts of a change: the identifiers of one leaf, the count, the slots and the paths.
use check_po.Prelude.{
  ℕ, zero, suc, ◌≤◌, ◌<◌, ◌≡◌, ◌≢◌, refl, sym, ap, subst, Bool, true, false, not, ◌&&◌, ◌||◌,
  Option, none, List, [], ◌∷◌, arith, length, All, get_or, list_eq,
}
use check_po.Prelude.Result.{ok}
use check_po.Prelude.Bytes.{IsByte, IsU64}
use check_po.Prelude.Map.{list_eq-false}
use check_po.Codec.{Digest32, IsArray}
use check_po.Inventory.{InventoryOperation, initialize, add, remove, LeafRef, byte_at, ascending}
use check_po.Inventory.Store.{inventory_set_root_path, inventory_set_leaf_path}
use check_po.Inventory.Change.{
  Search, found, absent, binary_search, is_found, insert_at, remove_at, set, changed_ids,
  changed_count,
}
use check_po.Inventory.Change.Ordered.{search-insert_at, search-remove_at}

-- Membership of x after an operation on `id`, from membership before.
unfoldable pub after : InventoryOperation → Digest32 → Digest32 → Bool → Bool
after add id x old = list_eq x id || old
after remove id x old = not (list_eq x id) && old
after initialize id x old = old

insert_at-All :
    (P : Digest32 → Type 0) (i : ℕ) (id : Digest32) (ids : List Digest32)
    → P id
    → All P ids
    → All P (insert_at i id ids)
insert_at-All P zero id ids p h = (p, h)
insert_at-All P (suc i) id [] p h = (p, tt)
insert_at-All P (suc i) id (x ∷ ids) p h = (h.0, insert_at-All P i id ids p h.1)

remove_at-All :
    (P : Digest32 → Type 0) (i : ℕ) (ids : List Digest32) → All P ids → All P (remove_at i ids)
remove_at-All P zero [] h = tt
remove_at-All P (suc i) [] h = tt
remove_at-All P zero (x ∷ ids) h = h.1
remove_at-All P (suc i) (x ∷ ids) h = (h.0, remove_at-All P i ids h.1)

length-insert_at :
    (i : ℕ) (id : Digest32) (ids : List Digest32) → length (insert_at i id ids) ≡ suc (length ids)
length-insert_at zero id ids = refl
length-insert_at (suc i) id [] = refl
length-insert_at (suc i) id (x ∷ ids) = ap suc (length-insert_at i id ids)

length-remove_at : (i : ℕ) (ids : List Digest32) → length (remove_at i ids) ≤ length ids
length-remove_at zero [] = omega arith
length-remove_at (suc i) [] = omega arith
length-remove_at zero (x ∷ ids) = omega arith
length-remove_at (suc i) (x ∷ ids) = omega (arith, length-remove_at i ids)

-- What changing the identifiers of a leaf gives.
pub record Changed (op : InventoryOperation) (id : Digest32) (ids ids' : List Digest32)
    : Type 0 where
  pub arrays : All (IsArray 32) ids'
  pub small : length ids' ≤ suc (length ids)
  pub found_after :
      (x : Digest32)
      → is_found (binary_search x ids') ≡ after op id x (is_found (binary_search x ids))

pub changed_ids-Changed :
    (op : InventoryOperation) (s : Search) (id : Digest32) (ids ids' : List Digest32)
    → binary_search id ids ≡ s
    → IsArray 32 id
    → All (IsArray 32) ids
    → ascending ids ≡ true
    → changed_ids op s id ids ≡ ok ids'
    → Changed op id ids ids'
unfolding after
changed_ids-Changed add (found i) id ids ids' s a all o h = cc h
changed_ids-Changed add (absent i) id ids ids' s a all o h =
    let same : insert_at i id ids ≡ ids' = cc h in
    subst (Changed add id ids) same (record {
      arrays = insert_at-All (IsArray 32) i id ids a all;
      small = omega (arith, length-insert_at i id ids);
      found_after = λ x. search-insert_at x id ids i s;
    })
changed_ids-Changed remove (found i) id ids ids' s a all o h =
    let same : remove_at i ids ≡ ids' = cc h in
    subst (Changed remove id ids) same (record {
      arrays = remove_at-All (IsArray 32) i ids all;
      small = omega (arith, length-remove_at i ids);
      found_after = λ x. search-remove_at x id ids i o s;
    })
changed_ids-Changed remove (absent i) id ids ids' s a all o h = cc h
changed_ids-Changed initialize s id ids ids' e a all o h = cc h

pub changed_count-IsU64 :
    (op : InventoryOperation) (count count' : ℕ)
    → IsU64 count
    → changed_count op count ≡ ok count'
    → IsU64 count'
changed_count-IsU64 add count count' u h = ground arith
changed_count-IsU64 remove count count' u h = ground arith
changed_count-IsU64 initialize count count' u h = cc h

pub set-All :
    (P : Option LeafRef → Type 0) (leaves : List (Option LeafRef)) (i : ℕ) (slot : Option LeafRef)
    → P slot
    → All P leaves
    → All P (set leaves i slot)
set-All P [] i slot p h = tt
set-All P (x ∷ leaves) zero slot p h = (p, h.1)
set-All P (x ∷ leaves) (suc i) slot p h = (h.0, set-All P leaves i slot p h.1)

pub get_or-set_same :
    (leaves : List (Option LeafRef)) (i : ℕ) (slot : Option LeafRef)
    → i < length leaves
    → get_or (set leaves i slot) i none ≡ slot
get_or-set_same [] i slot h = absurd (omega arith)
get_or-set_same (x ∷ leaves) zero slot h = refl
get_or-set_same (x ∷ leaves) (suc i) slot h = get_or-set_same leaves i slot (omega arith)

pub get_or-set_other :
    (leaves : List (Option LeafRef)) (i j : ℕ) (slot : Option LeafRef)
    → i ≢ j
    → get_or (set leaves i slot) j none ≡ get_or leaves j none
get_or-set_other [] i j slot h = refl
get_or-set_other (x ∷ leaves) zero zero slot h = absurd (h refl)
get_or-set_other (x ∷ leaves) zero (suc j) slot h = refl
get_or-set_other (x ∷ leaves) (suc i) zero slot h = refl
get_or-set_other (x ∷ leaves) (suc i) (suc j) slot h =
    get_or-set_other leaves i j slot (λ e. h (ap suc e))

pub root_path-ne-leaf_path :
    (a b : Digest32) → list_eq (inventory_set_root_path a) (inventory_set_leaf_path b) ≡ false
unfolding inventory_set_root_path inventory_set_leaf_path list_eq
root_path-ne-leaf_path a b = refl

-- A different first byte is a different identifier.
pub after-other :
    (op : InventoryOperation) (id x : Digest32) (old : Bool)
    → byte_at id 0 ≢ byte_at x 0
    → after op id x old ≡ old
unfolding after
after-other op id x old n = by op (list_eq-false x id (λ e. n (ap (λ y. byte_at y 0) (sym e))))
  where
    by : (op : InventoryOperation) → list_eq x id ≡ false → after op id x old ≡ old
    by add e = rw e refl
    by remove e = rw e refl
    by initialize e = refl

pub byte_at-lt : (bs : List ℕ) → All IsByte bs → byte_at bs 0 < 256
byte_at-lt [] h = omega arith
byte_at-lt (x ∷ bs) h = h.0
