-- ===== src/Inventory/Access/Physical.antt =====
-- The comparison with the snapshots that are stored compares sets.
use check_po.Prelude.{
  ℕ, ◌≡◌, refl, sym, ap, subst, ◌∙◌, Bool, true, false, not, ◌||◌, List, [], ◌∷◌, list_eq,
  list_eq→eq, Bool-cases, inl, inr,
}
use check_po.Prelude.Result.{ok, reject_if, reject_if-eq_ok}
use check_po.Prelude.Map.{mem, collect_keys, mem-collect_keys}
use check_po.Codec.{Digest32}
use check_po.Inventory.{corruption}
use check_po.Inventory.Fields.{not-false}
use check_po.Inventory.Store.{Files, M, InventoryHead, inventory_head}
use check_po.Inventory.Store.Loaded.{run-eq_ok, lift-eq_ok, last-eq_ok}
use check_po.Inventory.Change.Preserves.{inventory_head-Preserves}
use check_po.Inventory.Listing.{load_inventory_ids}
use check_po.Inventory.Removal.Reads.{reads-eq_ok, load_inventory_ids-Preserves}
use check_po.Inventory.Access.{sets_eq, validate_physical_snapshot_inventory}

sets_eq-eq : (left right : List Digest32) → sets_eq left right ≡ true → left ≡ right
sets_eq-eq [] [] h = refl
sets_eq-eq (a ∷ left) (b ∷ right) h = elim (Bool-cases (list_eq a b)) [
  | inl e ↦
      let rest = sets_eq-eq left right (rw e at h) in
      let first = list_eq→eq a b e in cc (first, rest)
  | inr e ↦ absurd (cc (rw e at h))
]
sets_eq-eq [] (b ∷ right) h = cc h
sets_eq-eq (a ∷ left) [] h = cc h

or_none : (id : Digest32) (b : Bool) → (b || mem id []) ≡ b
unfolding mem
or_none id true = refl
or_none id false = refl

-- If the comparison succeeds, then it returns what was listed, an identifier was listed exactly when
-- the set of the head holds it, and the head names the same state when it is read after the listing.
pub validate_physical_snapshot_inventory-Same :
    (hash : List ℕ → Digest32) (list_ids : M (List Digest32)) (project_id : List ℕ)
    (files files' : Files) (ids : List Digest32) (id : Digest32)
    → validate_physical_snapshot_inventory hash list_ids project_id files ≡ (ok ids, files')
    → (head : InventoryHead) × (again : InventoryHead) × (inventory_ids : List Digest32)
      × (listed : Files) × (inventory_head hash project_id files ≡ (ok head, files))
      × (load_inventory_ids hash project_id head.state files ≡ (ok inventory_ids, files))
      × (list_ids files ≡ (ok ids, listed))
      × (mem id ids ≡ mem id inventory_ids)
      × (inventory_head hash project_id listed ≡ (ok again, listed))
      × (again.id ≡ head.id)
unfolding validate_physical_snapshot_inventory
validate_physical_snapshot_inventory-Same hash list_ids project_id files files' ids id h =
    let e1 =
      corruption
        "snapshot inventory does not match physical roots (missing: [{}], unexpected: [{}])" in
    let e2 = corruption "snapshot inventory changed while physical roots were inspected" in
    let (head, g0, h0) =
      reads-eq_ok (inventory_head hash project_id) files _
        (inventory_head-Preserves hash project_id) h in
    let (held, g1, h1) =
      reads-eq_ok (load_inventory_ids hash project_id head.state) files _
        (load_inventory_ids-Preserves hash project_id head) h0 in
    let (physical, listed, g2, h2) = run-eq_ok (list_ids files) _ h1 in
    let (u3, g3, h3) =
      lift-eq_ok (reject_if (not (sets_eq held (collect_keys [] physical))) e1) listed _ h2 in
    let (again, g4, h4) =
      reads-eq_ok (inventory_head hash project_id) listed _
        (inventory_head-Preserves hash project_id) h3 in
    let (u5, g5, h5) = lift-eq_ok (reject_if (not (list_eq again.id head.id)) e2) listed _ h4 in
    let same = sets_eq-eq held (collect_keys [] physical) (not-false _ (reject_if-eq_ok _ e1 g3)) in
    let result = (last-eq_ok physical ids listed files' h5).0 in
    let members : mem id physical ≡ mem id held =
      sym (ap (mem id) same ∙ (mem-collect_keys id [] physical ∙ or_none id (mem id physical))) in
    (
      head,
      again,
      held,
      listed,
      g0,
      g1,
      subst (λ p. list_ids files ≡ (ok p, listed)) result g2,
      subst (λ p. mem id p ≡ mem id held) result members,
      g4,
      list_eq→eq again.id head.id (not-false _ (reject_if-eq_ok _ e2 g5)),
    )
