-- ===== src/Inventory/Removal/Reads.antt =====
-- Reading the inventory leaves the files alone.
use check_po.Prelude.{ℕ, ◌+◌, ◌≡◌, refl, sym, ap, subst, ◌∙◌, Option, none, some, List, [], ◌∷◌}
use check_po.Prelude.Result.{ok, ok_or}
use check_po.Codec.{Digest32, checked_add_u64}
use check_po.Inventory.{InventoryResult, corruption, LeafRef, SetRoot}
use check_po.Inventory.Store.{Files, M, then_run, InventoryHead}
use check_po.Inventory.Store.Loaded.{run-eq_ok}
use check_po.Inventory.Change.{set_root_contains, contains_in}
use check_po.Inventory.Change.Preserves.{
  Preserves, preserves_rules, Preserves-lift, Preserves-bind, load_set_root-Preserves,
  counted_leaf-Preserves,
}
use check_po.Inventory.Listing.{insert_ids, collect_slots, load_inventory_ids}

unchanged :
    {A : Type 0} (m : M A) (files files1 : Files) (a : A)
    → Preserves (λ f. f ≡ files) m
    → m files ≡ (ok a, files1)
    → files1 ≡ files
unchanged {A} m files files1 a r h =
    ap (λ (p : InventoryResult A × Files). p.1) (sym h) ∙ r.at files refl

-- The same as `run-eq_ok` after a step that only reads.
pub reads-eq_ok :
    {A B : Type 0} (m : M A) (files : Files) (f : A → M B) {b : B} {files' : Files}
    → Preserves (λ f. f ≡ files) m
    → then_run (m files) f ≡ (ok b, files')
    → (a : A) × (m files ≡ (ok a, files)) × (f a files ≡ (ok b, files'))
reads-eq_ok m files f {b} {files'} r h =
    let (a, files1, g, rest) = run-eq_ok (m files) f h in
    let same = unchanged m files files1 a r g in
    (a, subst (λ fs. m files ≡ (ok a, fs)) same g, subst (λ fs. f a fs ≡ (ok b, files')) same rest)

module _ (hash : List ℕ → Digest32) (project_id : List ℕ) where
  collect_slots-Preserves :
      {P : Files → Type 0} (slot : ℕ) (leaves : List (Option LeafRef)) (ids : List Digest32)
      (total : ℕ)
      → Preserves P (collect_slots hash project_id slot leaves ids total)
  unfolding collect_slots
  collect_slots-Preserves slot [] ids total = Preserves-lift _
  collect_slots-Preserves slot (none ∷ leaves) ids total =
      collect_slots-Preserves (slot + 1) leaves ids total
  collect_slots-Preserves slot (some r ∷ leaves) ids total =
      Preserves-bind _ _ (counted_leaf-Preserves hash r project_id slot) λ leaf.
        Preserves-bind _ _
          (Preserves-lift (
            ok_or (checked_add_u64 total r.count)
              (corruption "snapshot inventory set count overflow")))
          λ total'.
            Preserves-bind _ _ (Preserves-lift (insert_ids leaf.ids ids))
              λ ids'. collect_slots-Preserves (slot + 1) leaves ids' total'

  pub load_inventory_ids-Preserves :
      {P : Files → Type 0} (head : InventoryHead)
      → Preserves P (load_inventory_ids hash project_id head.state)
  unfolding load_inventory_ids
  load_inventory_ids-Preserves head =
      search (preserves_rules, load_set_root-Preserves, collect_slots-Preserves) depth 30

  contains_in-Preserves :
      {P : Files → Type 0} (slot : Option LeafRef) (id : Digest32)
      → Preserves P (contains_in hash slot project_id id)
  contains_in-Preserves none id = Preserves-lift _
  contains_in-Preserves (some r) id = search (preserves_rules, counted_leaf-Preserves) depth 20

  pub set_root_contains-Preserves :
      {P : Files → Type 0} (root : SetRoot) (id : Digest32)
      → Preserves P (set_root_contains hash project_id root id)
  unfolding set_root_contains
  set_root_contains-Preserves root id = contains_in-Preserves _ id
