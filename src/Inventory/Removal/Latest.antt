-- ===== src/Inventory/Removal/Latest.antt =====
-- The latest checkpoint that a removal projects is one that remains.
use check_po.Prelude.{
  ℕ, zero, suc, ◌+◌, ◌-◌, ◌≡◌, refl, sym, ap, subst, ◌∙◌, Bool, true, false, not, ◌⊎◌, inl, inr,
  Option, none, some, List, [], arith, ◌==◌, list_eq, if◌then◌else◌,
}
use check_po.Prelude.Result.{ok, err, reject_if, reject_if-eq_ok}
use check_po.Prelude.Map.{mem}
use check_po.Codec.{Digest32}
use check_po.Inventory.{InventoryError, InventoryResult, corruption, SetRoot}
use check_po.Inventory.Fields.{not-false}
use check_po.Inventory.Store.{Files, ◌>>=◌, InventoryHead, load_set_root, inventory_head}
use check_po.Inventory.Store.Loaded.{run-eq_ok, lift-eq_ok, last-eq_ok}
use check_po.Inventory.Change.{option_eq, set_root_contains}
use check_po.Inventory.Change.Preserves.{inventory_head-Preserves, load_set_root-Preserves}
use check_po.Inventory.Listing.{load_inventory_ids}
use check_po.Inventory.Removal.{
  without, survivor_from, survivor, newest_surviving, keep_latest, is_usable, parent_or_newest,
  from_parent, replace_latest, project_snapshot_removal,
}
use check_po.Inventory.Removal.Survivor.{mem-without, survivor_from-mem}
use check_po.Inventory.Removal.Reads.{
  reads-eq_ok, load_inventory_ids-Preserves, set_root_contains-Preserves,
}

one_less :
    (c n : ℕ) (e : InventoryError) → (if c == 0 then err e else ok (c - 1)) ≡ ok n → c ≡ n + 1
one_less c n e h = ground arith

module _ (hash : List ℕ → Digest32) (project_id : List ℕ) (files : Files)
    (head : InventoryHead) where
  -- The set of the head has the identifier, as `set_root_contains` or the listing says.
  abbrev pub Contained : Digest32 → Type 0
  Contained id =
      (root : SetRoot) × (load_set_root hash head.state.set_root project_id files
        ≡ (ok root, files))
      × (set_root_contains hash project_id root id files ≡ (ok true, files))

  abbrev pub Listed : Digest32 → Type 0
  Listed id =
      (ids : List Digest32) × (load_inventory_ids hash project_id head.state files
        ≡ (ok ids, files))
      × (mem id ids ≡ true)

  abbrev pub IsLatest : Digest32 → Option Digest32 → ℕ → Option Digest32 → Type 0
  IsLatest removed current_latest count none = (count ≡ 0) ⊎ (current_latest ≡ none)
  IsLatest removed current_latest count (some latest) =
      (list_eq latest removed ≡ false) × (Contained latest ⊎ Listed latest)

  module _ (removed : Digest32) (current_latest : Option Digest32) (files' : Files) (n count : ℕ)
      (latest : Option Digest32) where
    Result : Type 0
    Result = (count ≡ n) × IsLatest removed current_latest count latest

    result_is :
        (l : Option Digest32) (fs : Files)
        → IsLatest removed current_latest n l
        → (◌≡◌ {A = InventoryResult (ℕ × Option Digest32) × Files}
            (ok (n, l), fs)
            (ok (count, latest), files'))
        → Result
    unfolding Result
    result_is l fs i h =
        let pair = (last-eq_ok (n, l) (count, latest) fs files' h).0 in
        let same : n ≡ count = ap (λ (p : ℕ × Option Digest32). p.0) pair in
        subst (λ (p : ℕ × Option Digest32). (p.0 ≡ n) × IsLatest removed current_latest p.0 p.1)
          pair (refl, i)

    newest_surviving-Result :
        newest_surviving hash project_id removed head n files ≡ (ok (count, latest), files')
        → Result
    unfolding newest_surviving survivor
    newest_surviving-Result h =
        let (ids, g1, h1) =
          reads-eq_ok (load_inventory_ids hash project_id head.state) files _
            (load_inventory_ids-Preserves hash project_id head) h in
        let (l, files2, g2, h2) =
          run-eq_ok
            (survivor_from hash project_id head.state.generation (without removed ids) [] head
              files)
            _ h1 in
        let (apart, there) = mem-without l removed ids (
          survivor_from-mem hash project_id head.state.generation (without removed ids) [] head
            files files2 l g2) in
        result_is (some l) files2 (apart, inr (ids, g1, there)) h2

    module _ (root : SetRoot)
        (loaded : load_set_root hash head.state.set_root project_id files ≡ (ok root, files)) where
      keep_latest-Result :
          (o : Option Digest32)
          → current_latest ≡ o
          → option_eq o (some removed) ≡ false
          → keep_latest hash project_id root n o files ≡ (ok (count, latest), files')
          → Result
      keep_latest-Result none e d h = result_is none files (inr e) h
      keep_latest-Result (some l) e d h =
          let wrong = corruption "refs/latest points outside the snapshot inventory: {latest}" in
          let (held, g1, h1) =
            reads-eq_ok (set_root_contains hash project_id root l) files _
              (set_root_contains-Preserves hash project_id root l) h in
          let (u, g2, h2) = lift-eq_ok (reject_if (not held) wrong) files _ h1 in
          let yes : held ≡ true = not-false held (reject_if-eq_ok _ wrong g2) in
          let there : set_root_contains hash project_id root l files ≡ (ok true, files) =
            subst (λ b. set_root_contains hash project_id root l files ≡ (ok b, files)) yes g1 in
          result_is (some l) files (d, inl (root, loaded, there)) h2

      parent_or_newest-Result :
          (parent : Digest32) (usable : Bool)
          → (usable ≡ true → (list_eq parent removed ≡ false) × Contained parent)
          → parent_or_newest hash project_id removed head n parent usable files
            ≡ (ok (count, latest), files')
          → Result
      parent_or_newest-Result parent true c h =
          let (apart, there) = c refl in result_is (some parent) files (apart, inl there) h
      parent_or_newest-Result parent false c h = newest_surviving-Result h

      is_usable-Contained :
          (parent : Digest32) (same : Bool)
          → list_eq parent removed ≡ same
          → (is_usable hash project_id root parent same
                >>= parent_or_newest hash project_id removed head n parent)
              files
            ≡ (ok (count, latest), files')
          → Result
      is_usable-Contained parent true e h = newest_surviving-Result h
      is_usable-Contained parent false e h =
          let (usable, g, h1) =
            reads-eq_ok (set_root_contains hash project_id root parent) files _
              (set_root_contains-Preserves hash project_id root parent) h in
          parent_or_newest-Result parent usable
            (λ yes. (
              e,
              (
                root,
                loaded,
                subst (λ b. set_root_contains hash project_id root parent files ≡ (ok b, files)) yes
                    g,
              ),
            ))
            h1

      from_parent-Result :
          (preferred : Option Digest32)
          → from_parent hash project_id removed head root n preferred files
            ≡ (ok (count, latest), files')
          → Result
      from_parent-Result none h = newest_surviving-Result h
      from_parent-Result (some parent) h =
          is_usable-Contained parent (list_eq parent removed) refl h

module _ (hash : List ℕ → Digest32) (project_id : List ℕ) where
  replace_latest-Result :
      (files files' : Files) (head : InventoryHead) (removed : Digest32)
      (current_latest preferred_parent : Option Digest32) (n count : ℕ) (latest : Option Digest32)
      (root : SetRoot)
      → load_set_root hash head.state.set_root project_id files ≡ (ok root, files)
      → (same : Bool) → option_eq current_latest (some removed) ≡ same
      → replace_latest hash project_id removed head root n current_latest preferred_parent same
          files
        ≡ (ok (count, latest), files')
      → Result hash project_id files head removed current_latest files' n count latest
  replace_latest-Result files files' head removed current_latest preferred_parent n count latest
        root loaded false e h =
      keep_latest-Result hash project_id files head removed current_latest files' n count latest
        root loaded current_latest refl e h
  replace_latest-Result files files' head removed current_latest preferred_parent zero count latest
        root loaded true e h =
      result_is hash project_id files head removed current_latest files' 0 count latest none files
        (inl refl) h
  replace_latest-Result files files' head removed current_latest preferred_parent (suc n) count
        latest root loaded true e h =
      from_parent-Result hash project_id files head removed current_latest files' (suc n) count
        latest root loaded preferred_parent h

  -- If the removal of a snapshot can be projected, then the set of the head holds the snapshot, the
  -- count is one less than the head's, and the latest checkpoint, when there is one, is another
  -- snapshot that the set holds; when there is none, no snapshot remains or there was none before.
  pub project_snapshot_removal-IsLatest :
      (removed : Digest32) (current_latest preferred_parent : Option Digest32)
      (files files' : Files) (count : ℕ) (latest : Option Digest32)
      → project_snapshot_removal hash project_id removed current_latest preferred_parent files
        ≡ (ok (count, latest), files')
      → (head : InventoryHead) × (inventory_head hash project_id files ≡ (ok head, files))
        × (head.state.count ≡ count + 1)
        × Contained hash project_id files head removed
        × IsLatest hash project_id files head removed current_latest count latest
  unfolding project_snapshot_removal Result
  project_snapshot_removal-IsLatest removed current_latest preferred_parent files files' count
        latest h =
      let e1 = corruption "cannot remove a snapshot from an empty inventory" in
      let e2 = corruption "snapshot inventory state count does not match its set root" in
      let e3 = corruption "snapshot inventory does not contain root {removed}" in
      let e4 = corruption "snapshot inventory count underflow" in
      let (head, g0, h0) =
        reads-eq_ok (inventory_head hash project_id) files _
          (inventory_head-Preserves hash project_id) h in
      let (u1, g1, h1) = lift-eq_ok (reject_if (head.state.count == 0) e1) files _ h0 in
      let (root, g2, h2) =
        reads-eq_ok (load_set_root hash head.state.set_root project_id) files _
          (load_set_root-Preserves hash head.state.set_root project_id) h1 in
      let (u3, g3, h3) =
        lift-eq_ok (reject_if (not (root.count == head.state.count)) e2) files _ h2 in
      let (held, g4, h4) =
        reads-eq_ok (set_root_contains hash project_id root removed) files _
          (set_root_contains-Preserves hash project_id root removed) h3 in
      let (u5, g5, h5) = lift-eq_ok (reject_if (not held) e3) files _ h4 in
      let (n, g6, h6) =
        lift-eq_ok (if head.state.count == 0 then err e4 else ok (head.state.count - 1)) files _
          h5 in
      let (counted, is_latest) =
        replace_latest-Result files files' head removed current_latest preferred_parent n count
          latest root g2 (option_eq current_latest (some removed)) refl h6 in
      let yes : held ≡ true = not-false held (reject_if-eq_ok _ e3 g5) in
      (
        head,
        g0,
        one_less head.state.count n e4 g6 ∙ ap (λ k. k + 1) (sym counted),
        (
          root,
          g2,
          subst (λ b. set_root_contains hash project_id root removed files ≡ (ok b, files)) yes g4,
        ),
        is_latest,
      )
