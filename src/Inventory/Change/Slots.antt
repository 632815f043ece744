-- ===== src/Inventory/Change/Slots.antt =====
-- The identifiers that a slot of a set root holds, through its leaf in the files.
use check_po.Prelude.{
  ℕ, ◌≡◌, refl, sym, subst, ◌∙◌, Bool, true, false, not, Option, none, some, List, [], ◌∷◌, length,
  All, ◌==◌, ==_iff, list_eq, if◌then◌else◌,
}
use check_po.Prelude.Result.{ok, reject_if, reject_if-eq_ok}
use check_po.Prelude.Bytes.{IsByte}
use check_po.Prelude.Map.{get}
use check_po.Codec.{Digest32, IsArray}
use check_po.Inventory.{LeafRef, SetLeaf, corruption, byte_at, ascending}
use check_po.Inventory.Fields.{not-false}
use check_po.Inventory.Leaf.Values.{decode_set_leaf-value}
use check_po.Inventory.Store.{Files, load_set_leaf}
use check_po.Inventory.Store.Loaded.{
  run-eq_ok, lift-eq_ok, last-eq_ok, LeafAt, load_set_leaf-LeafAt, LeafAt-load_set_leaf,
}
use check_po.Inventory.Change.{counted_leaf, contains_in, slot_leaf, binary_search, is_found}

-- Nothing that stood in the files was replaced.
abbrev pub Keeps : Files → Files → Type 0
Keeps files files' = (k v : List ℕ) → get k files ≡ some v → get k files' ≡ some v

-- All files hold bytes.
abbrev pub HoldsBytes : Files → Type 0
HoldsBytes files = All (λ e. All IsByte e.1) files

pub get-IsByte :
    (files : Files) (k v : List ℕ) → HoldsBytes files → get k files ≡ some v → All IsByte v
unfolding get
get-IsByte [] k v b h = cc h
get-IsByte ((x, w) ∷ files) k v b h = by (list_eq x k) h (λ e. get-IsByte files k v b.1 e)
  where
    by :
        (t : Bool)
        → (if t then some w else get k files) ≡ some v
        → (get k files ≡ some v → All IsByte v)
        → All IsByte v
    by true h ih = let same : w ≡ v = cc h in subst (All IsByte) same b.0
    by false h ih = ih h

module _ (hash : List ℕ → Digest32) where
  -- The leaf of a slot that is taken, which the slot counts right.
  pub record Counted (files : Files) (r : LeafRef) (project_id : List ℕ) (prefix : ℕ)
      (leaf : SetLeaf) : Type 0 where
    pub at : LeafAt hash files r.id project_id prefix leaf
    pub counted : length leaf.ids ≡ r.count

  pub counted_leaf-Counted :
      (files files' : Files) (r : LeafRef) (project_id : List ℕ) (prefix : ℕ) (leaf : SetLeaf)
      → counted_leaf hash r project_id prefix files ≡ (ok leaf, files')
      → Counted files r project_id prefix leaf × (files ≡ files')
  unfolding counted_leaf
  counted_leaf-Counted files files' r project_id prefix leaf h =
      let e = corruption "snapshot inventory leaf {prefix:02x} count mismatch" in
      let (found, files1, g1, h1) =
        run-eq_ok (load_set_leaf hash r.id project_id prefix files) _ h in
      let (at, unchanged) =
        load_set_leaf-LeafAt hash files files1 r.id project_id prefix found g1 in
      let (u, g2, h2) = lift-eq_ok (reject_if (not (length found.ids == r.count)) e) files1 _ h1 in
      let (same, last) = last-eq_ok found leaf files1 files' h2 in
      (
        subst (Counted files r project_id prefix) same (record {
          at = at;
          counted = (==_iff (length found.ids) r.count).0 (not-false _ (reject_if-eq_ok _ e g2));
        }),
        unchanged ∙ last,
      )

  pub Counted-counted_leaf :
      (files : Files) (r : LeafRef) (project_id : List ℕ) (prefix : ℕ) (leaf : SetLeaf)
      → Counted files r project_id prefix leaf
      → counted_leaf hash r project_id prefix files ≡ (ok leaf, files)
  unfolding counted_leaf
  Counted-counted_leaf files r project_id prefix leaf c =
      rw
        (
          LeafAt-load_set_leaf hash files r.id project_id prefix leaf c.at,
          c.counted,
          (==_iff r.count r.count).1 refl,
        )
        refl

  -- The identifiers of a slot.
  abbrev pub Ids : Files → Option LeafRef → List ℕ → ℕ → List Digest32 → Type 0
  Ids files none project_id prefix ids = ids ≡ []
  Ids files (some r) project_id prefix ids =
      (leaf : SetLeaf) × Counted files r project_id prefix leaf × (leaf.ids ≡ ids)

  pub LeafAt-Keeps :
      (files files' : Files) (id : Digest32) (project_id : List ℕ) (prefix : ℕ) (leaf : SetLeaf)
      → Keeps files files'
      → LeafAt hash files id project_id prefix leaf
      → LeafAt hash files' id project_id prefix leaf
  LeafAt-Keeps files files' id project_id prefix leaf k l = record {
    bytes = l.bytes;
    stored = k _ l.bytes l.stored;
    sized = l.sized;
    named = l.named;
    decodes = l.decodes;
    owned = l.owned;
    placed = l.placed;
  }

  pub Ids-Keeps :
      (files files' : Files) (slot : Option LeafRef) (project_id : List ℕ) (prefix : ℕ)
      (ids : List Digest32)
      → Keeps files files'
      → Ids files slot project_id prefix ids
      → Ids files' slot project_id prefix ids
  Ids-Keeps files files' none project_id prefix ids k h = h
  Ids-Keeps files files' (some r) project_id prefix ids k (leaf, c, e) = (
    leaf,
    record {
      at = LeafAt-Keeps files files' r.id project_id prefix leaf k c.at;
      counted = c.counted;
    },
    e,
  )

  pub contains_in-Ids :
      (files : Files) (slot : Option LeafRef) (project_id : List ℕ) (x : Digest32)
      (ids : List Digest32)
      → Ids files slot project_id (byte_at x 0) ids
      → contains_in hash slot project_id x files ≡ (ok (is_found (binary_search x ids)), files)
  unfolding binary_search
  contains_in-Ids files none project_id x ids h = rw h refl
  contains_in-Ids files (some r) project_id x ids (leaf, c, e) =
      rw (Counted-counted_leaf files r project_id (byte_at x 0) leaf c, e) refl

  pub Ids-contains_in :
      (files files' : Files) (slot : Option LeafRef) (project_id : List ℕ) (x : Digest32) (b : Bool)
      → contains_in hash slot project_id x files ≡ (ok b, files')
      → (ids : List Digest32) × Ids files slot project_id (byte_at x 0) ids
        × (b ≡ is_found (binary_search x ids))
  unfolding binary_search
  Ids-contains_in files files' none project_id x b h =
      ([], refl, sym (last-eq_ok false b files files' h).0)
  Ids-contains_in files files' (some r) project_id x b h =
      let (leaf, files1, g, h1) =
        run-eq_ok (counted_leaf hash r project_id (byte_at x 0) files) _ h in
      let (c, u) = counted_leaf-Counted files files1 r project_id (byte_at x 0) leaf g in
      (leaf.ids, (leaf, c, refl), sym (last-eq_ok _ b files1 files' h1).0)

  -- What `mutate_set` starts from: the leaf of the slot, or an empty one.
  pub record Start (files : Files) (slot : Option LeafRef) (project_id : List ℕ) (prefix : ℕ)
      (leaf : SetLeaf) : Type 0 where
    pub ids : Ids files slot project_id prefix leaf.ids
    pub arrays : All (IsArray 32) leaf.ids
    pub order : ascending leaf.ids ≡ true
    pub owned : leaf.project_id ≡ project_id
    pub placed : leaf.prefix ≡ prefix

  pub slot_leaf-Start :
      (files files' : Files) (slot : Option LeafRef) (project_id : List ℕ) (prefix : ℕ)
      (leaf : SetLeaf)
      → HoldsBytes files
      → slot_leaf hash slot project_id prefix files ≡ (ok leaf, files')
      → Start files slot project_id prefix leaf × (files ≡ files')
  unfolding ascending
  slot_leaf-Start files files' none project_id prefix leaf b h =
      let empty : SetLeaf = record { project_id = project_id; prefix = prefix; ids = [] } in
      let (same, unchanged) = last-eq_ok empty leaf files files' h in
      (
        subst (Start files none project_id prefix) same
            (record { ids = refl; arrays = tt; order = refl; owned = refl; placed = refl }),
        unchanged,
      )
  slot_leaf-Start files files' (some r) project_id prefix leaf b h =
      let (c, unchanged) = counted_leaf-Counted files files' r project_id prefix leaf h in
      let (value, canonical) =
        decode_set_leaf-value c.at.bytes leaf (get-IsByte files _ c.at.bytes b c.at.stored)
          c.at.decodes in
      (
        record {
          ids = (leaf, c, refl);
          arrays = value.ids;
          order = canonical.order;
          owned = c.at.owned;
          placed = c.at.placed;
        },
        unchanged,
      )
