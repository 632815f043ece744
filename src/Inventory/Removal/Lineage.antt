-- ===== src/Inventory/Removal/Lineage.antt =====
-- The walk through the older states ends.
use check_po.Prelude.{
  ℕ, zero, suc, ◌+◌, ◌≡◌, refl, ap, Bool, true, false, not, Option, none, some, List, ◌∷◌, arith,
  Bool-cases, inl, inr,
}
use check_po.Prelude.Result.{ok, err, reject_if}
use check_po.Prelude.Map.{mem}
use check_po.Codec.{Digest32, checked_add_u64}
use check_po.Inventory.{InventoryError, InventoryResult, corruption}
use check_po.Inventory.Store.{Files, M, then_run, ◌>>=◌, ◌>>◌, lift, InventoryHead, load_state}
use check_po.Inventory.Removal.{
  is_generation, surviving_candidate, to_parent, found_or_parent, round, survivor_from, survivor,
}

-- Two rounds that go on alike from every parent of the right generation.
Alike : ℕ → (InventoryHead → M Digest32) → (InventoryHead → M Digest32) → Type 0
Alike generation next next' =
    (parent : InventoryHead) (files : Files)
    → parent.state.generation + 1 ≡ generation
    → next parent files ≡ next' parent files

is_generation-follows :
    (g generation : ℕ) → is_generation (checked_add_u64 g 1) generation ≡ true → g + 1 ≡ generation
is_generation-follows g generation h = ground arith

module _ (hash : List ℕ → Digest32) (project_id : List ℕ) where
  to_parent-Alike :
      (next next' : InventoryHead → M Digest32) (generation : ℕ) (parent : Option Digest32)
      (files : Files)
      → Alike generation next next'
      → to_parent hash project_id next generation parent files
        ≡ to_parent hash project_id next' generation parent files
  unfolding Alike
  to_parent-Alike next next' generation none files a = refl
  to_parent-Alike next next' generation (some id) files a = by (load_state hash id project_id files)
    where
      e : InventoryError
      e = corruption "snapshot inventory state generations are not contiguous"

      by :
          (r : InventoryResult InventoryHead × Files)
          → then_run r (λ p.
            (lift
              (reject_if (not (is_generation (checked_add_u64 p.state.generation 1) generation)) e))
            >> next p)
            ≡ then_run r (λ p.
              (lift (
                reject_if
                  (not (is_generation (checked_add_u64 p.state.generation 1) generation))
                  e))
              >> next' p)
      by (err x, files1) = refl
      by (ok p, files1) =
          elim (Bool-cases (is_generation (checked_add_u64 p.state.generation 1) generation)) [
            | inl t ↦ rw t (a p files1 (is_generation-follows p.state.generation generation t))
            | inr t ↦ rw t refl
          ]

  round-Alike :
      (remaining visited : List Digest32) (next next' : InventoryHead → M Digest32)
      (cursor : InventoryHead) (files : Files)
      → Alike cursor.state.generation next next'
      → round hash project_id remaining visited next cursor files
        ≡ round hash project_id remaining visited next' cursor files
  unfolding round
  round-Alike remaining visited next next' cursor files a =
      by (mem cursor.id visited)
        (surviving_candidate cursor.state.operation cursor.state.snapshot_id remaining)
    where
      e : InventoryError
      e = corruption "snapshot inventory state chain contains a cycle"

      by :
          (b : Bool) (r : InventoryResult (Option Digest32))
          → ((lift (reject_if b e)) >> (lift r >>= found_or_parent hash project_id next cursor))
              files
            ≡ ((lift (reject_if b e)) >> (lift r >>= found_or_parent hash project_id next' cursor))
                files
      by true r = refl
      by false (err x) = refl
      by false (ok (some c)) = refl
      by false (ok none) =
          to_parent-Alike next next' cursor.state.generation cursor.state.parent files a

  -- The loop ends for every cursor and all files: the recursion on the generation does the rounds
  -- of the loop, each going on with the loop itself from the parent.
  pub survivor-round :
      (remaining visited : List Digest32) (cursor : InventoryHead) (files : Files)
      → survivor hash project_id remaining visited cursor files
        ≡ round hash project_id remaining visited
            (survivor hash project_id remaining (cursor.id ∷ visited))
            cursor
            files
  unfolding survivor Alike
  survivor-round remaining visited cursor files = by cursor.state.generation refl
    where
      by :
          (g : ℕ)
          → cursor.state.generation ≡ g
          → survivor_from hash project_id g remaining visited cursor files
            ≡ round hash project_id remaining visited
                (λ p.
                  survivor_from hash project_id p.state.generation remaining
                    (cursor.id ∷ visited)
                    p)
                cursor
                files
      by zero e =
          round-Alike remaining visited _ _ cursor files
            (λ parent files1 h. absurd (omega (arith, h, e)))
      by (suc g) e = round-Alike remaining visited _ _ cursor files (λ parent files1 h.
          let same : g ≡ parent.state.generation = omega (arith, h, e) in
          ap (λ k. survivor_from hash project_id k remaining (cursor.id ∷ visited) parent files1)
            same)
