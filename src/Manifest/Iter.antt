-- ===== src/Manifest/Iter.antt =====
-- The iterator over the entries of a manifest: `ManifestIter` of snapshot_v2.rs.
pub mod Yields
pub mod Order
mod Tests
use check_po.Prelude.{
  ℕ, zero, suc, Bool, true, false, Option, none, some, List, [], ◌∷◌, ◌++◌, if◌then◌else◌,
}
use check_po.Prelude.Result.{ok, err}
use check_po.Prelude.Map.{mem}
use check_po.Codec.{Digest32, LeafEntry, ManifestRef, ManifestChild}
use check_po.Manifest.{SnapshotV2Result, ManifestEntry, entry_of_leaf, invalid, duplicate_range}
use check_po.Manifest.Leaf.{DecodedChunk, a_node, a_leaf, load_chunk}
use check_po.Manifest.Build.{ref_key}

-- `pending` has the reference that is popped first at its front.
pub record ManifestIter : Type 0 where
  pub pending : List ManifestRef
  pub visited : List (List ℕ)
  pub leaf_entries : List LeafEntry
  pub failed : Bool

abbrev pub root_pending : Option ManifestRef → List ManifestRef
root_pending none = []
root_pending (some root) = root ∷ []

abbrev pub manifest_iter : Option ManifestRef → ManifestIter
manifest_iter root = record {
  pending = root_pending root;
  visited = [];
  leaf_entries = [];
  failed = false;
}

abbrev pub children_of : List ManifestChild → List ManifestRef
children_of [] = []
children_of (c ∷ cs) = c.child ∷ children_of cs

-- What `next` returns, with the iterator behind it; `none` when the rounds are used up.
abbrev pub Next : Type 0
Next = Option (Option (SnapshotV2Result ManifestEntry) × ManifestIter)

abbrev pub failed_with : ManifestIter → SnapshotV2Result ManifestEntry → Next
failed_with it error = some (
  some error,
  record {
    pending = it.pending;
    visited = it.visited;
    leaf_entries = it.leaf_entries;
    failed = true;
  },
)

-- The `match` on the loaded chunk; `again` is the next round.
abbrev pub loaded_round :
    (ManifestIter → Next) → SnapshotV2Result DecodedChunk → ManifestIter → Next
loaded_round again (ok (a_leaf l bytes)) it = again (record {
  pending = it.pending;
  visited = it.visited;
  leaf_entries = l.entries;
  failed = it.failed;
})
loaded_round again (ok (a_node n bytes)) it = again (record {
  pending = children_of n.children ++ it.pending;
  visited = it.visited;
  leaf_entries = it.leaf_entries;
  failed = it.failed;
})
loaded_round again (err e) it = failed_with it (err e)

module _ (hash : List ℕ → Digest32) (source : ManifestRef → SnapshotV2Result (List ℕ)) where
  -- A reference that was popped, by whether it was visited.
  abbrev pub popped_round : (ManifestIter → Next) → Bool → ManifestRef → ManifestIter → Next
  popped_round again true reference it =
      failed_with it (err (invalid (duplicate_range (ref_key reference))))
  popped_round again false reference it =
      loaded_round again (load_chunk hash source reference) (record {
        pending = it.pending;
        visited = ref_key reference ∷ it.visited;
        leaf_entries = it.leaf_entries;
        failed = it.failed;
      })

  abbrev pub pop : (ManifestIter → Next) → List ManifestRef → ManifestIter → Next
  pop again [] it = some (none, it)
  pop again (reference ∷ pending) it =
      popped_round again (mem (ref_key reference) it.visited) reference (record {
        pending = pending;
        visited = it.visited;
        leaf_entries = it.leaf_entries;
        failed = it.failed;
      })

  abbrev pub next_round : (ManifestIter → Next) → List LeafEntry → ManifestIter → Next
  next_round again (entry ∷ entries) it = some (
    some (ok (entry_of_leaf entry)),
    record {
      pending = it.pending;
      visited = it.visited;
      leaf_entries = entries;
      failed = it.failed;
    },
  )
  next_round again [] it = pop again it.pending it

  -- The loop, with the rounds that are left.
  unfoldable pub next_loop : ℕ → ManifestIter → Next
  next_loop zero it = none
  next_loop (suc rounds) it = next_round (next_loop rounds) it.leaf_entries it

  unfoldable pub next : ℕ → ManifestIter → Next
  unfolding next_loop
  next rounds it = if it.failed then some (none, it) else next_loop rounds it
