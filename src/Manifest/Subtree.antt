-- ===== src/Manifest/Subtree.antt =====
-- Validating a whole tree: `validate_manifest_cached` and `validate_subtree` of snapshot_v2.rs.
pub mod Walk
pub mod Gather
pub mod Children
pub mod Leaf
pub mod Node
pub mod Remember
pub mod Sound
pub mod Valid
mod Tests
use check_po.Prelude.{
  ℕ, zero, suc, ◌+◌, ◌-◌, ◌*◌, ◌^◌, Bool, true, false, not, ◌&&◌, ◌||◌, Option, none, some, List,
  [], ◌∷◌, length, take, ltb, leb, ◌==◌, list_eq, if◌then◌else◌,
}
use check_po.Prelude.Result.{ok, err, ◌>>=◌, ◌>>◌, reject_if}
use check_po.Prelude.Map.{Map, Comparison, less, equal, greater, compare_text, mem, get, insert}
use check_po.Codec.{
  Digest32, ManifestRef, ManifestSummary, empty_summary, summary_eq, checked_add, ManifestChild,
  ManifestNode,
}
use check_po.Codec.Chunk.{encode_node}
use check_po.Manifest.{
  SnapshotV2Result, invalid, too_deep, empty_root_summary, root_summary_mismatch, cache_full,
  cache_heavy, too_many_chunks, noncanonical_node, few_children, edges_unordered,
  child_summary_mismatch, edge_mismatch, ranges_unordered, child_conflict,
  prefix_not_descendant_lcp, node_fits_leaf, duplicate_range, from_codec, starts_with, edge_at,
  is_path_ancestor, common_prefix_len, leaf_encoded_len,
}
use check_po.Manifest.Leaf.{
  manifest_leaf_target_bytes, DecodedChunk, a_node, a_leaf, load_chunk, ValidationInfo,
  validate_leaf,
}
use check_po.Manifest.Build.{ref_key, max_manifest_depth}

abbrev pub max_manifest_validation_chunks : ℕ
max_manifest_validation_chunks = 100_000

abbrev pub max_manifest_validation_cache_bytes : ℕ
max_manifest_validation_cache_bytes = 64 * 1024 * 1024

-- `usize::saturating_add`
unfoldable pub saturating_add : ℕ → ℕ → ℕ
saturating_add a b = if ltb (a + b) (2 ^ 64) then a + b else 2 ^ 64 - 1

abbrev pub max_of : ℕ → ℕ → ℕ
max_of a b = if ltb a b then b else a

pub record ManifestValidationCache : Type 0 where
  pub validated : Map ValidationInfo
  pub estimated_heap_bytes : ℕ

-- `ManifestValidationCache::default()`
abbrev pub empty_cache : ManifestValidationCache
empty_cache = record { validated = []; estimated_heap_bytes = 0 }

-- What `validate_subtree` changes: the references that were visited, and the cache.
pub record Validation : Type 0 where
  pub visited : List (List ℕ)
  pub cache : ManifestValidationCache

-- A step returns its result and the state, and keeps what it changed when it fails.
abbrev pub Step : Type 0 → Type 0
Step A = Validation → SnapshotV2Result A × Validation

abbrev pub then_step :
    {A : Type 0} {B : Type 0}
    → SnapshotV2Result A × Validation
    → (A → Step B)
    → SnapshotV2Result B × Validation
then_step (ok a, state) f = f a state
then_step (err e, state) f = (err e, state)

-- The keys and the summary of the children so far.
pub record Gathered : Type 0 where
  pub first_key : Option (List ℕ)
  pub last_key : Option (List ℕ)
  pub summary : ManifestSummary
  pub maximum_relative_depth : ℕ

abbrev pub nothing_gathered : Gathered
nothing_gathered = record {
  first_key = none;
  last_key = none;
  summary = empty_summary;
  maximum_relative_depth = 0;
}

-- The loop over `node.children.windows(2)`.
unfoldable pub check_edges : List ManifestChild → SnapshotV2Result (Unit {0})
check_edges [] = ok tt
check_edges (c ∷ []) = ok tt
check_edges (c ∷ d ∷ cs) =
    reject_if (leb d.edge c.edge) (invalid edges_unordered) >>= λ _. check_edges (d ∷ cs)

abbrev pub is_less : Comparison → Bool
is_less less = true
is_less _ = false

-- The child before, if there is one.
abbrev pub check_previous : Option (List ℕ) → List ℕ → SnapshotV2Result (Unit {0})
check_previous none first_key = ok tt
check_previous (some previous) first_key = do
  reject_if (not (is_less (compare_text previous first_key))) (invalid ranges_unordered)
  reject_if (is_path_ancestor previous first_key) (invalid child_conflict)

abbrev pub get_or_insert : Option (List ℕ) → List ℕ → Option (List ℕ)
get_or_insert none key = some key
get_or_insert (some first) key = some first

-- The body of the loop over the children, once the child is validated.
unfoldable pub check_child :
    List ℕ → ManifestChild → ValidationInfo → Gathered → SnapshotV2Result Gathered
check_child prefix child info so_far = do
  reject_if (not (summary_eq info.summary child.summary)) (invalid child_summary_mismatch)
  reject_if
      (not (starts_with info.first_key prefix)
        || not (edge_at info.first_key (length prefix) == child.edge)
        || not (edge_at info.last_key (length prefix) == child.edge))
      (invalid edge_mismatch)
  check_previous so_far.last_key info.first_key
  total ← from_codec (checked_add so_far.summary info.summary)
  ok (record {
    first_key = get_or_insert so_far.first_key info.first_key;
    last_key = some info.last_key;
    summary = total;
    maximum_relative_depth =
        max_of so_far.maximum_relative_depth (saturating_add info.maximum_relative_depth 1);
  })

unfoldable pub check_children :
    (ManifestRef → Step ValidationInfo) → List ℕ → List ManifestChild → Gathered → Step Gathered
check_children visit prefix [] so_far state = (ok so_far, state)
check_children visit prefix (c ∷ cs) so_far state = then_step (visit c.child state) λ info state.
    then_step (check_child prefix c info so_far, state) (check_children visit prefix cs)

-- The checks before the loop over the children.
unfoldable pub check_node : ManifestNode → List ℕ → SnapshotV2Result (Unit {0})
unfolding check_edges
check_node n stored_bytes = do
  encoded ← from_codec (encode_node n)
  reject_if (not (list_eq encoded stored_bytes)) (invalid noncanonical_node)
  reject_if (ltb (length n.children) 2) (invalid few_children)
  check_edges n.children

-- The checks behind it, on the keys that `expect` takes.
abbrev pub node_info : List ℕ → Gathered → List ℕ → List ℕ → SnapshotV2Result ValidationInfo
node_info prefix all first_key last_key = do
  reject_if (not (list_eq prefix (take (common_prefix_len first_key last_key) first_key)))
      (invalid prefix_not_descendant_lcp)
  encoded ← leaf_encoded_len prefix all.summary
  reject_if (leb encoded manifest_leaf_target_bytes) (invalid node_fits_leaf)
  ok (record {
    summary = all.summary;
    first_key = first_key;
    last_key = last_key;
    maximum_relative_depth = all.maximum_relative_depth;
  })

-- `expect` finds the keys, since there are children.
abbrev pub expect_keys :
    List ℕ → Gathered → Option (List ℕ) → Option (List ℕ) → SnapshotV2Result ValidationInfo
expect_keys prefix all (some first_key) (some last_key) = node_info prefix all first_key last_key
expect_keys prefix all _ _ = err (invalid few_children)

-- The size of a reference and of the information, and the capacity of a vector.
module _ (ref_size info_size : ℕ) (capacity : List ℕ → ℕ) where
  abbrev pub estimated_bytes : ValidationInfo → ℕ
  estimated_bytes info =
      saturating_add
        (saturating_add
          (saturating_add (saturating_add ref_size info_size) (capacity info.first_key))
          (capacity info.last_key))
        64

  -- What is put into the cache when the reference is not in it.
  abbrev pub cached :
      Option ValidationInfo
      → List ℕ
      → ValidationInfo
      → ManifestValidationCache
      → SnapshotV2Result ManifestValidationCache
  cached (some _) key info cache = ok cache
  cached none key info cache = do
    reject_if (leb max_manifest_validation_chunks (length cache.validated)) (invalid cache_full)
    reject_if
        (ltb max_manifest_validation_cache_bytes
          (saturating_add cache.estimated_heap_bytes (estimated_bytes info)))
        (invalid cache_heavy)
    ok (record {
      validated = insert key info cache.validated;
      estimated_heap_bytes = saturating_add cache.estimated_heap_bytes (estimated_bytes info);
    })

  abbrev pub with_cache :
      SnapshotV2Result ManifestValidationCache → ValidationInfo → Step ValidationInfo
  with_cache (ok cache) info state = (ok info, record { visited = state.visited; cache = cache })
  with_cache (err e) info state = (err e, state)

  abbrev pub remember : ManifestRef → ValidationInfo → Step ValidationInfo
  remember reference info state =
      with_cache
        (cached (get (ref_key reference) state.cache.validated) (ref_key reference) info
          state.cache)
        info state

  module _ (nfc : List ℕ → List ℕ) (to_lowercase : ℕ → ℕ × ℕ) where
    abbrev pub validate_chunk :
        (ManifestRef → Step ValidationInfo) → DecodedChunk → Step ValidationInfo
    validate_chunk visit (a_leaf l stored_bytes) state =
        (validate_leaf nfc to_lowercase l stored_bytes, state)
    validate_chunk visit (a_node n stored_bytes) state =
        then_step (check_node n stored_bytes, state)
          λ _ state.
            then_step (check_children visit n.portable_prefix n.children nothing_gathered state)
              (λ all state. (expect_keys n.portable_prefix all all.first_key all.last_key, state))

    module _ (hash : List ℕ → Digest32) (source : ManifestRef → SnapshotV2Result (List ℕ)) where
      -- A reference that was not visited, by whether the cache has it.
      abbrev pub validate_new :
          (ManifestRef → Step ValidationInfo)
          → ℕ
          → ManifestRef
          → Option ValidationInfo
          → Step ValidationInfo
      validate_new visit depth reference (some info) state = (
        reject_if (ltb max_manifest_depth (saturating_add depth info.maximum_relative_depth))
              (invalid (too_deep max_manifest_depth))
            >>= λ _. ok info,
        state,
      )
      validate_new visit depth reference none state =
          then_step (load_chunk hash source reference, state)
            λ chunk state. then_step (validate_chunk visit chunk state) (remember reference)

      abbrev pub visit_new :
          (ManifestRef → Step ValidationInfo) → ℕ → ManifestRef → Step ValidationInfo
      visit_new visit depth reference state =
          if leb max_manifest_validation_chunks (length state.visited)
          then (err (invalid too_many_chunks), state)
          else if mem (ref_key reference) state.visited
          then (err (invalid (duplicate_range (ref_key reference))), state)
          else validate_new visit depth reference (get (ref_key reference) state.cache.validated)
              (record { visited = ref_key reference ∷ state.visited; cache = state.cache })

      -- The first argument counts the depths that are left: `max_manifest_depth + 1` less `depth`.
      unfoldable pub validate_subtree : ℕ → ManifestRef → Step ValidationInfo
      unfolding check_children check_child check_node
      validate_subtree zero reference state = (err (invalid (too_deep max_manifest_depth)), state)
      validate_subtree (suc depths) reference state =
          visit_new (validate_subtree depths) (max_manifest_depth - depths) reference state

      abbrev pub root_checked :
          ManifestSummary
          → SnapshotV2Result ValidationInfo × Validation
          → SnapshotV2Result (Unit {0}) × ManifestValidationCache
      root_checked expected (ok info, state) = (
        reject_if (not (summary_eq info.summary expected)) (invalid root_summary_mismatch),
        state.cache,
      )
      root_checked expected (err e, state) = (err e, state.cache)

      unfoldable pub validate_manifest_cached :
          Option ManifestRef
          → ManifestSummary
          → ManifestValidationCache
          → SnapshotV2Result (Unit {0}) × ManifestValidationCache
      unfolding validate_subtree
      validate_manifest_cached none expected cache =
          (reject_if (not (summary_eq expected empty_summary)) (invalid empty_root_summary), cache)
      validate_manifest_cached (some root) expected cache =
          root_checked expected (
            validate_subtree (suc max_manifest_depth) root (record { visited = []; cache = cache }))
