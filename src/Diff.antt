-- ===== src/Diff.antt =====
-- CheckPo.Core/src/diff.rs: the comparison of a snapshot with the files of the project.
pub mod Loop
pub mod Exact
mod Tests
use check_po.Prelude.{
  ℕ, ◌+◌, Bool, true, false, not, Option, none, some, List, [], ◌∷◌, ◌++◌, if◌then◌else◌,
}
use check_po.Prelude.Map.{Map, get, keys, collect_keys}

pub record DiffResult : Type 0 where
  pub added : List (List ℕ)
  pub modified : List (List ℕ)
  pub deleted : List (List ℕ)
  pub unknown : List (List ℕ)
  pub unchanged_count : ℕ
  pub complete : Bool
  pub warnings : List (List ℕ)

-- The vectors and the counter before the loop.
abbrev pub nothing_found : Bool → DiffResult
nothing_found incomplete = record {
  added = [];
  modified = [];
  deleted = [];
  unknown = [];
  unchanged_count = 0;
  complete = not incomplete;
  warnings = [];
}

module _ {T : Type 0} (ne : T → T → Bool) (incomplete : Bool) where
  -- The `match` of the loop; `ne` is `!=` of the values.
  unfoldable pub compare_entry : List ℕ → Option T → Option T → DiffResult → DiffResult
  compare_entry path none (some _) r = record r { added = r.added ++ (path ∷ []) }
  compare_entry path (some _) none r =
      if incomplete
      then record r { unknown = r.unknown ++ (path ∷ []) }
      else record r { deleted = r.deleted ++ (path ∷ []) }
  compare_entry path (some expected) (some actual) r =
      if ne expected actual
      then record r { modified = r.modified ++ (path ∷ []) }
      else record r { unchanged_count = r.unchanged_count + 1 }
  compare_entry path none none r = r

  unfoldable pub compare_keys : Map T → Map T → List (List ℕ) → DiffResult → DiffResult
  unfolding compare_entry
  compare_keys snapshot_map working_map [] r = r
  compare_keys snapshot_map working_map (path ∷ paths) r =
      compare_keys snapshot_map working_map paths
        (compare_entry path (get path snapshot_map) (get path working_map) r)

  unfoldable pub compare_maps : Map T → Map T → DiffResult
  unfolding compare_keys
  compare_maps snapshot_map working_map =
      compare_keys snapshot_map working_map
        (collect_keys [] (keys snapshot_map ++ keys working_map)) (nothing_found incomplete)
