-- ===== src/Diff/Tests.antt =====
-- Concrete maps.
use check_po.Prelude.{ℕ, ◌≡◌, refl, true, not, length, [], ◌∷◌, ◌++◌, ◌==◌}
use check_po.Prelude.Text.{codes}
use check_po.Prelude.Map.{Map, get, keys, collect_keys, mem}
use check_po.Diff.{compare_maps}
use check_po.Diff.Loop.{is_modified, class_of, class_eq, listed, found}
use check_po.Diff.Exact.{compare_maps-class, compare_maps-found}

abbrev taken : Map ℕ
taken = (codes "Assets/a", 1) ∷ (codes "Assets/b", 2) ∷ (codes "Assets/c", 3) ∷ []

abbrev present : Map ℕ
present = (codes "Assets/a", 1) ∷ (codes "Assets/b", 7) ∷ (codes "Assets/d", 4) ∷ []

compare_maps-class_example :
    mem
      (codes "Assets/b")
      (listed is_modified (compare_maps (λ x y. not (x == y)) true taken present))
    ≡ class_eq is_modified (
        class_of
          (λ x y. not (x == y))
          true
          (get (codes "Assets/b") taken)
          (get (codes "Assets/b") present))
compare_maps-class_example =
    compare_maps-class (λ x y. not (x == y)) true taken present (codes "Assets/b") is_modified refl

compare_maps-found_example :
    (found (compare_maps (λ x y. not (x == y)) true taken present)
      ≡ length (collect_keys [] (keys taken ++ keys present)))
    × ((compare_maps (λ x y. not (x == y)) true taken present).complete ≡ not true)
compare_maps-found_example = compare_maps-found (λ x y. not (x == y)) true taken present
