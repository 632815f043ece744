-- ===== src/Diff/Exact.antt =====
-- `compare_maps` puts every path in the list of its class, and counts every path once.
use check_po.Prelude.{
  ℕ, ◌+◌, ◌≡◌, refl, sym, ap, ◌∙◌, inl, inr, Bool, true, not, ◌&&◌, ◌||◌, Option, none, some, List,
  [], ◌∷◌, ◌++◌, arith, length, list_eq, list_eq→eq, list_eq_refl, Bool-cases,
}
use check_po.Prelude.Map.{Map, get, keys, collect_keys, mem, is_some, mem-keys, mem-collect_keys}
use check_po.Diff.{DiffResult, compare_entry, compare_keys, compare_maps, nothing_found}
use check_po.Diff.Loop.{
  Class, is_added, is_modified, is_deleted, is_unknown, is_unchanged, is_absent, class_of, class_eq,
  listed, has_list, list_after, found, found_after, complete_after, mem-append,
}

module _ {T : Type 0} (ne : T → T → Bool) (incomplete : Bool) (s w : Map T) where
  abbrev class_at : List ℕ → Class
  class_at p = class_of ne incomplete (get p s) (get p w)

  later : (a b c d : Bool) → ((a || (b && d)) || (c && d)) ≡ (a || ((b || c) && d))
  later a b c d = ground arith

  -- The class of the round's path is that of the path in question, when they are the same.
  same_class :
      (p q : List ℕ) (c : Class)
      → (list_eq q p && class_eq c (class_at q)) ≡ (list_eq q p && class_eq c (class_at p))
  same_class p q c = elim (Bool-cases (list_eq q p)) [
    | inl e ↦ rw (list_eq→eq q p e)
    | inr e ↦ rw e
  ]

  listed_after :
      (p : List ℕ) (ps : List (List ℕ)) (r : DiffResult) (c : Class)
      → has_list c ≡ true
      → mem p (listed c (compare_keys ne incomplete s w ps r))
        ≡ (mem p (listed c r) || (mem p ps && class_eq c (class_at p)))
  unfolding compare_keys mem
  listed_after p [] r c h = ground arith
  listed_after p (q ∷ ps) r c h =
      listed_after p ps (compare_entry ne incomplete q (get q s) (get q w) r) c h
      ∙ ap (λ b. b || (mem p ps && class_eq c (class_at p)))
          (list_after ne incomplete p q (get q s) (get q w) r c h
            ∙ ap (λ b. mem p (listed c r) || b) (same_class p q c))
      ∙ later (mem p (listed c r)) (list_eq q p) (mem p ps) (class_eq c (class_at p))

  found_all :
      (ps : List (List ℕ)) (r : DiffResult)
      → ((p : List ℕ) → mem p ps ≡ true → (is_some (get p s) || is_some (get p w)) ≡ true)
      → found (compare_keys ne incomplete s w ps r) ≡ found r + length ps
  unfolding compare_keys mem
  found_all [] r h = omega arith
  found_all (q ∷ ps) r h =
      let here = found_after ne incomplete q (get q s) (get q w) r (h q (rw (list_eq_refl q))) in
      let rest =
        found_all ps (compare_entry ne incomplete q (get q s) (get q w) r)
          (λ p e. h p (rw e (ground arith))) in
      omega (arith, here, rest)

  complete_all :
      (ps : List (List ℕ)) (r : DiffResult)
      → (compare_keys ne incomplete s w ps r).complete ≡ r.complete
  unfolding compare_keys
  complete_all [] r = refl
  complete_all (q ∷ ps) r =
      complete_all ps (compare_entry ne incomplete q (get q s) (get q w) r)
      ∙ complete_after ne incomplete q (get q s) (get q w) r

  mem-all_keys :
      (p : List ℕ)
      → mem p (collect_keys [] (keys s ++ keys w)) ≡ (is_some (get p s) || is_some (get p w))
  unfolding mem
  mem-all_keys p =
      mem-collect_keys p [] (keys s ++ keys w)
      ∙ rw (mem-append p (keys s) (keys w), mem-keys p s, mem-keys p w) (ground arith)

absent :
    {T : Type 0} (ne : T → T → Bool) (incomplete : Bool) (a b : Option T) (c : Class)
    → has_list c ≡ true
    → ((is_some a || is_some b) && class_eq c (class_of ne incomplete a b))
      ≡ class_eq c (class_of ne incomplete a b)
unfolding class_of
absent ne inc none none is_added h = refl
absent ne inc none none is_modified h = refl
absent ne inc none none is_deleted h = refl
absent ne inc none none is_unknown h = refl
absent ne inc none none is_unchanged h = refl
absent ne inc none none is_absent h = absurd (cc h)
absent ne inc none (some y) c h = refl
absent ne inc (some x) b c h = refl

-- For any two maps and any path, the path is in the list of added, modified, deleted or unknown
-- paths exactly when that is its class: added when only the working map has it, deleted when only
-- the snapshot has it and the scan was complete, unknown when only the snapshot has it and the
-- scan was not, modified when both have it and the values differ.
pub compare_maps-class :
    {T : Type 0} (ne : T → T → Bool) (incomplete : Bool) (s w : Map T) (p : List ℕ) (c : Class)
    → has_list c ≡ true
    → mem p (listed c (compare_maps ne incomplete s w))
      ≡ class_eq c (class_of ne incomplete (get p s) (get p w))
unfolding compare_maps mem
compare_maps-class ne incomplete s w p c h =
    listed_after ne incomplete s w p (collect_keys [] (keys s ++ keys w)) (nothing_found incomplete)
      c h
    ∙ rw (mem-all_keys ne incomplete s w p)
        (empty c h ∙ absent ne incomplete (get p s) (get p w) c h)
  where
    empty :
        {b : Bool} (c : Class)
        → has_list c ≡ true
        → (mem p (listed c (nothing_found incomplete)) || b) ≡ b
    empty is_added h = refl
    empty is_modified h = refl
    empty is_deleted h = refl
    empty is_unknown h = refl
    empty is_unchanged h = absurd (cc h)
    empty is_absent h = absurd (cc h)

-- The lengths of the four lists and the number of unchanged paths add up to the number of
-- different paths of the two maps, and the result is complete exactly when the scan was.
pub compare_maps-found :
    {T : Type 0} (ne : T → T → Bool) (incomplete : Bool) (s w : Map T)
    → (found (compare_maps ne incomplete s w) ≡ length (collect_keys [] (keys s ++ keys w)))
      × ((compare_maps ne incomplete s w).complete ≡ not incomplete)
unfolding compare_maps
compare_maps-found ne incomplete s w = (
  (let all =
        found_all ne incomplete s w (collect_keys [] (keys s ++ keys w)) (nothing_found incomplete)
          (λ p e. sym (mem-all_keys ne incomplete s w p) ∙ e) in
      omega (arith, all)),
  complete_all ne incomplete s w (collect_keys [] (keys s ++ keys w)) (nothing_found incomplete),
)
