-- ===== src/Path/Inside.antt =====
-- A tracked path, resolved from any folder, stays below that folder.
use check_po.Prelude.{
  ℕ, ◌≡◌, refl, sym, ap, subst, ◌≢◌, inl, inr, false, ◌||◌, Option, none, some, List, [], ◌∷◌, ◌++◌,
  append_assoc, append-nil, All, list_eq, list_eq→eq, if◌then◌else◌, Bool-cases,
}
use check_po.Prelude.Result.{ok}
use check_po.Prelude.Text.{codes, split, ends_with}
use check_po.Path.{slash, is_nil, parse, to_project_path}
use check_po.Path.Tracked.{IsSafeSegment, IsTracked, parse-IsTracked, is_nil_of}
use check_po.Path.Accepts.{split-join_tracked, tracked_begins}

abbrev parent : List (List ℕ) → Option (List (List ℕ))
parent [] = none
parent (s ∷ []) = some []
parent (s ∷ t ∷ folder) = elim (parent (t ∷ folder)) [ none ↦ none | some p ↦ some (s ∷ p) ]

-- A file system's walk from `folder`: an empty segment and a dot stay, two dots go up, another
-- segment goes down.
pub resolve : List (List ℕ) → List (List ℕ) → Option (List (List ℕ))
resolve folder [] = some folder
resolve folder (s ∷ segments) =
    if is_nil s || list_eq s (codes ".")
    then resolve folder segments
    else if list_eq s (codes "..")
    then elim (parent folder) [ none ↦ none | some up ↦ resolve up segments ]
    else resolve (folder ++ (s ∷ [])) segments

test_false : (s t : List ℕ) → s ≢ t → list_eq s t ≡ false
test_false s t h = elim (Bool-cases (list_eq s t)) [
  | inl e ↦ absurd (h (list_eq→eq s t e))
  | inr e ↦ e
]

resolve-safe :
    (folder segments : List (List ℕ))
    → All IsSafeSegment segments
    → resolve folder segments ≡ some (folder ++ segments)
unfolding resolve
resolve-safe folder [] h = ap some (sym (append-nil folder))
resolve-safe folder (s ∷ segments) h = rw (
  is_nil_of s h.0.nonempty,
  test_false s (codes ".") (h.0.no_dot []),
  test_false s (codes "..") (h.0.no_dot (codes ".")),
  resolve-safe (folder ++ (s ∷ [])) segments h.1,
  append_assoc folder (s ∷ []) segments,
)

-- If a text parses, then its segments lead from any folder to that folder with the segments below
-- it, and joining it to a project's root keeps the root in front, with one slash between.
pub parse-inside :
    (input path : List ℕ) (folder : List (List ℕ)) (root : List ℕ)
    → parse input ≡ ok path
    → (resolve folder (split slash path) ≡ some (folder ++ split slash path))
      × (to_project_path path root
          ≡ (if is_nil root || ends_with slash root then root else root ++ (slash ∷ [])) ++ path)
unfolding to_project_path
parse-inside input path folder root h =
    let (tracked, same) = parse-IsTracked input path h in
    let t : IsTracked path = subst IsTracked (sym same) tracked in
    (
      subst (λ ss. resolve folder ss ≡ some (folder ++ ss)) (sym (split-join_tracked path t))
          (resolve-safe folder (t.folder ∷ t.name ∷ t.rest) t.safe),
      rw (tracked_begins path t).1 (separated root path),
    )
  where
    separated :
        (root path : List ℕ)
        → (if is_nil root || ends_with slash root then root ++ path else root ++ (slash ∷ path))
          ≡ (if is_nil root || ends_with slash root then root else root ++ (slash ∷ [])) ++ path
    separated root path = elim (Bool-cases (is_nil root || ends_with slash root)) [
      | inl e ↦ rw e refl
      | inr e ↦ rw e (sym (append_assoc root (slash ∷ []) path))
    ]
