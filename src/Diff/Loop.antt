-- ===== src/Diff/Loop.antt =====
-- What one round of the loop and the loop add, path by path.
use check_po.Prelude.{
  ℕ, ◌+◌, ◌≡◌, refl, ◌∙◌, inl, inr, Bool, true, false, ◌&&◌, ◌||◌, Option, none, some, List, [],
  ◌∷◌, ◌++◌, arith, length, length-append, list_eq, Bool-cases, if◌then◌else◌,
}
use check_po.Prelude.Map.{mem, is_some}
use check_po.Diff.{DiffResult, compare_entry}

-- The class of a path, from what the two maps hold for it.
pub data Class : Type 0 where
  is_added is_modified is_deleted is_unknown is_unchanged is_absent : Class

module _ {T : Type 0} (ne : T → T → Bool) (incomplete : Bool) where
  unfoldable pub class_of : Option T → Option T → Class
  class_of none none = is_absent
  class_of none (some _) = is_added
  class_of (some _) none = if incomplete then is_unknown else is_deleted
  class_of (some expected) (some actual) = if ne expected actual then is_modified else is_unchanged

abbrev pub class_eq : Class → Class → Bool
class_eq is_added is_added = true
class_eq is_modified is_modified = true
class_eq is_deleted is_deleted = true
class_eq is_unknown is_unknown = true
class_eq is_unchanged is_unchanged = true
class_eq is_absent is_absent = true
class_eq _ _ = false

-- The list of a class.
abbrev pub listed : Class → DiffResult → List (List ℕ)
listed is_added r = r.added
listed is_modified r = r.modified
listed is_deleted r = r.deleted
listed is_unknown r = r.unknown
listed is_unchanged r = []
listed is_absent r = []

abbrev pub has_list : Class → Bool
has_list is_unchanged = false
has_list is_absent = false
has_list _ = true

pub mem-append : (p : List ℕ) (xs ys : List (List ℕ)) → mem p (xs ++ ys) ≡ (mem p xs || mem p ys)
unfolding mem
mem-append p [] ys = refl
mem-append p (x ∷ xs) ys = rw (mem-append p xs ys) (ground arith)

-- After a push.
mem-push : (p q : List ℕ) (xs : List (List ℕ)) → mem p (xs ++ (q ∷ [])) ≡ (mem p xs || list_eq q p)
unfolding mem
mem-push p q xs = rw (mem-append p xs (q ∷ [])) (ground arith)

not_pushed : (b c : Bool) → b ≡ (b || (c && false))
not_pushed b c = ground arith

pushed : (b c : Bool) → (b || c) ≡ (b || (c && true))
pushed b c = ground arith

-- The path of the round joins the list of its class, and no other list changes.
pub list_after :
    {T : Type 0} (ne : T → T → Bool) (incomplete : Bool) (p q : List ℕ) (a b : Option T)
    (r : DiffResult) (c : Class)
    → has_list c ≡ true
    → mem p (listed c (compare_entry ne incomplete q a b r))
      ≡ (mem p (listed c r) || (list_eq q p && class_eq c (class_of ne incomplete a b)))
unfolding compare_entry class_of
list_after ne inc p q none none r c h = quiet c h
  where
    quiet :
        (c : Class)
        → has_list c ≡ true
        → mem p (listed c r) ≡ (mem p (listed c r) || (list_eq q p && class_eq c is_absent))
    quiet is_added h = not_pushed _ _
    quiet is_modified h = not_pushed _ _
    quiet is_deleted h = not_pushed _ _
    quiet is_unknown h = not_pushed _ _
    quiet is_unchanged h = not_pushed _ _
    quiet is_absent h = absurd (cc h)
list_after ne inc p q none (some y) r is_added h = mem-push p q r.added ∙ pushed _ _
list_after ne inc p q none (some y) r is_modified h = not_pushed _ _
list_after ne inc p q none (some y) r is_deleted h = not_pushed _ _
list_after ne inc p q none (some y) r is_unknown h = not_pushed _ _
list_after ne inc p q none (some y) r is_unchanged h = absurd (cc h)
list_after ne inc p q none (some y) r is_absent h = absurd (cc h)
list_after ne true p q (some x) none r is_unknown h = mem-push p q r.unknown ∙ pushed _ _
list_after ne true p q (some x) none r is_added h = not_pushed _ _
list_after ne true p q (some x) none r is_modified h = not_pushed _ _
list_after ne true p q (some x) none r is_deleted h = not_pushed _ _
list_after ne true p q (some x) none r is_unchanged h = absurd (cc h)
list_after ne true p q (some x) none r is_absent h = absurd (cc h)
list_after ne false p q (some x) none r is_deleted h = mem-push p q r.deleted ∙ pushed _ _
list_after ne false p q (some x) none r is_added h = not_pushed _ _
list_after ne false p q (some x) none r is_modified h = not_pushed _ _
list_after ne false p q (some x) none r is_unknown h = not_pushed _ _
list_after ne false p q (some x) none r is_unchanged h = absurd (cc h)
list_after ne false p q (some x) none r is_absent h = absurd (cc h)
list_after ne inc p q (some x) (some y) r c h = both (ne x y) c h
  where
    both :
        (b : Bool) (c : Class)
        → has_list c ≡ true
        → mem p (
            listed c (
              if b
              then record r { modified = r.modified ++ (q ∷ []) }
              else record r { unchanged_count = r.unchanged_count + 1 }))
          ≡ (mem p (listed c r)
              || (list_eq q p && class_eq c (if b then is_modified else is_unchanged)))
    both true is_modified h = mem-push p q r.modified ∙ pushed _ _
    both true is_added h = not_pushed _ _
    both true is_deleted h = not_pushed _ _
    both true is_unknown h = not_pushed _ _
    both true is_unchanged h = absurd (cc h)
    both true is_absent h = absurd (cc h)
    both false is_modified h = not_pushed _ _
    both false is_added h = not_pushed _ _
    both false is_deleted h = not_pushed _ _
    both false is_unknown h = not_pushed _ _
    both false is_unchanged h = absurd (cc h)
    both false is_absent h = absurd (cc h)

-- How many paths the results name.
abbrev pub found : DiffResult → ℕ
found r =
    length r.added + length r.modified + length r.deleted + length r.unknown + r.unchanged_count

pub found_after :
    {T : Type 0} (ne : T → T → Bool) (incomplete : Bool) (q : List ℕ) (a b : Option T)
    (r : DiffResult)
    → (is_some a || is_some b) ≡ true
    → found (compare_entry ne incomplete q a b r) ≡ found r + 1
unfolding compare_entry
found_after ne inc q none none r h = absurd (cc h)
found_after ne inc q none (some y) r h = omega (arith, length-append r.added (q ∷ []))
found_after ne true q (some x) none r h = omega (arith, length-append r.unknown (q ∷ []))
found_after ne false q (some x) none r h = omega (arith, length-append r.deleted (q ∷ []))
found_after ne inc q (some x) (some y) r h = elim (Bool-cases (ne x y)) [
  | inl e ↦ rw e (omega (arith, length-append r.modified (q ∷ [])))
  | inr e ↦ rw e (omega arith)
]

pub complete_after :
    {T : Type 0} (ne : T → T → Bool) (incomplete : Bool) (q : List ℕ) (a b : Option T)
    (r : DiffResult)
    → (compare_entry ne incomplete q a b r).complete ≡ r.complete
unfolding compare_entry
complete_after ne inc q none none r = refl
complete_after ne inc q none (some y) r = refl
complete_after ne true q (some x) none r = refl
complete_after ne false q (some x) none r = refl
complete_after ne inc q (some x) (some y) r = elim (Bool-cases (ne x y)) [
  | inl e ↦ rw e
  | inr e ↦ rw e
]
