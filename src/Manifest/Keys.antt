-- ===== src/Manifest/Keys.antt =====
-- Which lists of keys `validate_ordered_keys` accepts.
use check_po.Prelude.{
  ℕ, ◌≡◌, refl, sym, ap, ◌∙◌, ◌≢◌, ◌↔◌, inl, inr, Bool, true, false, ◌&&◌, Option, none, some, List,
  [], ◌∷◌, ◌++◌, arith, length, length-append, get_elem?, lt→ltb, list_eq, list_eq_refl, Bool-cases,
}
use check_po.Prelude.Result.{ok, >>=-eq_ok}
use check_po.Prelude.Map.{
  Comparison, less, equal, greater, compare_text, compare_text-equal, compare_text_refl,
  list_eq-false,
}
use check_po.Prelude.Text.{strip_prefix}
use check_po.Manifest.{
  KeyedEntry, starts_with, is_slash, is_path_ancestor, is_greater, check_pair,
  validate_ordered_keys,
}

-- The child is the parent, a slash and more, or just the slash.
abbrev pub Below : List ℕ → List ℕ → Type 0
Below parent child = (rest : List ℕ) × (child ≡ parent ++ (47 ∷ rest))

strip_prefix-eq_some :
    (parent child rest : List ℕ) → strip_prefix parent child ≡ some rest → child ≡ parent ++ rest
unfolding strip_prefix
strip_prefix-eq_some [] child rest h = cc h
strip_prefix-eq_some (p ∷ ps) [] rest h = absurd (cc h)
strip_prefix-eq_some (p ∷ ps) (c ∷ s) rest h = ground (arith, strip_prefix-eq_some ps s rest)

strip_prefix-append : (parent rest : List ℕ) → strip_prefix parent (parent ++ rest) ≡ some rest
unfolding strip_prefix
strip_prefix-append [] rest = refl
strip_prefix-append (p ∷ ps) rest = ground (arith, strip_prefix-append ps rest)

get_elem?-append : (xs ys : List ℕ) → get_elem? (xs ++ ys) (length xs) ≡ get_elem? ys 0
get_elem?-append [] ys = refl
get_elem?-append (x ∷ xs) ys = get_elem?-append xs ys

slash_first : (ys : List ℕ) → is_slash (get_elem? ys 0) ≡ true → (rest : List ℕ) × (ys ≡ 47 ∷ rest)
slash_first [] h = absurd (cc h)
slash_first (y ∷ ys) h = (ys, (let e : y ≡ 47 = ground arith in ap (λ z. z ∷ ys) e))

and_parts : (a b c : Bool) → (a && b && c) ≡ true → (a ≡ true) × (b ≡ true) × (c ≡ true)
and_parts a b c h = ground arith

started :
    (parent child : List ℕ)
    → starts_with child parent ≡ true
    → (rest : List ℕ) × (strip_prefix parent child ≡ some rest)
started parent child h = by (strip_prefix parent child) refl h
  where
    by :
        (o : Option (List ℕ))
        → strip_prefix parent child ≡ o
        → (elim o [ none ↦ false | some _ ↦ true ]) ≡ true
        → (rest : List ℕ) × (strip_prefix parent child ≡ some rest)
    by none e h = absurd (cc h)
    by (some rest) e h = (rest, e)

pub is_path_ancestor-Below :
    (parent child : List ℕ) → is_path_ancestor parent child ≡ true → Below parent child
unfolding is_path_ancestor
is_path_ancestor-Below parent child h =
    let (long, starts, slash) = and_parts _ _ _ h in
    let (rest, e) = started parent child starts in
    let form = strip_prefix-eq_some parent child rest e in
    let at : is_slash (get_elem? rest 0) ≡ true =
      ap is_slash (sym (ap (λ c. get_elem? c (length parent)) form ∙ get_elem?-append parent rest))
      ∙ slash in
    let (more, e') = slash_first rest at in (more, form ∙ ap (λ r. parent ++ r) e')

pub starts_with-append : (parent rest : List ℕ) → starts_with (parent ++ rest) parent ≡ true
starts_with-append parent rest =
    ap (λ (o : Option (List ℕ)). elim o [ none ↦ false | some _ ↦ true ])
      (strip_prefix-append parent rest)

pub Below-is_path_ancestor :
    (parent rest : List ℕ) → is_path_ancestor parent (parent ++ (47 ∷ rest)) ≡ true
unfolding is_path_ancestor
Below-is_path_ancestor parent rest = rw (
  lt→ltb (length parent) (length (parent ++ (47 ∷ rest)))
      (omega (arith, length-append parent (47 ∷ rest))),
  starts_with-append parent (47 ∷ rest),
  get_elem?-append parent (47 ∷ rest),
)

-- Each key is less than the next, and the next is not below it.
abbrev pub IsLadder : List KeyedEntry → Type 0
IsLadder [] = Unit
IsLadder (last ∷ []) = Unit
IsLadder (previous ∷ current ∷ entries) =
    (compare_text previous.key current.key ≡ less)
    × (Below previous.key current.key → ⊥)
    × IsLadder (current ∷ entries)

not_less : (k : Comparison) → is_greater k ≡ false → k ≢ equal → k ≡ less
not_less less h n = refl
not_less equal h n = absurd (n refl)
not_less greater h n = absurd (cc h)

check_pair-eq_ok :
    (a b : KeyedEntry) {u : Unit {0}}
    → check_pair a b ≡ ok u
    → (list_eq a.key b.key ≡ false)
      × (is_greater (compare_text a.key b.key) ≡ false)
      × (is_path_ancestor a.key b.key ≡ false)
unfolding check_pair
check_pair-eq_ok a b h = ground arith

true-false : (b : Bool) → b ≡ true → b ≢ false
true-false b h e = absurd (cc (h, e))

accepted : (entries : List KeyedEntry) → validate_ordered_keys entries ≡ ok tt → IsLadder entries
unfolding validate_ordered_keys
accepted [] h = tt
accepted (last ∷ []) h = tt
accepted (a ∷ b ∷ entries) h =
    let (u, pair, rest) = >>=-eq_ok (check_pair a b) _ h in
    let (differ, increasing, apart) = check_pair-eq_ok a b pair in
    (
      not_less (compare_text a.key b.key) increasing λ e.
          true-false (list_eq a.key b.key)
            (ap (list_eq a.key) (sym (compare_text-equal a.key b.key e)) ∙ list_eq_refl a.key)
            differ,
      λ below.
          true-false (is_path_ancestor a.key b.key)
            (ap (is_path_ancestor a.key) below.1 ∙ Below-is_path_ancestor a.key below.0) apart,
      accepted (b ∷ entries) rest,
    )

less_differs : (a b : List ℕ) → compare_text a b ≡ less → list_eq a b ≡ false
less_differs a b h =
    list_eq-false a b λ e. absurd (cc (h, ap (compare_text a) (sym e), compare_text_refl a))

apart_false : (a b : List ℕ) → (Below a b → ⊥) → is_path_ancestor a b ≡ false
apart_false a b h = elim (Bool-cases (is_path_ancestor a b)) [
  | inl e ↦ absurd (h (is_path_ancestor-Below a b e))
  | inr e ↦ e
]

accepts : (entries : List KeyedEntry) → IsLadder entries → validate_ordered_keys entries ≡ ok tt
unfolding validate_ordered_keys check_pair
accepts [] h = refl
accepts (last ∷ []) h = refl
accepts (a ∷ b ∷ entries) h =
    rw (less_differs a.key b.key h.0, h.0, apart_false a.key b.key h.1) (accepts (b ∷ entries) h.2)

-- A list of keyed entries passes exactly when each key is less than the next one in the order of
-- bytes, and the next one is not that key with a slash behind it and more: only neighbours are
-- compared.
pub validate_ordered_keys_iff :
    (entries : List KeyedEntry) → (validate_ordered_keys entries ≡ ok tt) ↔ IsLadder entries
validate_ordered_keys_iff entries = (accepted entries, accepts entries)
