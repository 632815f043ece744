-- ===== src/Manifest/Tree/Sorted.antt =====
-- Sorting keeps what is found by a key.
use check_po.Prelude.{
  ℕ, ◌≡◌, refl, sym, ap, ◌∙◌, Bool, true, false, Option, none, some, List, [], ◌∷◌, list_eq, All,
  Bool-cases, inl, inr, list_eq→eq,
}
use check_po.Prelude.Map.{Comparison, less, equal, greater, compare_text, compare_text_refl}
use check_po.Manifest.{KeyedEntry, ManifestEntry}
use check_po.Manifest.Tree.{place_keyed, insert_keyed, sort_keyed}

abbrev pub either {ℓ} : {A : Type ℓ} → Bool → A → A → A
either true a b = a
either false a b = b

-- The first entry with a key, from the front: what a lookup is to find.
abbrev pub find_key : List ℕ → List KeyedEntry → Option ManifestEntry
find_key key [] = none
find_key key (e ∷ es) = either (list_eq e.key key) (some e.entry) (find_key key es)

-- An entry that is greater than another has another key.
not_both :
    (a b key : List ℕ) → compare_text a b ≡ greater → list_eq b key ≡ true → list_eq a key ≡ false
not_both a b key g e = elim (Bool-cases (list_eq a key)) [
  | inl t ↦
      let same : a ≡ b = list_eq→eq a key t ∙ sym (list_eq→eq b key e) in
      let no : greater ≡ equal = sym g ∙ ap (compare_text a) (sym same) ∙ compare_text_refl a in
      cc no
  | inr t ↦ t
]

find_key-insert_keyed :
    (key : List ℕ) (e : KeyedEntry) (es : List KeyedEntry)
    → find_key key (insert_keyed e es) ≡ find_key key (e ∷ es)
unfolding insert_keyed
find_key-insert_keyed key e [] = refl
find_key-insert_keyed key e (x ∷ xs) =
    by (compare_text e.key x.key) refl (find_key-insert_keyed key e xs)
  where
    by :
        (c : Comparison)
        → compare_text e.key x.key ≡ c
        → find_key key (insert_keyed e xs) ≡ find_key key (e ∷ xs)
        → find_key key (place_keyed c e x xs (insert_keyed e xs)) ≡ find_key key (e ∷ x ∷ xs)
    by less g ih = refl
    by equal g ih = refl
    by greater g ih = elim (Bool-cases (list_eq x.key key)) [
      | inl t ↦ rw (t, not_both e.key x.key key g t) refl
      | inr t ↦ rw (t, ih) refl
    ]

pub find_key-sort_keyed :
    (key : List ℕ) (es : List KeyedEntry) → find_key key (sort_keyed es) ≡ find_key key es
unfolding sort_keyed
find_key-sort_keyed key [] = refl
find_key-sort_keyed key (e ∷ es) =
    find_key-insert_keyed key e (sort_keyed es)
    ∙ ap (either (list_eq e.key key) (some e.entry)) (find_key-sort_keyed key es)

module _ (P : KeyedEntry → Type 0) where
  All-insert_keyed :
      (e : KeyedEntry) (es : List KeyedEntry) → P e → All P es → All P (insert_keyed e es)
  unfolding insert_keyed
  All-insert_keyed e [] p h = (p, tt)
  All-insert_keyed e (x ∷ xs) p h =
      elim (compare_text e.key x.key) as (λ c. All P (place_keyed c e x xs (insert_keyed e xs))) [
        | less ↦ (p, h)
        | equal ↦ (p, h)
        | greater ↦ (h.0, All-insert_keyed e xs p h.1)
      ]

  pub All-sort_keyed : (es : List KeyedEntry) → All P es → All P (sort_keyed es)
  unfolding sort_keyed
  All-sort_keyed [] h = tt
  All-sort_keyed (e ∷ es) h = All-insert_keyed e (sort_keyed es) h.0 (All-sort_keyed es h.1)
