-- ===== src/Inventory/Change/Ordered.antt =====
-- Searching after an insertion and after a removal.
use check_po.Prelude.{
  ℕ, suc, ◌≡◌, ◌≢◌, ◌⊎◌, refl, sym, ap, subst, ◌∙◌, true, false, not, ◌&&◌, ◌||◌, List, [], ◌∷◌,
  arith, list_eq, list_eq_refl, inl, inr,
}
use check_po.Prelude.Map.{
  Comparison, less, equal, greater, compare_text, compare_text-equal, compare_text_refl,
  list_eq-false,
}
use check_po.Prelude.Map.Order.{compare_turned, greater_trans}
use check_po.Codec.{Digest32}
use check_po.Inventory.{ascending}
use check_po.Inventory.Change.{
  Search, found, absent, later, binary_search, is_found, insert_at, remove_at,
}

differs : (a b : Digest32) (c : Comparison) → compare_text a b ≡ c → c ≢ equal → list_eq b a ≡ false
differs a b c e n =
    list_eq-false b a
      (λ (same : b ≡ a). n (sym e ∙ (ap (λ x. compare_text a x) same ∙ compare_text_refl a)))

less_ne : less ≢ equal
less_ne h = cc h

greater_ne : greater ≢ equal
greater_ne h = cc h

-- The three answers of a comparison.
pub data Compared (a b : List ℕ) : Type 0 where
  below : compare_text a b ≡ less → list_eq b a ≡ false → Compared a b
  same : a ≡ b → compare_text a b ≡ equal → Compared a b
  above : compare_text a b ≡ greater → list_eq b a ≡ false → Compared a b

pub compared : (a b : List ℕ) → Compared a b
compared a b = by (compare_text a b) refl
  where
    by : (c : Comparison) → compare_text a b ≡ c → Compared a b
    by less e = below e (differs a b less e less_ne)
    by equal e = same (compare_text-equal a b e) e
    by greater e = above e (differs a b greater e greater_ne)

is_found-later : (s : Search) → is_found (later s) ≡ is_found s
is_found-later (found i) = refl
is_found-later (absent i) = refl

later-absent : (s : Search) (i : ℕ) → later s ≡ absent i → (j : ℕ) × (s ≡ absent j) × (i ≡ suc j)
later-absent (found j) i h = cc h
later-absent (absent j) i h = (j, refl, cc h)

later-found : (s : Search) (i : ℕ) → later s ≡ found i → (j : ℕ) × (s ≡ found j) × (i ≡ suc j)
later-found (found j) i h = (j, refl, cc h)
later-found (absent j) i h = cc h

-- The search for x among values that begin above x finds nothing.
above_all :
    (x y : Digest32) (ys : List Digest32)
    → compare_text y x ≡ greater
    → binary_search x (y ∷ ys) ≡ absent 0
unfolding binary_search
above_all x y ys h = rw (h, binary_search) refl

step_less :
    (x y : Digest32) (ys : List Digest32)
    → compare_text y x ≡ less
    → binary_search x (y ∷ ys) ≡ later (binary_search x ys)
unfolding binary_search
step_less x y ys h = rw (h, binary_search) refl

step_equal :
    (x y : Digest32) (ys : List Digest32)
    → compare_text y x ≡ equal
    → binary_search x (y ∷ ys) ≡ found 0
unfolding binary_search
step_equal x y ys h = rw (h, binary_search) refl

-- What is found below a value at the front is found without it.
found_below :
    (x y : Digest32) (ys : List Digest32)
    → compare_text y x ≡ less
    → is_found (binary_search x (y ∷ ys)) ≡ is_found (binary_search x ys)
found_below x y ys c = ap is_found (step_less x y ys c) ∙ is_found-later (binary_search x ys)

found_above :
    (x y : Digest32) (ys : List Digest32)
    → compare_text y x ≡ greater
    → is_found (binary_search x (y ∷ ys)) ≡ false
found_above x y ys c = ap is_found (above_all x y ys c)

found_same :
    (x y : Digest32) (ys : List Digest32)
    → compare_text y x ≡ equal
    → is_found (binary_search x (y ∷ ys)) ≡ true
found_same x y ys c = ap is_found (step_equal x y ys c)

-- An identifier before values that are above it.
search-insert_front :
    (x id y : Digest32) (ids : List Digest32)
    → compare_text y id ≡ greater
    → is_found (binary_search x (id ∷ y ∷ ids))
      ≡ (list_eq x id || is_found (binary_search x (y ∷ ids)))
search-insert_front x id y ids g = elim (compared id x) [
  | below c d ↦ rw (found_below x id (y ∷ ids) c, d) refl
  | same e c ↦ rw (found_same x id (y ∷ ids) c, e, list_eq_refl x) refl
  | above c d ↦
      rw (found_above x id (y ∷ ids) c, d, found_above x y ids (greater_trans y id x g c)) refl
]

-- Two equal results under a first value that compares in the same way.
search_under :
    (x id y : Digest32) (ids ids' : List Digest32)
    → compare_text y id ≡ less
    → is_found (binary_search x ids') ≡ (list_eq x id || is_found (binary_search x ids))
    → is_found (binary_search x (y ∷ ids')) ≡ (list_eq x id || is_found (binary_search x (y ∷ ids)))
search_under x id y ids ids' b ih = elim (compared y x) [
  | below c d ↦ found_below x y ids' c ∙ rw (ih, found_below x y ids c) refl
  | same e c ↦ rw (found_same x y ids' c, found_same x y ids c) (ground arith)
  | above c d ↦
      let apart : list_eq x id ≡ false =
        differs id x greater (greater_trans id y x (compare_turned y id b) c) greater_ne in
      rw (found_above x y ids' c, found_above x y ids c, apart) refl
]

pub search-insert_at :
    (x id : Digest32) (ids : List Digest32) (index : ℕ)
    → binary_search id ids ≡ absent index
    → is_found (binary_search x (insert_at index id ids))
      ≡ (list_eq x id || is_found (binary_search x ids))
unfolding binary_search
search-insert_at x id [] index h =
    let e : 0 ≡ index = cc h in
    subst
      (λ i.
        is_found (binary_search x (insert_at i id []))
        ≡ (list_eq x id || is_found (binary_search x [])))
      e (alone (compared id x))
  where
    alone : Compared id x → is_found (binary_search x (id ∷ [])) ≡ (list_eq x id || false)
    alone (below c d) = rw (found_below x id [] c, d) refl
    alone (same e c) = rw (found_same x id [] c, e, list_eq_refl x) refl
    alone (above c d) = rw (found_above x id [] c, d) refl
search-insert_at x id (y ∷ ids) index h = elim (compared y id) [
  | below c d ↦
      let (j, found_at, next) =
        later-absent (binary_search id ids) index (sym (step_less id y ids c) ∙ h) in
      rw next
        (search_under x id y ids (insert_at j id ids) c (search-insert_at x id ids j found_at))
  | same e c ↦ let no : found 0 ≡ absent index = sym (step_equal id y ids c) ∙ h in cc no
  | above c d ↦
      let here : absent 0 ≡ absent index = sym (above_all id y ids c) ∙ h in
      let e : 0 ≡ index = cc here in
      subst
        (λ i.
          is_found (binary_search x (insert_at i id (y ∷ ids)))
          ≡ (list_eq x id || is_found (binary_search x (y ∷ ids))))
        e (search-insert_front x id y ids c)
]

-- Values in order after an identifier hold nothing up to it.
nothing_up_to :
    (x id : Digest32) (ids : List Digest32)
    → ascending (id ∷ ids) ≡ true
    → (compare_text id x ≡ equal) ⊎ (compare_text id x ≡ greater)
    → is_found (binary_search x ids) ≡ false
unfolding ascending binary_search
nothing_up_to x id [] a c = refl
nothing_up_to x id (z ∷ ids) a c = found_above x z ids (above_z c)
  where
    ordered : compare_text z id ≡ greater
    ordered = elim (compared id z) [
      | below l d ↦ compare_turned id z l
      | same e l ↦ absurd (cc (rw l at a))
      | above l d ↦ absurd (cc (rw l at a))
    ]

    above_z :
        (compare_text id x ≡ equal) ⊎ (compare_text id x ≡ greater) → compare_text z x ≡ greater
    above_z (inl e) = subst (λ w. compare_text z w ≡ greater) (compare_text-equal id x e) ordered
    above_z (inr g) = greater_trans z id x ordered g

search-remove_front :
    (x id : Digest32) (ids : List Digest32)
    → ascending (id ∷ ids) ≡ true
    → is_found (binary_search x ids) ≡ (not (list_eq x id) && is_found (binary_search x (id ∷ ids)))
search-remove_front x id ids a = elim (compared id x) [
  | below c d ↦ rw (found_below x id ids c, d) refl
  | same e c ↦ rw (nothing_up_to x id ids a (inl c), e, list_eq_refl x) refl
  | above c d ↦ rw (nothing_up_to x id ids a (inr c), found_above x id ids c, d) refl
]

removed_under :
    (x id y : Digest32) (ids ids' : List Digest32)
    → compare_text y id ≡ less
    → is_found (binary_search x ids') ≡ (not (list_eq x id) && is_found (binary_search x ids))
    → is_found (binary_search x (y ∷ ids'))
      ≡ (not (list_eq x id) && is_found (binary_search x (y ∷ ids)))
removed_under x id y ids ids' b ih = elim (compared y x) [
  | below c d ↦ found_below x y ids' c ∙ rw (ih, found_below x y ids c) refl
  | same e c ↦
      let apart : list_eq x id ≡ false =
        differs id x greater (subst (λ w. compare_text id w ≡ greater) e (compare_turned y id b))
          greater_ne in
      rw (found_same x y ids' c, found_same x y ids c, apart) refl
  | above c d ↦ rw (found_above x y ids' c, found_above x y ids c) (ground arith)
]

ascending_tail :
    (y : Digest32) (ids : List Digest32) → ascending (y ∷ ids) ≡ true → ascending ids ≡ true
unfolding ascending
ascending_tail y [] a = refl
ascending_tail y (z ∷ ids) a = ground arith

pub search-remove_at :
    (x id : Digest32) (ids : List Digest32) (index : ℕ)
    → ascending ids ≡ true
    → binary_search id ids ≡ found index
    → is_found (binary_search x (remove_at index ids))
      ≡ (not (list_eq x id) && is_found (binary_search x ids))
unfolding binary_search
search-remove_at x id [] index a h = cc h
search-remove_at x id (y ∷ ids) index a h = elim (compared y id) [
  | below c d ↦
      let (j, found_at, next) =
        later-found (binary_search id ids) index (sym (step_less id y ids c) ∙ h) in
      rw next (
        removed_under x id y ids (remove_at j ids) c
          (search-remove_at x id ids j (ascending_tail y ids a) found_at))
  | same e c ↦
      let here : found 0 ≡ found index = sym (step_equal id y ids c) ∙ h in
      let first : 0 ≡ index = cc here in
      subst
        (λ i.
          is_found (binary_search x (remove_at i (y ∷ ids)))
          ≡ (not (list_eq x id) && is_found (binary_search x (y ∷ ids))))
        first
        (subst
          (λ w.
            is_found (binary_search x ids)
            ≡ (not (list_eq x w) && is_found (binary_search x (y ∷ ids))))
          e (search-remove_front x y ids a))
  | above c d ↦ let no : absent 0 ≡ found index = sym (above_all id y ids c) ∙ h in cc no
]
