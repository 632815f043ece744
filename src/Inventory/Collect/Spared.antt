-- ===== src/Inventory/Collect/Spared.antt =====
-- What the inventory needs is no candidate.
use check_po.Prelude.{
  ℕ, ◌≡◌, refl, sym, ap, subst, ◌∙◌, Bool, true, false, ◌||◌, List, [], ◌∷◌, ◌++◌, String, arith,
  list_eq, list_eq→eq, list_eq_refl, Bool-cases, inl, inr,
}
use check_po.Prelude.Result.{ok, >>=-eq_ok}
use check_po.Prelude.Map.{
  Comparison, less, equal, greater, compare_text, mem, insert_key, mem-insert_key,
}
use check_po.Inventory.{InventoryResult}
use check_po.Inventory.Collect.{
  EntryKind, link, directory, file, other, Entry, Candidates, validate_inventory_content_path,
  directory_checked, with_candidate, visit, visit_all, placed, insert_candidate, sort_candidates,
  walk_stores, states_store, roots_store, leaves_store,
}

or_right : (a b : Bool) → b ≡ true → (a || b) ≡ true
or_right true b h = refl
or_right false b h = h

pub kept : (p k : List ℕ) (set : List (List ℕ)) → mem p set ≡ true → mem p (insert_key k set) ≡ true
kept p k set h = mem-insert_key p k set ∙ or_right (list_eq k p) (mem p set) h

pub there : (k : List ℕ) (set : List (List ℕ)) → mem k (insert_key k set) ≡ true
there k set = mem-insert_key k k set ∙ rw (list_eq_refl k) refl

-- Whether a path is one of the candidates.
abbrev pub is_candidate : List ℕ → Candidates → Bool
is_candidate p [] = false
is_candidate p (c ∷ cs) = list_eq c.0 p || is_candidate p cs

is_candidate-append :
    (p : List ℕ) (cs : Candidates) (relative : List ℕ) (len : ℕ)
    → is_candidate p cs ≡ false
    → list_eq relative p ≡ false
    → is_candidate p (cs ++ (relative, len) ∷ []) ≡ false
is_candidate-append p [] relative len h e = rw e refl
is_candidate-append p (c ∷ cs) relative len h e = elim (Bool-cases (list_eq c.0 p)) [
  | inl t ↦ absurd (cc (rw t at h))
  | inr t ↦ rw t (is_candidate-append p cs relative len (rw t at h) e)
]

or_swap : (a b c : Bool) → (a || (b || c)) ≡ (b || (a || c))
or_swap a b c = ground arith

is_candidate-insert_candidate :
    (p : List ℕ) (c : List ℕ × ℕ) (cs : Candidates)
    → is_candidate p (insert_candidate c cs) ≡ (list_eq c.0 p || is_candidate p cs)
unfolding insert_candidate
is_candidate-insert_candidate p c [] = refl
is_candidate-insert_candidate p c (x ∷ cs) =
    by (compare_text c.0 x.0) (is_candidate-insert_candidate p c cs)
  where
    by :
        (k : Comparison)
        → is_candidate p (insert_candidate c cs) ≡ (list_eq c.0 p || is_candidate p cs)
        → is_candidate p (placed k c x cs (insert_candidate c cs))
          ≡ (list_eq c.0 p || (list_eq x.0 p || is_candidate p cs))
    by less ih = refl
    by equal ih = refl
    by greater ih = rw ih (or_swap (list_eq x.0 p) (list_eq c.0 p) (is_candidate p cs))

pub is_candidate-sort_candidates :
    (p : List ℕ) (cs : Candidates) → is_candidate p (sort_candidates cs) ≡ is_candidate p cs
unfolding sort_candidates
is_candidate-sort_candidates p [] = refl
is_candidate-sort_candidates p (c ∷ cs) =
    is_candidate-insert_candidate p c (sort_candidates cs)
    ∙ ap (λ b. list_eq c.0 p || b) (is_candidate-sort_candidates p cs)

module _ (p : List ℕ) (reachable : List (List ℕ)) (needed : mem p reachable ≡ true) where
  with_candidate-spares :
      (relative : List ℕ) (len : ℕ) (cs cs' : Candidates)
      → is_candidate p cs ≡ false
      → with_candidate reachable relative len cs ≡ ok cs'
      → is_candidate p cs' ≡ false
  with_candidate-spares relative len cs cs' f h = elim (Bool-cases (mem relative reachable)) [
    | inl e ↦
        let same : ◌≡◌ {A = InventoryResult Candidates} (ok cs) (ok cs') = rw e at h in
        let eq : cs ≡ cs' = cc same in subst (λ c. is_candidate p c ≡ false) eq f
    | inr e ↦
        let same : ◌≡◌ {A = InventoryResult Candidates} (ok (cs ++ (relative, len) ∷ [])) (ok cs') =
          rw e at h in
        let eq : (cs ++ (relative, len) ∷ []) ≡ cs' = cc same in
        subst (λ c. is_candidate p c ≡ false) eq
          (is_candidate-append p cs relative len f (apart relative e))
  ]
    where
      apart : (r : List ℕ) → mem r reachable ≡ false → list_eq r p ≡ false
      apart r e = elim (Bool-cases (list_eq r p)) [
        | inl t ↦
            let no : true ≡ false =
              sym needed ∙ (ap (λ x. mem x reachable) (sym (list_eq→eq r p t)) ∙ e) in
            cc no
        | inr t ↦ t
      ]

  directory_checked-same :
      (below : List (List ℕ)) (cs cs' : Candidates) → directory_checked below cs ≡ ok cs' → cs ≡ cs'
  directory_checked-same [] cs cs' h = cc h
  directory_checked-same (name ∷ []) cs cs' h = ground arith
  directory_checked-same (name ∷ more ∷ rest) cs cs' h = cc h

  visit-spares :
      (store suffix : String) (kind : EntryKind) (below : List (List ℕ)) (len : ℕ)
      (cs cs' : Candidates)
      → is_candidate p cs ≡ false
      → visit reachable store suffix kind below len cs ≡ ok cs'
      → is_candidate p cs' ≡ false
  visit-spares store suffix link below len cs cs' f h = cc h
  visit-spares store suffix other below len cs cs' f h = cc h
  visit-spares store suffix directory below len cs cs' f h =
      subst (λ c. is_candidate p c ≡ false) (directory_checked-same below cs cs' h) f
  visit-spares store suffix file below len cs cs' f h =
      let (u, g, h1) = >>=-eq_ok (validate_inventory_content_path below suffix) _ h in
      with_candidate-spares _ len cs cs' f h1

  visit_all-spares :
      (store suffix : String) (items : List (InventoryResult Entry)) (cs cs' : Candidates)
      → is_candidate p cs ≡ false
      → visit_all reachable store suffix items cs ≡ ok cs'
      → is_candidate p cs' ≡ false
  unfolding visit_all
  visit_all-spares store suffix [] cs cs' f h =
      let eq : cs ≡ cs' = cc h in subst (λ c. is_candidate p c ≡ false) eq f
  visit_all-spares store suffix (item ∷ items) cs cs' f h =
      let (entry, g1, h1) = >>=-eq_ok item _ h in
      let (cs1, g2, h2) =
        >>=-eq_ok (visit reachable store suffix entry.kind entry.below entry.len cs) _ h1 in
      visit_all-spares store suffix items cs1 cs'
        (visit-spares store suffix entry.kind entry.below entry.len cs cs1 f g2) h2

  pub walk_stores-spares :
      (walk : String → List (InventoryResult Entry)) (cs : Candidates)
      → walk_stores walk reachable ≡ ok cs
      → is_candidate p cs ≡ false
  walk_stores-spares walk cs h =
      let (c1, g1, h1) =
        >>=-eq_ok (visit_all reachable states_store ".state" (walk states_store) []) _ h in
      let (c2, g2, h2) =
        >>=-eq_ok (visit_all reachable roots_store ".root" (walk roots_store) c1) _ h1 in
      visit_all-spares leaves_store ".leaf" (walk leaves_store) c2 cs
        (visit_all-spares roots_store ".root" (walk roots_store) c1 c2
          (visit_all-spares states_store ".state" (walk states_store) [] c1 refl g1) g2)
        h2
