-- ===== src/Manifest/Tree/Search.antt =====
-- The binary search in a leaf finds what a search from the front finds.
use check_po.Prelude.{
  ℕ, zero, suc, ◌+◌, ◌-◌, ◌/◌, ◌≤◌, ◌<◌, ◌≡◌, refl, sym, ap, subst, ◌∙◌, true, Option, none, some,
  List, [], ◌∷◌, ◌++◌, arith, length, take, drop, take-append-drop, drop-append, get_elem?, All,
  All-append, All-of_append, ltb, ltb→lt, ltb_false→le, list_eq, list_eq_refl, Bool-cases, inl, inr,
}
use check_po.Prelude.Result.{ok}
use check_po.Prelude.Map.{Comparison, less, equal, greater, compare_text, compare_text-equal}
use check_po.Prelude.Map.Order.{compare_text_trans, greater_trans}
use check_po.Manifest.{
  SnapshotV2Result, ManifestEntry, KeyedEntry, leaf_of_entry, portable_path_key_v1,
}
use check_po.Manifest.Keys.{IsLadder}
use check_po.Manifest.Build.{leaf_entries}
use check_po.Manifest.Tree.{compared, probe, search_leaf}
use check_po.Manifest.Tree.Sorted.{find_key}
use check_po.Manifest.Tree.Ladder.{
  Under, Over, IsLadder-Over, IsLadder-append, IsLadder-Under, Under-Differs, Over-Differs,
  find_key-none, find_key-append,
}

-- The entry at a place, with what stands before and behind it.
split_at :
    (n : ℕ) (es : List KeyedEntry)
    → n < length es
    → (front : List KeyedEntry) × (e : KeyedEntry) × (back : List KeyedEntry) × (es
        ≡ front ++ e ∷ back)
      × (length front ≡ n)
split_at n [] h = absurd (omega arith)
split_at zero (x ∷ es) h = ([], x, es, refl, refl)
split_at (suc n) (x ∷ es) h =
    let (front, e, back, same, len) = split_at n es (omega arith) in
    (x ∷ front, e, back, ap (λ r. x ∷ r) same, ap suc len)

get_elem?-leaf_entries :
    (front : List KeyedEntry) (e : KeyedEntry) (back : List KeyedEntry)
    → get_elem? (leaf_entries (front ++ e ∷ back)) (length front) ≡ some (leaf_of_entry e.entry)
get_elem?-leaf_entries [] e back = refl
get_elem?-leaf_entries (x ∷ front) e back = get_elem?-leaf_entries front e back

Under-trans :
    (key : List ℕ) (e : KeyedEntry) (es : List KeyedEntry)
    → compare_text e.key key ≡ less
    → All (Under e.key) es
    → All (Under key) es
Under-trans key e [] h a = tt
Under-trans key e (x ∷ es) h a =
    (compare_text_trans x.key e.key key a.0 h, Under-trans key e es h a.1)

Over-trans :
    (key : List ℕ) (e : KeyedEntry) (es : List KeyedEntry)
    → compare_text e.key key ≡ greater
    → All (Over e.key) es
    → All (Over key) es
Over-trans key e [] h a = tt
Over-trans key e (x ∷ es) h a = (greater_trans x.key e.key key a.0 h, Over-trans key e es h a.1)

take_one_more :
    (front : List KeyedEntry) (e : KeyedEntry) (back : List KeyedEntry)
    → take (length front + 1) (front ++ e ∷ back) ≡ front ++ e ∷ []
take_one_more [] e back = refl
take_one_more (x ∷ front) e back =
    let n : suc (length front) + 1 ≡ suc (length front + 1) = omega arith in
    rw n (ap (λ r. x ∷ r) (take_one_more front e back))

module _ (nfc : List ℕ → List ℕ) (to_lowercase : ℕ → ℕ × ℕ) where
  -- The key is that of the entry's path.
  abbrev pub HasKey : KeyedEntry → Type 0
  HasKey e = portable_path_key_v1 nfc to_lowercase e.entry.exact_path ≡ ok e.key

  probe-find :
      (key : List ℕ) (front : List KeyedEntry) (e : KeyedEntry) (back : List KeyedEntry)
      (low high : ℕ) (next : ℕ → ℕ → SnapshotV2Result (Option ManifestEntry))
      → HasKey e
      → IsLadder (front ++ e ∷ back)
      → (All (Under key) (take (length front + 1) (front ++ e ∷ back))
          → next (length front + 1) high ≡ ok (find_key key (front ++ e ∷ back)))
      → (All (Over key) (drop (length front) (front ++ e ∷ back))
          → next low (length front) ≡ ok (find_key key (front ++ e ∷ back)))
      → probe nfc to_lowercase next key low (length front) high (some (leaf_of_entry e.entry))
        ≡ ok (find_key key (front ++ e ∷ back))
  probe-find key front e back low high next has ladder up down =
      rw has (by (compare_text e.key key) refl)
    where
      by :
          (c : Comparison)
          → compare_text e.key key ≡ c
          → compared nfc to_lowercase next c low (length front) high (leaf_of_entry e.entry)
            ≡ ok (find_key key (front ++ e ∷ back))
      by less h = up (
          subst (All (Under key)) (sym (take_one_more front e back)) (
            All-append (Under key) front (e ∷ [])
              (Under-trans key e front h (IsLadder-Under front back e ladder)) (h, tt)))
      by greater h = down (
          subst (All (Over key)) (sym (drop-append front (e ∷ back))) (
            h,
            Over-trans key e back h
                (IsLadder-Over e back (IsLadder-append front (e ∷ back) ladder).1),
          ))
      by equal h =
          let same = compare_text-equal e.key key h in
          let before =
            Under-Differs key front
              (subst (λ k. All (Under k) front) same (IsLadder-Under front back e ladder)) in
          let here : list_eq e.key key ≡ true =
            subst (λ k. list_eq e.key k ≡ true) same (list_eq_refl e.key) in
          let found : find_key key (e ∷ back) ≡ some e.entry = rw here refl in
          ap ok (sym (find_key-append key front (e ∷ back) before ∙ found))

  -- Between what is under the key and what is over it nothing is left.
  nothing_left :
      (key : List ℕ) (range : List KeyedEntry) (low high : ℕ)
      → low ≡ high
      → All (Under key) (take low range)
      → All (Over key) (drop high range)
      → ◌≡◌ {A = SnapshotV2Result (Option ManifestEntry)} (ok none) (ok (find_key key range))
  nothing_left key range low high e under over = ap ok (
      sym (
        ap (find_key key) (sym (take-append-drop low range))
        ∙ find_key-append key (take low range) (drop low range)
            (Under-Differs key (take low range) under)
        ∙ find_key-none key (drop low range) (
            Over-Differs key (drop low range)
              (subst (λ n. All (Over key) (drop n range)) (sym e) over))))

  pub search_leaf-find :
      (key : List ℕ) (range : List KeyedEntry) (rounds low high : ℕ)
      → All HasKey range
      → IsLadder range
      → low ≤ high
      → high ≤ length range
      → high - low ≤ rounds
      → All (Under key) (take low range)
      → All (Over key) (drop high range)
      → search_leaf nfc to_lowercase rounds (leaf_entries range) key low high
        ≡ ok (find_key key range)
  unfolding search_leaf
  search_leaf-find key range zero low high has ladder a b c under over =
      nothing_left key range low high (omega (arith, a, c)) under over
  search_leaf-find key range (suc rounds) low high has ladder a b c under over =
      elim (Bool-cases (ltb low high)) [
        | inr e ↦
            let done = ltb_false→le low high e in
            rw e (nothing_left key range low high (omega (arith, a, done)) under over)
        | inl e ↦
            let l = ltb→lt low high e in
            let middle = low + (high - low) / 2 in
            let (front, x, back, same, len) = split_at middle range (omega (arith, l, b)) in
            let at : get_elem? (leaf_entries range) middle ≡ some (leaf_of_entry x.entry) =
              ap (λ r. get_elem? (leaf_entries r) middle) same
              ∙ ap (get_elem? (leaf_entries (front ++ x ∷ back))) (sym len)
              ∙ get_elem?-leaf_entries front x back in
            let step =
              probe-find key front x back low high
                (search_leaf nfc to_lowercase rounds (leaf_entries range) key)
                (All-of_append HasKey front (x ∷ back) (subst (All HasKey) same has)).1.0
                (subst IsLadder same ladder)
                (λ u.
                  search_leaf-find key range rounds (length front + 1) high has ladder
                    (omega (arith, l, len)) b (omega (arith, l, len, c))
                    (subst (λ r. All (Under key) (take (length front + 1) r)) (sym same) u) over
                  ∙ ap (λ r. ok (find_key key r)) same)
                (λ o.
                  search_leaf-find key range rounds low (length front) has ladder
                    (omega (arith, l, len)) (omega (arith, l, len, b)) (omega (arith, l, len, c))
                    under (subst (λ r. All (Over key) (drop (length front) r)) (sym same) o)
                  ∙ ap (λ r. ok (find_key key r)) same) in
            rw (e, at)
              (ap
                  (λ m.
                    probe nfc to_lowercase
                      (search_leaf nfc to_lowercase rounds (leaf_entries range) key) key low m high
                      (some (leaf_of_entry x.entry)))
                  (sym len)
                ∙ step
                ∙ ap (λ r. ok (find_key key r)) (sym same))
      ]
