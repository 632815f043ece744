-- ===== src/Manifest/Tree/Bisect.antt =====
-- The binary search in a node finds what a search from the front finds.
use check_po.Prelude.{
  ℕ, zero, suc, ◌+◌, ◌-◌, ◌/◌, ◌≤◌, ◌<◌, ◌≡◌, ◌≢◌, refl, sym, ap, subst, ◌∙◌, Bool, true, false,
  Option, none, some, List, [], ◌∷◌, arith, length, get_elem?, ltb, ltb→lt, ltb_false→le, ◌==◌,
  if◌then◌else◌, All, All-get_elem?, Bool-cases, inl, inr,
}
use check_po.Codec.{ManifestChild}
use check_po.Manifest.Tree.{is_over, halve, bisect, picked, find_child}

-- The first child with the edge, from the front.
unfoldable pub child_of : ℕ → List ManifestChild → Option ManifestChild
child_of edge [] = none
child_of edge (c ∷ cs) = if c.edge == edge then some c else child_of edge cs

-- The edges increase.
abbrev pub Ascending : List ManifestChild → Type 0
Ascending [] = Unit
Ascending (c ∷ cs) = All (λ d. c.edge < d.edge) cs × Ascending cs

Ascending-get :
    (cs : List ManifestChild) (i j : ℕ) (c d : ManifestChild)
    → Ascending cs
    → get_elem? cs i ≡ some c
    → get_elem? cs j ≡ some d
    → i < j
    → c.edge < d.edge
Ascending-get [] i j c d a h k l = absurd (cc h)
Ascending-get (x ∷ cs) i zero c d a h k l = absurd (omega arith)
Ascending-get (x ∷ cs) zero (suc j) c d a h k l =
    let e : x ≡ c = cc h in
    subst (λ y. y.edge < d.edge) e (All-get_elem? (λ y. x.edge < y.edge) cs j d a.0 k)
Ascending-get (x ∷ cs) (suc i) (suc j) c d a h k l =
    Ascending-get cs i j c d a.1 h k (omega (arith, l))

get_elem?-some :
    (cs : List ManifestChild) (i : ℕ)
    → i < length cs
    → (c : ManifestChild) × (get_elem? cs i ≡ some c)
get_elem?-some [] i l = absurd (omega arith)
get_elem?-some (c ∷ cs) zero l = (c, refl)
get_elem?-some (c ∷ cs) (suc i) l = get_elem?-some cs i (omega arith)

not_same : (a b : ℕ) → a ≢ b → (a == b) ≡ false
not_same a b h = ground arith

-- No child has the edge.
child_of-none :
    (edge : ℕ) (cs : List ManifestChild)
    → ((i : ℕ) (c : ManifestChild) → get_elem? cs i ≡ some c → c.edge ≢ edge)
    → child_of edge cs ≡ none
unfolding child_of
child_of-none edge [] h = refl
child_of-none edge (c ∷ cs) h =
    rw (not_same c.edge edge (h 0 c refl)) (child_of-none edge cs (λ i d k. h (suc i) d k))

-- At all other places stands another edge.
abbrev Only : ℕ → List ManifestChild → ℕ → Type 0
Only edge cs p = (i : ℕ) (c : ManifestChild) → get_elem? cs i ≡ some c → i ≢ p → c.edge ≢ edge

child_of-Only :
    (edge : ℕ) (cs : List ManifestChild) (p : ℕ)
    → ((i : ℕ) (c : ManifestChild) → get_elem? cs i ≡ some c → i ≢ p → c.edge ≢ edge)
    → picked edge (get_elem? cs p) ≡ child_of edge cs
unfolding child_of
child_of-Only edge [] p h = refl
child_of-Only edge (c ∷ cs) zero h = elim (Bool-cases (c.edge == edge)) [
  | inl t ↦ rw t refl
  | inr f ↦ rw f (sym (child_of-none edge cs (λ i d k. h (suc i) d k (omega arith))))
]
child_of-Only edge (c ∷ cs) (suc p) h = rw (not_same c.edge edge (h 0 c refl (omega arith))) (
    child_of-Only edge cs p
      (λ i d k n. h (suc i) d k (λ (e : suc i ≡ suc p). n (omega (arith, e)))))

module _ (edge : ℕ) (cs : List ManifestChild) where
  -- Before the place the edges are less, and from the place on they are greater.
  abbrev Low : ℕ → Type 0
  Low base = (i : ℕ) (c : ManifestChild) → get_elem? cs i ≡ some c → i < base → c.edge < edge

  abbrev High : ℕ → Type 0
  High top = (i : ℕ) (c : ManifestChild) → get_elem? cs i ≡ some c → top ≤ i → edge < c.edge

  -- The search leaves only one place where the edge may stand.
  abbrev Finds : (ℕ → ℕ → ℕ) → ℕ → Type 0
  Finds next rounds =
      (base size : ℕ)
      → 1 ≤ size
      → size ≤ suc rounds
      → base + size ≤ length cs
      → Low base
      → High (base + size)
      → Only edge cs (next base size)

  apart : (base size : ℕ) → 1 ≤ size → size ≤ 1 → Low base → High (base + size) → Only edge cs base
  apart base size one bound low high i c at n same = elim (Bool-cases (ltb i base)) [
    | inl t ↦ omega (arith, low i c at (ltb→lt i base t), same)
    | inr f ↦
        let le = ltb_false→le i base f in
        omega (arith, high i c at (omega (arith, le, one, bound, n)), same)
  ]

  -- The next round, by whether the edge in the middle is greater.
  half-Only :
      (next : ℕ → ℕ → ℕ) (rounds base size half : ℕ) (d : ManifestChild) (u : Bool)
      → Ascending cs
      → Finds next rounds
      → half ≡ size / 2
      → 1 < size
      → size ≤ suc (suc rounds)
      → base + size ≤ length cs
      → Low base
      → High (base + size)
      → get_elem? cs (base + half) ≡ some d
      → ltb edge d.edge ≡ u
      → Only edge cs (next (if u then base else base + half) (size - half))
  half-Only next rounds base size half d true up ih is two bound fits low high there over =
      ih base (size - half) (omega (arith, is, two)) (omega (arith, is, two, bound))
        (omega (arith, fits)) low above
    where
      above : High (base + (size - half))
      above i c at le = elim (Bool-cases (i == base + half)) [
        | inl t ↦
            let e : i ≡ base + half = number i (base + half) t in
            let same : some c ≡ some d = sym at ∙ ap (get_elem? cs) e ∙ there in
            let children : c ≡ d = cc same in
            subst (λ x. edge < x.edge) (sym children) (ltb→lt edge d.edge over)
        | inr f ↦
            let n = not_number i (base + half) f in
            let rises =
              Ascending-get cs (base + half) i d c up there at (omega (arith, n, le, is, two)) in
            omega (arith, rises, ltb→lt edge d.edge over)
      ]
        where
          number : (a b : ℕ) → (a == b) ≡ true → a ≡ b
          number a b t = ground arith

          not_number : (a b : ℕ) → (a == b) ≡ false → a ≢ b
          not_number a b t e = ground arith
  half-Only next rounds base size half d false up ih is two bound fits low high there over =
      ih (base + half) (size - half) (omega (arith, is, two)) (omega (arith, is, two, bound))
        (omega (arith, fits, is)) below (λ i c at le. high i c at (omega (arith, le, is)))
    where
      below : Low (base + half)
      below i c at l =
          omega (
            arith,
            Ascending-get cs i (base + half) c d up at there l,
            ltb_false→le edge d.edge over,
          )

  halve-Finds :
      (next : ℕ → ℕ → ℕ) (rounds : ℕ)
      → Ascending cs
      → Finds next rounds
      → Finds (λ base size. halve next edge cs base size (ltb 1 size)) (suc rounds)
  halve-Finds next rounds up ih base size one bound fits low high = by (ltb 1 size) refl
    where
      by : (t : Bool) → ltb 1 size ≡ t → Only edge cs (halve next edge cs base size t)
      by false f = apart base size one (ltb_false→le 1 size f) low high
      by true t =
          let two = ltb→lt 1 size t in
          let (d, there) = get_elem?-some cs (base + size / 2) (omega (arith, two, fits)) in
          subst
            (λ o.
              Only edge cs
                (next (if is_over edge o then base else base + size / 2) (size - size / 2)))
            (sym there)
            (half-Only next rounds base size (size / 2) d (ltb edge d.edge) up ih refl two bound
              fits low high there refl)

  bisect-Finds : (rounds : ℕ) → Ascending cs → Finds (bisect rounds edge cs) rounds
  unfolding bisect
  bisect-Finds zero up base size one bound fits low high = apart base size one bound low high
  bisect-Finds (suc rounds) up base size one bound fits low high =
      halve-Finds (bisect rounds edge cs) rounds up (bisect-Finds rounds up) base size one bound
        fits low high

beyond :
    (cs : List ManifestChild) (i : ℕ) (c : ManifestChild) → get_elem? cs i ≡ some c → i < length cs
beyond [] i c h = absurd (cc h)
beyond (x ∷ cs) zero c h = omega arith
beyond (x ∷ cs) (suc i) c h = omega (arith, beyond cs i c h)

-- On edges that increase, the binary search finds the child with the edge, and none if there is none.
pub find_child-child_of :
    (edge : ℕ) (cs : List ManifestChild) → Ascending cs → find_child edge cs ≡ child_of edge cs
unfolding find_child
find_child-child_of edge [] up = unfold child_of in refl
find_child-child_of edge (c ∷ cs) up =
    child_of-Only edge (c ∷ cs) (bisect (length (c ∷ cs)) edge (c ∷ cs) 0 (length (c ∷ cs))) (
      bisect-Finds edge (c ∷ cs) (length (c ∷ cs)) up 0 (length (c ∷ cs)) (omega arith)
        (omega arith) (omega arith) (λ i d at l. absurd (omega (arith, l)))
        (λ i d at le. absurd (omega (arith, le, beyond (c ∷ cs) i d at))))
