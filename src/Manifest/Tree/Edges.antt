-- ===== src/Manifest/Tree/Edges.antt =====
-- The ranges of a node's children, by the byte behind the shared prefix.
use check_po.Prelude.{
  ℕ, zero, suc, ◌+◌, ◌≤◌, ◌<◌, ◌≡◌, ◌≢◌, refl, sym, ap, subst, ◌∙◌, true, false, List, [], ◌∷◌,
  ◌++◌, arith, length, length-append, append_assoc, take, All, All-append, ◌==◌, Bool-cases, inl,
  inr,
}
use check_po.Prelude.Map.{less, compare_text, list_eq-false}
use check_po.Manifest.{KeyedEntry, edge_at}
use check_po.Manifest.Keys.{IsLadder}
use check_po.Manifest.Build.{child_ranges}
use check_po.Manifest.Tree.Ladder.{Differs}

abbrev pub EdgeIs : ℕ → ℕ → KeyedEntry → Type 0
EdgeIs prefix_len edge e = edge_at e.key prefix_len ≡ edge

abbrev pub EdgeOver : ℕ → ℕ → KeyedEntry → Type 0
EdgeOver prefix_len edge e = edge < edge_at e.key prefix_len

-- The edges do not fall, from an edge on.
abbrev pub Rising : ℕ → ℕ → List KeyedEntry → Type 0
Rising prefix_len edge [] = Unit
Rising prefix_len edge (e ∷ es) =
    (edge ≤ edge_at e.key prefix_len) × Rising prefix_len (edge_at e.key prefix_len) es

edge_rises :
    (n : ℕ) (a b : List ℕ)
    → take n a ≡ take n b
    → compare_text a b ≡ less
    → edge_at a n ≤ edge_at b n
unfolding edge_at compare_text
edge_rises zero [] b s h = omega arith
edge_rises zero (x ∷ a) [] s h = absurd (cc h)
edge_rises zero (x ∷ a) (y ∷ b) s h = ground arith
edge_rises (suc n) [] b s h = omega arith
edge_rises (suc n) (x ∷ a) [] s h = absurd (cc h)
edge_rises (suc n) (x ∷ a) (y ∷ b) s h = edge_rises n a b (cc s) (ground (arith, s, h))

pub IsLadder-Rising :
    (n : ℕ) (low : List ℕ) (e : KeyedEntry) (es : List KeyedEntry)
    → IsLadder (e ∷ es)
    → All (λ x. take n x.key ≡ take n low) (e ∷ es)
    → Rising n (edge_at e.key n) es
IsLadder-Rising n low e [] h a = tt
IsLadder-Rising n low e (f ∷ es) h a =
    (edge_rises n e.key f.key (a.0 ∙ sym a.1.0) h.0, IsLadder-Rising n low f es h.2 a.1)

pub Rising-Over :
    (n low edge : ℕ) (es : List KeyedEntry)
    → low < edge
    → Rising n edge es
    → All (EdgeOver n low) es
Rising-Over n low edge [] l h = tt
Rising-Over n low edge (e ∷ es) l h =
    (omega (arith, l, h.0), Rising-Over n low (edge_at e.key n) es (omega (arith, l, h.0)) h.1)

-- The ranges, from a place on, cut the entries into parts, each of one edge that is less than the
-- edges behind it.
abbrev pub Split : ℕ → ℕ → List (ℕ × ℕ × ℕ) → List KeyedEntry → Type 0
Split n at [] entries = entries ≡ []
Split n at ((edge, start, end) ∷ ranges) entries =
    (part : List KeyedEntry) × (more : List KeyedEntry) × (entries ≡ part ++ more)
    × (start ≡ at)
    × (end ≡ at + length part)
    × (1 ≤ length part)
    × All (EdgeIs n edge) part
    × All (EdgeOver n edge) more
    × Split n end ranges more

same_child :
    (n edge at end : ℕ) (x : KeyedEntry) (more : List KeyedEntry)
    → (edge_at x.key n == edge) ≡ true
    → child_ranges n edge at end (x ∷ more) ≡ child_ranges n edge at (suc end) more
unfolding child_ranges
same_child n edge at end x more t = rw (t, child_ranges) refl

next_child :
    (n edge at end : ℕ) (x : KeyedEntry) (more : List KeyedEntry)
    → (edge_at x.key n == edge) ≡ false
    → child_ranges n edge at end (x ∷ more)
      ≡ (edge, at, end) ∷ child_ranges n (edge_at x.key n) end (suc end) more
unfolding child_ranges
next_child n edge at end x more t = rw (t, child_ranges) refl

pub child_ranges-Split :
    (n edge at end : ℕ) (part more : List KeyedEntry)
    → end ≡ at + length part
    → 1 ≤ length part
    → All (EdgeIs n edge) part
    → Rising n edge more
    → Split n at (child_ranges n edge at end more) (part ++ more)
unfolding child_ranges
child_ranges-Split n edge at end part [] e l same rising =
    (part, [], refl, refl, e, l, same, tt, refl)
child_ranges-Split n edge at end part (x ∷ more) e l same rising =
    elim (Bool-cases (edge_at x.key n == edge)) [
      | inl t ↦
          let is : edge_at x.key n ≡ edge = ground arith in
          subst (λ r. Split n at r (part ++ x ∷ more)) (sym (same_child n edge at end x more t))
            (subst (Split n at (child_ranges n edge at (suc end) more))
              (append_assoc part (x ∷ []) more)
              (child_ranges-Split n edge at (suc end) (part ++ x ∷ []) more
                (omega (arith, e, length-append part (x ∷ [])))
                (omega (arith, l, length-append part (x ∷ [])))
                (All-append (EdgeIs n edge) part (x ∷ []) same (is, tt))
                (subst (λ b. Rising n b more) is rising.1)))
      | inr t ↦
          let over : edge < edge_at x.key n = by rising.0 t in
          subst (λ r. Split n at r (part ++ x ∷ more)) (sym (next_child n edge at end x more t))
            (
              part,
              x ∷ more,
              refl,
              refl,
              e,
              l,
              same,
              (over, Rising-Over n edge (edge_at x.key n) more over rising.1),
              child_ranges-Split n (edge_at x.key n) end (suc end) (x ∷ []) more (omega arith)
                  (omega arith) (refl, tt) rising.1,
            )
    ]
  where
    by : edge ≤ edge_at x.key n → (edge_at x.key n == edge) ≡ false → edge < edge_at x.key n
    by h t = ground arith

other_edge :
    (n : ℕ) (key : List ℕ) (e : KeyedEntry) → edge_at e.key n ≢ edge_at key n → Differs key e
other_edge n key e h =
    list_eq-false e.key key (λ (same : e.key ≡ key). h (ap (λ k. edge_at k n) same))

-- Entries with another edge have another key.
pub EdgeIs-Differs :
    (n edge : ℕ) (key : List ℕ) (es : List KeyedEntry)
    → edge ≢ edge_at key n
    → All (EdgeIs n edge) es
    → All (Differs key) es
EdgeIs-Differs n edge key [] d h = tt
EdgeIs-Differs n edge key (e ∷ es) d h =
    (other_edge n key e (λ s. d (sym h.0 ∙ s)), EdgeIs-Differs n edge key es d h.1)

pub EdgeOver-Differs :
    (n edge : ℕ) (key : List ℕ) (es : List KeyedEntry)
    → edge ≡ edge_at key n
    → All (EdgeOver n edge) es
    → All (Differs key) es
EdgeOver-Differs n edge key [] d h = tt
EdgeOver-Differs n edge key (e ∷ es) d h =
    (other_edge n key e (λ s. omega (arith, s, d, h.0)), EdgeOver-Differs n edge key es d h.1)
