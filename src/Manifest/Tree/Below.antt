-- ===== src/Manifest/Tree/Below.antt =====
-- The step of a lookup from a node to a child.
use check_po.Prelude.{
  ℕ, ◌≡◌, ◌≢◌, sym, ap, ◌∙◌, true, false, Option, List, [], ◌∷◌, ◌++◌, arith, length, take, drop,
  take-append-drop, ◌==◌, list_eq, list_eq→eq, All, Bool-cases, inl, inr,
}
use check_po.Prelude.Result.{ok}
use check_po.Codec.{ManifestRef, ManifestChild, ManifestNode}
use check_po.Manifest.{SnapshotV2Result, ManifestEntry, KeyedEntry, starts_with, edge_at}
use check_po.Manifest.Keys.{starts_with-append}
use check_po.Manifest.Leaf.{a_node}
use check_po.Manifest.Tree.Bisect.{child_of, Ascending, find_child-child_of}
use check_po.Manifest.Tree.{to_child, in_chunk}
use check_po.Manifest.Tree.Sorted.{find_key}
use check_po.Manifest.Tree.Ladder.{Differs, find_key-none, find_key-append, find_key-front}
use check_po.Manifest.Tree.Edges.{EdgeIs, EdgeOver, EdgeIs-Differs, EdgeOver-Differs}

module _ (key : List ℕ) where
  -- The child of the part's edge, or one behind it.
  pub child_of-find :
      (n edge : ℕ) (part more : List KeyedEntry) (c : ManifestChild) (cs : List ManifestChild)
      (next : ManifestRef → SnapshotV2Result (Option ManifestEntry))
      → c.edge ≡ edge
      → All (EdgeIs n edge) part
      → All (EdgeOver n edge) more
      → next c.child ≡ ok (find_key key part)
      → to_child next (child_of (edge_at key n) cs) ≡ ok (find_key key more)
      → to_child next (child_of (edge_at key n) (c ∷ cs)) ≡ ok (find_key key (part ++ more))
  unfolding child_of
  child_of-find n edge part more c cs next e is over here there =
      elim (Bool-cases (c.edge == edge_at key n)) [
        | inl t ↦
            let same : edge ≡ edge_at key n = sym e ∙ met c.edge (edge_at key n) t in
            rw t (
              here
              ∙ ap ok
                  (sym (find_key-front key part more (EdgeOver-Differs n edge key more same over))))
        | inr t ↦ rw t (
            there
            ∙ ap ok (
                sym (
                  find_key-append key part more (
                    EdgeIs-Differs n edge key part
                      (λ (s : edge ≡ edge_at key n). unmet c.edge (edge_at key n) t (e ∙ s)) is))))
      ]
    where
      met : (a b : ℕ) → (a == b) ≡ true → a ≡ b
      met a b t = ground arith

      unmet : (a b : ℕ) → (a == b) ≡ false → a ≢ b
      unmet a b t s = ground arith

  -- A key that does not start with what all keys of the range share is not there.
  elsewhere :
      (prefix : List ℕ) (range : List KeyedEntry)
      → starts_with key prefix ≡ false
      → All (λ e. take (length prefix) e.key ≡ prefix) range
      → All (Differs key) range
  elsewhere prefix [] h a = tt
  elsewhere prefix (e ∷ range) h a = (
    elim (Bool-cases (list_eq e.key key)) [
      | inl t ↦
          let same = list_eq→eq e.key key t in
          let form : key ≡ prefix ++ drop (length prefix) key =
            sym (take-append-drop (length prefix) key)
            ∙ ap (λ t. t ++ drop (length prefix) key)
                (ap (take (length prefix)) (sym same) ∙ a.0) in
          let no : true ≡ false =
            sym (
              ap (λ k. starts_with k prefix) form
              ∙ starts_with-append prefix (drop (length prefix) key))
            ∙ h in
          absurd (cc no)
      | inr f ↦ f
    ],
    elsewhere prefix range h a.1,
  )

module _ (nfc : List ℕ → List ℕ) (to_lowercase : ℕ → ℕ × ℕ) where
  pub in_chunk-node :
      (key : List ℕ) (n : ManifestNode) (stored : List ℕ) (range : List KeyedEntry)
      (next : ManifestRef → SnapshotV2Result (Option ManifestEntry))
      → All (λ e. take (length n.portable_prefix) e.key ≡ n.portable_prefix) range
      → Ascending n.children
      → to_child next (child_of (edge_at key (length n.portable_prefix)) n.children)
        ≡ ok (find_key key range)
      → in_chunk nfc to_lowercase next key (a_node n stored) ≡ ok (find_key key range)
  in_chunk-node key n stored range next shared up finds =
      elim (Bool-cases (starts_with key n.portable_prefix)) [
        | inl t ↦
            rw (t, in_chunk)
              (ap (to_child next)
                  (find_child-child_of (edge_at key (length n.portable_prefix)) n.children up)
                ∙ finds)
        | inr f ↦
            rw (f, in_chunk)
              (ap ok
                (sym (find_key-none key range (elsewhere key n.portable_prefix range f shared))))
      ]
