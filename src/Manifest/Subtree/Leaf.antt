-- ===== src/Manifest/Subtree/Leaf.antt =====
-- A leaf that passes holds its entries.
use check_po.Prelude.{
  ℕ, zero, suc, ◌≤◌, ◌<◌, ◌≡◌, refl, sym, ap, subst, ◌∙◌, false, not, ◌&&◌, List, [], ◌∷◌, arith,
  length, take, ltb, ◌==◌, list_eq, All,
}
use check_po.Prelude.Result.{ok, ◌>>=◌, reject_if, >>=-eq_ok, reject_if-eq_ok}
use check_po.Codec.{Digest32, LeafEntry, ManifestRef, ManifestLeaf, leaf_summary}
use check_po.Codec.Chunk.{encode_leaf}
use check_po.Path.{is_nil}
use check_po.Manifest.{
  SnapshotV2Result, KeyedEntry, entry_of_leaf, from_codec, portable_path_key_v1,
  validate_ordered_keys, common_prefix_len,
}
use check_po.Manifest.Keys.{IsLadder, validate_ordered_keys_iff}
use check_po.Manifest.Leaf.{
  manifest_leaf_target_bytes, a_leaf, load_chunk, ValidationInfo, first_key_of, last_key_of,
  key_entries, validate_leaf,
}
use check_po.Manifest.Leaf.Loaded.{from_codec-eq_ok}
use check_po.Manifest.Sums.{leaf_summary-total}
use check_po.Manifest.Build.{leaf_entries}
use check_po.Manifest.Tree.{descend, in_chunk}
use check_po.Manifest.Tree.Sorted.{find_key}
use check_po.Manifest.Tree.Search.{HasKey}
use check_po.Manifest.Tree.Nodes.{search_leaf-whole}
use check_po.Manifest.Subtree.Walk.{walk}
use check_po.Manifest.Subtree.Children.{Answers}

module _ (nfc : List ℕ → List ℕ) (to_lowercase : ℕ → ℕ × ℕ) (hash : List ℕ → Digest32)
    (source : ManifestRef → SnapshotV2Result (List ℕ)) where
  key_entries-keyed :
      (es : List LeafEntry) (keyed : List KeyedEntry)
      → key_entries nfc to_lowercase es ≡ ok keyed
      → (leaf_entries keyed ≡ es) × All (HasKey nfc to_lowercase) keyed × (length keyed ≡ length es)
  unfolding key_entries
  key_entries-keyed [] keyed h =
      let e : [] ≡ keyed = cc h in
      subst (λ k. (leaf_entries k ≡ []) × All (HasKey nfc to_lowercase) k × (length k ≡ 0)) e
        (refl, tt, refl)
  key_entries-keyed (x ∷ es) keyed h =
      let (key, e1, h1) = >>=-eq_ok (portable_path_key_v1 nfc to_lowercase x.exact_path) _ h in
      let (rest, e2, h2) = >>=-eq_ok (key_entries nfc to_lowercase es) _ h1 in
      let one : KeyedEntry = record { key = key; entry = entry_of_leaf x } in
      let e : one ∷ rest ≡ keyed = cc h2 in
      let (same, keys, len) = key_entries-keyed es rest e2 in
      subst
        (λ k.
          (leaf_entries k ≡ x ∷ es)
          × All (HasKey nfc to_lowercase) k
          × (length k ≡ suc (length es)))
        e (ap (λ r. x ∷ r) same, (e1, keys), ap suc len)

  filled_leaf : (es : List LeafEntry) → is_nil es ≡ false → 1 ≤ length es
  filled_leaf [] h = absurd (cc h)
  filled_leaf (x ∷ es) h = omega arith

  pub leaf_Answers :
      (depths : ℕ) (reference : ManifestRef) (l : ManifestLeaf) (stored : List ℕ)
      (info : ValidationInfo)
      → load_chunk hash source reference ≡ ok (a_leaf l stored)
      → validate_leaf nfc to_lowercase l stored ≡ ok info
      → Answers nfc to_lowercase hash source (suc depths) reference (ok info)
  unfolding validate_leaf walk descend
  leaf_Answers depths reference l stored info loads h =
      let (canonical, c, h1) = >>=-eq_ok (from_codec (encode_leaf l)) _ h in
      let (u1, same, h2) = >>=-eq_ok (reject_if (not (list_eq canonical stored)) _) _ h1 in
      let (u2, filled, h3) = >>=-eq_ok (reject_if (is_nil l.entries) _) _ h2 in
      let (u3, short, h4) =
        >>=-eq_ok
          (reject_if (ltb manifest_leaf_target_bytes (length stored) && not (length l.entries == 1))
            _)
          _ h3 in
      let (keyed, k, h5) = >>=-eq_ok (key_entries nfc to_lowercase l.entries) _ h4 in
      let (u5, ordered, h6) = >>=-eq_ok (validate_ordered_keys keyed) _ h5 in
      let lcp =
        take (common_prefix_len (first_key_of keyed) (last_key_of keyed)) (first_key_of keyed) in
      let (u6, prefix, h7) = >>=-eq_ok (reject_if (not (list_eq l.portable_prefix lcp)) _) _ h6 in
      let (s, sum, h8) = >>=-eq_ok (from_codec (leaf_summary l)) _ h7 in
      let form : record {
        summary = s;
        first_key = first_key_of keyed;
        last_key = last_key_of keyed;
        maximum_relative_depth = 0;
      }
          ≡ info =
        cc h8 in
      let (entries, keys, len) = key_entries-keyed l.entries keyed k in
      let ladder = (validate_ordered_keys_iff keyed).0 ordered in
      subst (λ i. Answers nfc to_lowercase hash source (suc depths) reference (ok i)) form
        (
          keyed,
          record {
            filled = omega (arith, len, filled_leaf l.entries (reject_if-eq_ok _ _ filled));
            ladder = ladder;
            keys = keys;
            first = refl;
            last = refl;
            summed = leaf_summary-total l keyed s entries (from_codec-eq_ok _ s sum);
            walks = λ ds d. walks keyed entries ds d;
            finds = λ key ds d. finds keyed entries keys ladder key ds d;
          },
          omega arith,
        )
    where
      walks :
          (keyed : List KeyedEntry)
          → leaf_entries keyed ≡ l.entries
          → (ds : ℕ) → 0 < ds
          → walk hash source ds reference ≡ ok (leaf_entries keyed)
      walks keyed e zero d = absurd (omega arith)
      walks keyed e (suc ds) d = rw loads (ap ok (sym e))

      finds :
          (keyed : List KeyedEntry)
          → leaf_entries keyed ≡ l.entries
          → All (HasKey nfc to_lowercase) keyed
          → IsLadder keyed
          → (key : List ℕ) (ds : ℕ) → 0 < ds
          → descend nfc to_lowercase hash source ds key reference ≡ ok (find_key key keyed)
      finds keyed e keys ladder key zero d = absurd (omega arith)
      finds keyed e keys ladder key (suc ds) d =
          ap
            (λ c. c >>= in_chunk nfc to_lowercase (descend nfc to_lowercase hash source ds key) key)
            loads
          ∙ subst
              (λ es.
                in_chunk nfc to_lowercase (descend nfc to_lowercase hash source ds key) key
                  (a_leaf (record { portable_prefix = l.portable_prefix; entries = es }) stored)
                ≡ ok (find_key key keyed))
              e (search_leaf-whole nfc to_lowercase key keyed keys ladder)
