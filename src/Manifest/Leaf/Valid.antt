-- ===== src/Manifest/Leaf/Valid.antt =====
-- What `validate_leaf` promises about the keys of a leaf.
use check_po.Prelude.{
  ℕ, ◌≡◌, refl, sym, ap, ◌∙◌, Bool, true, false, not, ◌&&◌, List, [], ◌∷◌, ◌++◌, length, take, drop,
  take-append-drop, All, ltb, ◌==◌, list_eq, list_eq→eq,
}
use check_po.Prelude.Result.{ok, reject_if, reject_if-eq_ok, >>=-eq_ok}
use check_po.Codec.{ManifestLeaf, leaf_summary}
use check_po.Codec.Chunk.{encode_leaf}
use check_po.Path.{is_nil}
use check_po.Manifest.{from_codec, KeyedEntry, validate_ordered_keys, common_prefix_len}
use check_po.Manifest.Keys.{IsLadder, validate_ordered_keys_iff}
use check_po.Manifest.Prefix.{last_of, range_prefix}
use check_po.Manifest.Leaf.{
  manifest_leaf_target_bytes, ValidationInfo, first_key_of, last_key_of, key_entries, validate_leaf,
}
use check_po.Manifest.Leaf.Loaded.{from_codec-eq_ok}

not-false : (b : Bool) → not b ≡ false → b ≡ true
not-false true h = refl
not-false false h = absurd (cc h)

pub last_key_of-last_of :
    (e : KeyedEntry) (es : List KeyedEntry) → last_key_of (e ∷ es) ≡ (last_of e es).key
last_key_of-last_of e [] = refl
last_key_of-last_of e (f ∷ es) = last_key_of-last_of f es

-- The prefix, and something behind it.
abbrev pub StartsWith : List ℕ → KeyedEntry → Type 0
StartsWith prefix e = (rest : List ℕ) × (e.key ≡ prefix ++ rest)

All-start :
    (n : ℕ) (prefix low : List ℕ) (es : List KeyedEntry)
    → prefix ≡ take n low
    → All (λ e. take n e.key ≡ take n low) es
    → All (StartsWith prefix) es
All-start n prefix low [] h a = tt
All-start n prefix low (e ∷ es) h a = (
  (drop n e.key, sym (take-append-drop n e.key) ∙ ap (λ t. t ++ drop n e.key) (a.0 ∙ sym h)),
  All-start n prefix low es h a.1,
)

keys_start :
    (prefix : List ℕ) (keyed : List KeyedEntry)
    → validate_ordered_keys keyed ≡ ok tt
    → prefix
      ≡ take (common_prefix_len (first_key_of keyed) (last_key_of keyed)) (first_key_of keyed)
    → All (StartsWith prefix) keyed
keys_start prefix [] h e = tt
keys_start prefix (first ∷ rest) h e =
    All-start (common_prefix_len first.key (last_of first rest).key) prefix first.key (first ∷ rest)
      (e
        ∙ ap (λ k. take (common_prefix_len first.key k) first.key) (last_key_of-last_of first rest))
      (range_prefix first rest h)

-- If a leaf is valid for its stored bytes, then it encodes to them, its entries' paths have
-- portable keys that increase without a conflict between neighbours, every key starts with the
-- leaf's prefix, and the summary that comes out is that of the entries.
pub validate_leaf-keys :
    (nfc : List ℕ → List ℕ) (to_lowercase : ℕ → ℕ × ℕ) (l : ManifestLeaf) (stored : List ℕ)
    (info : ValidationInfo)
    → validate_leaf nfc to_lowercase l stored ≡ ok info
    → (encode_leaf l ≡ ok stored)
      × (leaf_summary l ≡ ok info.summary)
      × ((keyed : List KeyedEntry) × (key_entries nfc to_lowercase l.entries ≡ ok keyed)
          × IsLadder keyed
          × All (StartsWith l.portable_prefix) keyed)
unfolding validate_leaf
validate_leaf-keys nfc to_lowercase l stored info h =
    let (canonical, c, h1) = >>=-eq_ok (from_codec (encode_leaf l)) _ h in
    let (u1, same, h2) = >>=-eq_ok (reject_if (not (list_eq canonical stored)) _) _ h1 in
    let (u2, filled, h3) = >>=-eq_ok (reject_if (is_nil l.entries) _) _ h2 in
    let (u3, short, h4) =
      >>=-eq_ok
        (reject_if (ltb manifest_leaf_target_bytes (length stored) && not (length l.entries == 1))
          _)
        _ h3 in
    let (keyed, k, h5) = >>=-eq_ok (key_entries nfc to_lowercase l.entries) _ h4 in
    let (u5, ordered, h6) = >>=-eq_ok (validate_ordered_keys keyed) _ h5 in
    let lcp =
      take (common_prefix_len (first_key_of keyed) (last_key_of keyed)) (first_key_of keyed) in
    let (u6, prefix, h7) = >>=-eq_ok (reject_if (not (list_eq l.portable_prefix lcp)) _) _ h6 in
    let (s, sum, h8) = >>=-eq_ok (from_codec (leaf_summary l)) _ h7 in
    let form : record {
      summary = s;
      first_key = first_key_of keyed;
      last_key = last_key_of keyed;
      maximum_relative_depth = 0;
    }
        ≡ info =
      cc h8 in
    (
      from_codec-eq_ok _ canonical c
          ∙ ap ok (list_eq→eq canonical stored (not-false _ (reject_if-eq_ok _ _ same))),
      from_codec-eq_ok _ s sum ∙ ap (λ (i : ValidationInfo). ok i.summary) form,
      (
        keyed,
        k,
        (validate_ordered_keys_iff keyed).0 ordered,
        keys_start l.portable_prefix keyed ordered
            (list_eq→eq _ _ (not-false _ (reject_if-eq_ok _ _ prefix))),
      ),
    )
