-- ===== src/Manifest/Tree/Nodes.antt =====
-- A lookup in a leaf that was built finds what a search of its range finds.
use check_po.Prelude.{
  ℕ, zero, suc, ◌≤◌, ◌≡◌, refl, sym, ap, subst, ◌∙◌, some, List, [], ◌∷◌, arith, length, drop,
  get_or, All,
}
use check_po.Prelude.Result.{ok, ◌>>=◌, >>=-eq_ok}
use check_po.Prelude.Map.{get}
use check_po.Prelude.Bytes.{IsByte}
use check_po.Codec.{Digest32, leaf, ManifestSummary, ManifestLeaf, IsArray, IsSummary}
use check_po.Codec.Chunk.{encode_leaf}
use check_po.Codec.Chunk.Values.{IsEntryValue, IsLeafValue}
use check_po.Manifest.{KeyedEntry, leaf_of_entry, from_codec}
use check_po.Manifest.Keys.{IsLadder}
use check_po.Manifest.Leaf.Loaded.{from_codec-eq_ok}
use check_po.Manifest.Build.{Chunks, ref_key, insert_chunk, BuiltRange, leaf_entries, build_leaf}
use check_po.Manifest.Tree.{load_manifest_chunk, in_chunk, descend, search_leaf}
use check_po.Manifest.Tree.Sorted.{find_key}
use check_po.Manifest.Tree.Search.{HasKey, search_leaf-find}
use check_po.Manifest.Tree.Stored.{insert_chunk-stores, load_chunk-leaf}

-- What stands in the chunks stands in those of the end.
abbrev pub Kept : Chunks → Chunks → Type 0
Kept chunks final = (p v : List ℕ) → get p chunks ≡ some v → get p final ≡ some v

length-leaf_entries : (es : List KeyedEntry) → length (leaf_entries es) ≡ length es
length-leaf_entries [] = refl
length-leaf_entries (e ∷ es) = ap suc (length-leaf_entries es)

pub get_or-IsByte : (n : ℕ) (xs : List ℕ) → All IsByte xs → IsByte (get_or xs n 0)
get_or-IsByte n [] h = omega arith
get_or-IsByte zero (x ∷ xs) h = h.0
get_or-IsByte (suc n) (x ∷ xs) h = get_or-IsByte n xs h.1

module _ (nfc : List ℕ → List ℕ) (to_lowercase : ℕ → ℕ × ℕ) where
  -- The key is that of the path, in bytes, and the entry's values are those of its types.
  abbrev pub Good : KeyedEntry → Type 0
  Good e = HasKey nfc to_lowercase e × IsEntryValue (leaf_of_entry e.entry) × All IsByte e.key

  Good-HasKey : (es : List KeyedEntry) → All Good es → All (HasKey nfc to_lowercase) es
  Good-HasKey [] h = tt
  Good-HasKey (e ∷ es) h = (h.0.0, Good-HasKey es h.1)

  Good-IsEntryValue : (es : List KeyedEntry) → All Good es → All IsEntryValue (leaf_entries es)
  Good-IsEntryValue [] h = tt
  Good-IsEntryValue (e ∷ es) h = (h.0.1, Good-IsEntryValue es h.1)

  -- In all chunks that keep those built, the lookup finds what a search of the range finds.
  abbrev pub Found :
      (List ℕ → Digest32) → List ℕ → ℕ → List KeyedEntry → BuiltRange × Chunks → Type 0
  Found hash key depths range out =
      IsArray 32 out.0.reference.id
      × IsSummary out.0.summary
      × ((final : Chunks)
          → Kept out.1 final
          → descend nfc to_lowercase hash (load_manifest_chunk final) depths key out.0.reference
            ≡ ok (find_key key range))

  pub search_leaf-whole :
      (key : List ℕ) (range : List KeyedEntry)
      → All (HasKey nfc to_lowercase) range
      → IsLadder range
      → search_leaf nfc to_lowercase
          (length (leaf_entries range))
          (leaf_entries range)
          key
          0
          (length (leaf_entries range))
        ≡ ok (find_key key range)
  search_leaf-whole key range keys ladder =
      let n = length-leaf_entries range in
      search_leaf-find nfc to_lowercase key range (length (leaf_entries range)) 0
        (length (leaf_entries range)) keys ladder (omega arith) (omega (arith, n)) (omega arith) tt
        (subst (All _) (sym (nothing_over range (length (leaf_entries range)) (omega (arith, n))))
          tt)
    where
      nothing_over : (es : List KeyedEntry) (n : ℕ) → length es ≤ n → drop n es ≡ []
      nothing_over [] zero h = refl
      nothing_over [] (suc n) h = refl
      nothing_over (e ∷ es) zero h = absurd (omega arith)
      nothing_over (e ∷ es) (suc n) h = nothing_over es n (omega arith)

  pub build_leaf-Found :
      (hash : List ℕ → Digest32) (digest : (bs : List ℕ) → IsArray 32 (hash bs)) (key : List ℕ)
      (depths : ℕ) (prefix : List ℕ) (range : List KeyedEntry) (summary : ManifestSummary)
      (chunks : Chunks) (out : BuiltRange × Chunks)
      → All Good range
      → IsLadder range
      → All IsByte prefix
      → IsSummary summary
      → build_leaf hash prefix range summary chunks ≡ ok out
      → Found hash key (suc depths) range out
  unfolding descend
  build_leaf-Found hash digest key depths prefix range summary chunks out good ladder bytes sums h =
      let l : ManifestLeaf = record { portable_prefix = prefix; entries = leaf_entries range } in
      let (stored, e1, h1) = >>=-eq_ok (from_codec (encode_leaf l)) _ h in
      let (i, e2, h2) = >>=-eq_ok (insert_chunk hash leaf stored chunks) _ h1 in
      let built : BuiltRange = record { reference = i.0; summary = summary } in
      let same : (built, i.1) ≡ out = cc h2 in
      let (names, at) = insert_chunk-stores hash digest leaf stored chunks i e2 in
      let value : IsLeafValue l = record {
        prefix = bytes;
        entries = Good-IsEntryValue range good;
      } in
      subst (Found hash key (suc depths) range) same (
        names.1,
        sums,
        λ final kept.
            ap
              (λ c.
                c
                >>= in_chunk nfc to_lowercase
                    (descend nfc to_lowercase hash (load_manifest_chunk final) depths key) key)
              (load_chunk-leaf hash digest l stored i.0 final value (from_codec-eq_ok _ stored e1)
                names (kept (ref_key i.0) stored at))
            ∙ search_leaf-whole key range (Good-HasKey range good) ladder,
      )
