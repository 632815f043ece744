-- ===== src/Manifest/Tree/Lookup.antt =====
-- A lookup in a manifest that was built finds what a search of the given entries finds.
use check_po.Prelude.{
  ℕ, suc, ◌≡◌, refl, sym, ap, subst, ◌∙◌, Bool, false, Option, none, some, List, [], ◌∷◌,
  append-nil, arith, length, list_eq, All,
}
use check_po.Prelude.Result.{ok, err, ◌>>=◌, >>=-eq_ok}
use check_po.Prelude.Text.Utf8.{IsText}
use check_po.Codec.{Digest32, empty_summary, IsArray}
use check_po.Codec.Chunk.Values.{IsEntryValue}
use check_po.Manifest.{
  SnapshotV2Result, ManifestEntry, KeyedEntry, leaf_of_entry, portable_path_key_v1,
  validate_ordered_keys, summary_prefixes,
}
use check_po.Manifest.Keys.{validate_ordered_keys_iff}
use check_po.Manifest.Build.{max_manifest_depth, build_range}
use check_po.Manifest.Tree.{
  BuiltManifest, no_manifest, load_manifest_chunk, sort_keyed, keyed_entries, build_sorted,
  build_manifest_with_leaf_target, in_root, lookup_manifest_entry,
}
use check_po.Manifest.Tree.Sorted.{either, find_key, find_key-sort_keyed, All-sort_keyed}
use check_po.Manifest.Tree.Nodes.{Good}
use check_po.Manifest.Tree.Found.{build_range-Builds}
use check_po.Manifest.Tree.Ranges.{summary_prefixes-IsSummary}
use check_po.Manifest.Tree.Texts.{portable_path_key_v1-IsByte}

abbrev pub has_key : List ℕ → SnapshotV2Result (List ℕ) → Bool
has_key key (ok k) = list_eq k key
has_key key (err e) = false

abbrev pub EntryValues : List ManifestEntry → Type 0
EntryValues = All (λ e. IsEntryValue (leaf_of_entry e))

module _ (nfc : List ℕ → List ℕ) (to_lowercase : ℕ → ℕ × ℕ) where
  -- The first entry whose path has the key, from the front.
  abbrev pub entry_with : List ℕ → List ManifestEntry → Option ManifestEntry
  entry_with key [] = none
  entry_with key (e ∷ entries) =
      either (has_key key (portable_path_key_v1 nfc to_lowercase e.exact_path)) (some e)
        (entry_with key entries)

  keyed_entries-Good :
      ((s : List ℕ) → IsText s → IsText (nfc s))
      → (key : List ℕ) (entries : List ManifestEntry) (keyed : List KeyedEntry)
      → EntryValues entries
      → keyed_entries nfc to_lowercase entries ≡ ok keyed
      → All (Good nfc to_lowercase) keyed × (find_key key keyed ≡ entry_with key entries)
  unfolding keyed_entries
  keyed_entries-Good texts key [] keyed values h =
      let e : [] ≡ keyed = cc h in
      subst (λ k. All (Good nfc to_lowercase) k × (find_key key k ≡ none)) e (tt, refl)
  keyed_entries-Good texts key (first ∷ entries) keyed values h =
      let (k, e1, h1) = >>=-eq_ok (portable_path_key_v1 nfc to_lowercase first.exact_path) _ h in
      let (rest, e2, h2) = >>=-eq_ok (keyed_entries nfc to_lowercase entries) _ h1 in
      let one : KeyedEntry = record { key = k; entry = first } in
      let e : one ∷ rest ≡ keyed = cc h2 in
      let (goods, finds) = keyed_entries-Good texts key entries rest values.1 e2 in
      subst
        (λ k. All (Good nfc to_lowercase) k × (find_key key k ≡ entry_with key (first ∷ entries))) e
        (
          (
            (
              e1,
              values.0,
              portable_path_key_v1-IsByte nfc to_lowercase texts first.exact_path k values.0.path
                  e1,
            ),
            goods,
          ),
          rw e1 (ap (either (list_eq k key) (some first)) finds),
        )

  module _ (hash : List ℕ → Digest32) (digest : (bs : List ℕ) → IsArray 32 (hash bs))
      (key : List ℕ) where
    sorted-find :
        (sorted : List KeyedEntry) (target : ℕ) (m : BuiltManifest)
        → All (Good nfc to_lowercase) sorted
        → build_sorted nfc to_lowercase hash sorted target ≡ ok m
        → in_root nfc to_lowercase hash (load_manifest_chunk m.chunks) key m.root
          ≡ ok (find_key key sorted)
    sorted-find sorted target m good h =
        let (u, ordered, h1) = >>=-eq_ok (validate_ordered_keys sorted) _ h in
        let (prefixes, e2, h2) = >>=-eq_ok (summary_prefixes empty_summary sorted) _ h1 in
        let (built, e3, h3) =
          >>=-eq_ok
            (build_range hash (suc max_manifest_depth) sorted prefixes target 0 (length sorted) [])
            _ h2 in
        let found : BuiltManifest = record {
          root = some built.0.reference;
          summary = built.0.summary;
          chunks = built.1;
        } in
        let same : found ≡ m = cc h3 in
        let sums =
          summary_prefixes-IsSummary empty_summary sorted prefixes
            (omega arith, omega arith, omega arith) e2 in
        let ((id, fits, finds), kept) =
          build_range-Builds nfc to_lowercase hash digest key sorted prefixes sums target
            (suc max_manifest_depth) [] sorted [] 0 (length sorted) [] built
            (sym (append-nil sorted)) refl (omega arith) good
            ((validate_ordered_keys_iff sorted).0 ordered) e3 in
        subst
          (λ (m : BuiltManifest).
            in_root nfc to_lowercase hash (load_manifest_chunk m.chunks) key m.root
            ≡ ok (find_key key sorted))
          same (finds built.1 (λ p v k. k))

  -- If the entries hold values of their types, normal forms of texts are texts and hashes are 32
  -- bytes, then, whatever size leaves are to have: once building the manifest succeeds, a lookup of
  -- any path that has a portable key, in the chunks that were built, gives the first of the entries
  -- whose path has this key, and none when no entry has it.
  pub lookup_manifest_entry-build_manifest :
      (hash : List ℕ → Digest32)
      → ((s : List ℕ) → IsText s → IsText (nfc s))
      → ((bs : List ℕ) → IsArray 32 (hash bs))
      → (entries : List ManifestEntry) (target : ℕ) (m : BuiltManifest) (path key : List ℕ)
      → EntryValues entries
      → build_manifest_with_leaf_target nfc to_lowercase hash entries target ≡ ok m
      → portable_path_key_v1 nfc to_lowercase path ≡ ok key
      → lookup_manifest_entry nfc to_lowercase hash (load_manifest_chunk m.chunks) m.root path
        ≡ ok (entry_with key entries)
  unfolding build_manifest_with_leaf_target lookup_manifest_entry
  lookup_manifest_entry-build_manifest hash texts digest [] target m path key values h k =
      let e : no_manifest ≡ m = cc h in
      subst
        (λ (m : BuiltManifest).
          (portable_path_key_v1 nfc to_lowercase path >>= λ key.
          in_root nfc to_lowercase hash (load_manifest_chunk m.chunks) key m.root)
          ≡ ok none)
        e (rw k refl)
  lookup_manifest_entry-build_manifest hash texts digest (first ∷ entries) target m path key values
        h k =
      let (keyed, e1, h1) = >>=-eq_ok (keyed_entries nfc to_lowercase (first ∷ entries)) _ h in
      let (goods, finds) = keyed_entries-Good texts key (first ∷ entries) keyed values e1 in
      rw k (
        sorted-find hash digest key (sort_keyed keyed) target m
          (All-sort_keyed (Good nfc to_lowercase) keyed goods) h1
        ∙ ap ok (find_key-sort_keyed key keyed ∙ finds))
