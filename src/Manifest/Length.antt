-- ===== src/Manifest/Length.antt =====
-- `leaf_encoded_len` is the length of what `encode_leaf` writes.
use check_po.Prelude.{
  ℕ, ◌+◌, ◌*◌, ◌^◌, ◌≤◌, ◌<◌, ◌≡◌, ap, ◌∙◌, List, [], ◌∷◌, arith, length, length-append, All,
}
use check_po.Prelude.Result.{ok, >>=-eq_ok}
use check_po.Prelude.Bytes.{length-to_be_bytes}
use check_po.Prelude.Text.Utf8.{as_bytes}
use check_po.Codec.{
  leaf, ManifestSummary, LeafEntry, ManifestLeaf, leaf_summary, add_entries, leaf_entry_summary,
  checked_add, empty_summary, maximum_stored_len,
}
use check_po.Codec.Layout.{entry_bytes, leaf_bytes, items_bytes}
use check_po.Codec.Reader.Values.{IsEntry}
use check_po.Codec.Chunk.{encode_leaf}
use check_po.Codec.Chunk.Envelope.{framed, length-framed}
use check_po.Codec.Chunk.Values.{IsLeafValue}
use check_po.Codec.Chunk.RoundTrip.{encode_leaf-IsLeaf}
use check_po.Manifest.{leaf_encoded_len}

length-entry_bytes :
    (e : LeafEntry)
    → length e.object_id ≡ 32
    → length (entry_bytes e) ≡ 56 + length (as_bytes e.exact_path)
unfolding entry_bytes
length-entry_bytes e h = simp (length-append, length-to_be_bytes, arith) (omega (arith, h))

-- What one entry adds to a summary.
summary_step :
    (start next one : ManifestSummary) (e : LeafEntry)
    → leaf_entry_summary e ≡ ok one
    → checked_add start one ≡ ok next
    → (next.entry_count ≡ start.entry_count + 1)
      × (next.total_exact_path_bytes
          ≡ start.total_exact_path_bytes + length (as_bytes e.exact_path))
unfolding leaf_entry_summary checked_add
summary_step start next one e h k = ground arith

length-entries :
    (es : List LeafEntry) (start s : ManifestSummary)
    → All IsEntry es
    → add_entries start es ≡ ok s
    → length (items_bytes entry_bytes es) + 56 * start.entry_count + start.total_exact_path_bytes
      ≡ 56 * s.entry_count + s.total_exact_path_bytes
unfolding add_entries
length-entries [] start s v h =
    let same : start ≡ s = cc h in
    omega (
      arith,
      ap (λ (x : ManifestSummary). x.entry_count) same,
      ap (λ (x : ManifestSummary). x.total_exact_path_bytes) same,
    )
length-entries (e ∷ es) start s v h =
    let (one, e1, h1) = >>=-eq_ok (leaf_entry_summary e) _ h in
    let (next, e2, h2) = >>=-eq_ok (checked_add start one) _ h1 in
    let rest = length-entries es next s v.1 h2 in
    let (count, paths) = summary_step start next one e e1 e2 in
    omega (
      arith,
      rest,
      count,
      paths,
      length-entry_bytes e v.0.object.0,
      length-append (entry_bytes e) (items_bytes entry_bytes es),
    )

length-leaf_bytes :
    (l : ManifestLeaf) (s : ManifestSummary)
    → length (leaf_bytes l s)
      ≡ 34 + length l.portable_prefix + length (items_bytes entry_bytes l.entries)
unfolding leaf_bytes
length-leaf_bytes l s = simp (length-append, length-to_be_bytes, arith) (omega arith)

no_overflow :
    (prefix : List ℕ) (s : ManifestSummary)
    → 50 + length prefix + 56 * s.entry_count + s.total_exact_path_bytes < 2 ^ 64
    → leaf_encoded_len prefix s
      ≡ ok (50 + length prefix + 56 * s.entry_count + s.total_exact_path_bytes)
unfolding leaf_encoded_len
no_overflow prefix s h = ground arith

-- For a leaf that encodes, `leaf_encoded_len` of its prefix and its summary is the length of the
-- stored chunk, and none of its additions overflows.
pub leaf_encoded_len-encode_leaf :
    (l : ManifestLeaf) (stored : List ℕ) (s : ManifestSummary)
    → IsLeafValue l
    → encode_leaf l ≡ ok stored
    → leaf_summary l ≡ ok s
    → leaf_encoded_len l.portable_prefix s ≡ ok (length stored)
unfolding leaf_summary maximum_stored_len
leaf_encoded_len-encode_leaf l stored s value encodes sum =
    let (is_leaf, (s', sum', frame, fits)) = encode_leaf-IsLeaf l stored value encodes in
    let same : s' ≡ s = cc (sum, sum') in
    let total = length-entries l.entries empty_summary s is_leaf.entries sum in
    let payload : length (leaf_bytes l s)
        ≡ 34 + length l.portable_prefix + length (items_bytes entry_bytes l.entries) =
      length-leaf_bytes l s in
    let stored_len : length stored ≡ 16 + length (leaf_bytes l s) =
      ap length (frame ∙ ap (λ x. framed leaf (leaf_bytes l x)) same)
      ∙ length-framed leaf (leaf_bytes l s) in
    let bounded : 16 + length (leaf_bytes l s) ≤ 1024 * 1024 = rw same at fits in
    no_overflow l.portable_prefix s (omega (arith, total, payload, bounded))
    ∙ ap ok (omega (arith, total, payload, stored_len))
