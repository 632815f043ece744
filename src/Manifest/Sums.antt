-- ===== src/Manifest/Sums.antt =====
-- The summary of entries, as a sum of numbers.
use check_po.Prelude.{◌+◌, ◌≡◌, sym, ap, ◌∙◌, List, [], ◌∷◌, ◌++◌, arith, length}
use check_po.Prelude.Result.{ok, >>=-eq_ok}
use check_po.Prelude.Text.Utf8.{as_bytes}
use check_po.Codec.{
  ManifestSummary, empty_summary, checked_add, LeafEntry, ManifestLeaf, leaf_entry_summary,
  add_entries, leaf_summary,
}
use check_po.Manifest.{ManifestEntry, KeyedEntry, leaf_of_entry, from_codec}
use check_po.Manifest.Build.{leaf_entries}

-- The summary of entries as numbers, without overflow.
abbrev pub total : List KeyedEntry → ManifestSummary
total [] = empty_summary
total (e ∷ es) = record {
  entry_count = 1 + (total es).entry_count;
  logical_size_bytes = e.entry.size_bytes + (total es).logical_size_bytes;
  total_exact_path_bytes = length (as_bytes e.entry.exact_path) + (total es).total_exact_path_bytes;
}

abbrev pub plus : ManifestSummary → ManifestSummary → ManifestSummary
plus a b = record {
  entry_count = a.entry_count + b.entry_count;
  logical_size_bytes = a.logical_size_bytes + b.logical_size_bytes;
  total_exact_path_bytes = a.total_exact_path_bytes + b.total_exact_path_bytes;
}

pub summary_eta :
    (a b : ManifestSummary)
    → a.entry_count ≡ b.entry_count
    → a.logical_size_bytes ≡ b.logical_size_bytes
    → a.total_exact_path_bytes ≡ b.total_exact_path_bytes
    → a ≡ b
summary_eta a b h k l = cc (h, k, l)

pub zero_plus : (a : ManifestSummary) → plus empty_summary a ≡ a
zero_plus a = summary_eta _ _ (omega arith) (omega arith) (omega arith)

pub total-append :
    (front back : List KeyedEntry) → total (front ++ back) ≡ plus (total front) (total back)
total-append [] back = sym (zero_plus (total back))
total-append (e ∷ front) back =
    let rest = total-append front back in
    summary_eta _ _ (omega (arith, ap (λ (s : ManifestSummary). s.entry_count) rest))
      (omega (arith, ap (λ (s : ManifestSummary). s.logical_size_bytes) rest))
      (omega (arith, ap (λ (s : ManifestSummary). s.total_exact_path_bytes) rest))

-- An addition that does not overflow is one of numbers.
pub checked_add-plus :
    (a b c : ManifestSummary) → from_codec (checked_add a b) ≡ ok c → plus a b ≡ c
unfolding checked_add
checked_add-plus a b c h = ground arith

one_entry :
    (e : LeafEntry) (one : ManifestSummary)
    → leaf_entry_summary e ≡ ok one
    → record {
      entry_count = 1;
      logical_size_bytes = e.size_bytes;
      total_exact_path_bytes = length (as_bytes e.exact_path);
    }
      ≡ one
unfolding leaf_entry_summary
one_entry e one h = ground arith

add_entries-total :
    (start : ManifestSummary) (es : List KeyedEntry) (s : ManifestSummary)
    → add_entries start (leaf_entries es) ≡ ok s
    → plus start (total es) ≡ s
unfolding add_entries
add_entries-total start [] s h =
    let e : start ≡ s = cc h in summary_eta _ _ (omega arith) (omega arith) (omega arith) ∙ e
add_entries-total start (e ∷ es) s h =
    let (one, e1, h1) = >>=-eq_ok (leaf_entry_summary (leaf_of_entry e.entry)) _ h in
    let (next, e2, h2) = >>=-eq_ok (checked_add start one) _ h1 in
    let rest = add_entries-total next es s h2 in
    let step = checked_add-plus start one next (ap from_codec e2) in
    let is = one_entry (leaf_of_entry e.entry) one e1 in
    front start one next (total es) e.entry (step) is ∙ rest
  where
    front :
        (start one next rest : ManifestSummary) (x : ManifestEntry)
        → plus start one ≡ next
        → record {
          entry_count = 1;
          logical_size_bytes = x.size_bytes;
          total_exact_path_bytes = length (as_bytes x.exact_path);
        }
          ≡ one
        → plus start (record {
          entry_count = 1 + rest.entry_count;
          logical_size_bytes = x.size_bytes + rest.logical_size_bytes;
          total_exact_path_bytes = length (as_bytes x.exact_path) + rest.total_exact_path_bytes;
        })
          ≡ plus next rest
    front start one next rest x h k =
        let a = ap (λ (s : ManifestSummary). s.entry_count) h in
        let b = ap (λ (s : ManifestSummary). s.logical_size_bytes) h in
        let c = ap (λ (s : ManifestSummary). s.total_exact_path_bytes) h in
        let a' = ap (λ (s : ManifestSummary). s.entry_count) k in
        let b' = ap (λ (s : ManifestSummary). s.logical_size_bytes) k in
        let c' = ap (λ (s : ManifestSummary). s.total_exact_path_bytes) k in
        summary_eta _ _ (omega (arith, a, a')) (omega (arith, b, b')) (omega (arith, c, c'))

pub leaf_summary-total :
    (l : ManifestLeaf) (es : List KeyedEntry) (s : ManifestSummary)
    → leaf_entries es ≡ l.entries
    → leaf_summary l ≡ ok s
    → total es ≡ s
unfolding leaf_summary
leaf_summary-total l es s e h =
    sym (zero_plus (total es))
    ∙ add_entries-total empty_summary es s (ap (add_entries empty_summary) e ∙ h)
