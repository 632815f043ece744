-- ===== src/Codec/Chunk/Summaries.antt =====
-- A summary that was computed without overflow is a sum, and its counters are u64s.
use check_po.Prelude.{◌≡◌, List, [], ◌∷◌, arith, true}
use check_po.Prelude.Result.{ok, >>=-eq_ok}
use check_po.Codec.{
  ManifestSummary, LeafEntry, ManifestLeaf, ManifestChild, ManifestNode, IsSummary, empty_summary,
  summary_eq, checked_add, leaf_entry_summary, add_entries, add_children, leaf_summary,
  node_summary,
}

pub summary_eq_refl : (s : ManifestSummary) → summary_eq s s ≡ true
summary_eq_refl s = ground arith

pub summary_eq→eq : (a b : ManifestSummary) → summary_eq a b ≡ true → a ≡ b
summary_eq→eq a b h = ground arith

pub checked_add-IsSummary : (a b s : ManifestSummary) → checked_add a b ≡ ok s → IsSummary s
unfolding checked_add
checked_add-IsSummary a b s h = ground arith

add_entries-IsSummary :
    (start : ManifestSummary) (es : List LeafEntry) (s : ManifestSummary)
    → IsSummary start
    → add_entries start es ≡ ok s
    → IsSummary s
unfolding add_entries
add_entries-IsSummary start [] s fits h = ground arith
add_entries-IsSummary start (e ∷ es) s fits h =
    let (one, e1, h1) = >>=-eq_ok (leaf_entry_summary e) _ h in
    let (next, e2, h2) = >>=-eq_ok (checked_add start one) _ h1 in
    add_entries-IsSummary next es s (checked_add-IsSummary start one next e2) h2

add_children-IsSummary :
    (start : ManifestSummary) (cs : List ManifestChild) (s : ManifestSummary)
    → IsSummary start
    → add_children start cs ≡ ok s
    → IsSummary s
unfolding add_children
add_children-IsSummary start [] s fits h = ground arith
add_children-IsSummary start (c ∷ cs) s fits h =
    let (next, e, h') = >>=-eq_ok (checked_add start c.summary) _ h in
    add_children-IsSummary next cs s (checked_add-IsSummary start c.summary next e) h'

pub leaf_summary-IsSummary :
    (l : ManifestLeaf) (s : ManifestSummary) → leaf_summary l ≡ ok s → IsSummary s
unfolding leaf_summary
leaf_summary-IsSummary l s h = add_entries-IsSummary empty_summary l.entries s (omega arith) h

pub node_summary-IsSummary :
    (n : ManifestNode) (s : ManifestSummary) → node_summary n ≡ ok s → IsSummary s
unfolding node_summary
node_summary-IsSummary n s h = add_children-IsSummary empty_summary n.children s (omega arith) h
