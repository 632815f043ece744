-- ===== src/Manifest/Ranges.antt =====
-- `range_summary` is the summary of the entries of a range.
use check_po.Prelude.{
  ℕ, zero, suc, ◌+◌, ◌-◌, ◌≤◌, ◌≡◌, refl, sym, ap, subst, ◌∙◌, some, List, [], ◌∷◌, arith, length,
  take, drop, get_elem?,
}
use check_po.Prelude.Result.{ok, >>=-eq_ok}
use check_po.Prelude.Text.Utf8.{as_bytes}
use check_po.Codec.{ManifestSummary, empty_summary, checked_add}
use check_po.Manifest.Sums.{total, plus, summary_eta, zero_plus}
use check_po.Manifest.{
  ManifestEntry, KeyedEntry, entry_summary, from_codec, summary_prefixes, checked_sub,
  range_summary,
}

next_is_sum :
    (last one next : ManifestSummary) (e : ManifestEntry)
    → entry_summary e ≡ ok one
    → from_codec (checked_add last one) ≡ ok next
    → (next.entry_count ≡ last.entry_count + 1)
      × (next.logical_size_bytes ≡ last.logical_size_bytes + e.size_bytes)
      × (next.total_exact_path_bytes ≡ last.total_exact_path_bytes + length (as_bytes e.exact_path))
unfolding entry_summary checked_add
next_is_sum last one next e h k = ground arith

prefix_at :
    (last : ManifestSummary) (es : List KeyedEntry) (ps : List ManifestSummary) (i : ℕ)
    → summary_prefixes last es ≡ ok ps
    → i ≤ length es
    → get_elem? ps i ≡ some (plus last (total (take i es)))
unfolding summary_prefixes
prefix_at last [] ps zero h b =
    let e : last ∷ [] ≡ ps = cc h in
    subst (λ xs. get_elem? xs 0 ≡ some (plus last empty_summary)) e
      (ap some (summary_eta _ _ (omega arith) (omega arith) (omega arith)))
prefix_at last [] ps (suc i) h b = absurd (omega arith)
prefix_at last (e ∷ es) ps i h b =
    let (one, e1, h1) = >>=-eq_ok (entry_summary e.entry) _ h in
    let (next, e2, h2) = >>=-eq_ok (from_codec (checked_add last one)) _ h1 in
    let (rest, e3, h3) = >>=-eq_ok (summary_prefixes next es) _ h2 in
    let form : last ∷ rest ≡ ps = cc h3 in
    subst (λ xs. get_elem? xs i ≡ some (plus last (total (take i (e ∷ es))))) form
      (by i b next rest (next_is_sum last one next e.entry e1 e2)
        (λ j c. prefix_at next es rest j e3 c))
  where
    by :
        (i : ℕ)
        → i ≤ length (e ∷ es)
        → (next : ManifestSummary) (rest : List ManifestSummary)
        → (next.entry_count ≡ last.entry_count + 1)
          × (next.logical_size_bytes ≡ last.logical_size_bytes + e.entry.size_bytes)
          × (next.total_exact_path_bytes
              ≡ last.total_exact_path_bytes + length (as_bytes e.entry.exact_path))
        → ((j : ℕ) → j ≤ length es → get_elem? rest j ≡ some (plus next (total (take j es))))
        → get_elem? (last ∷ rest) i ≡ some (plus last (total (take i (e ∷ es))))
    by zero b next rest s f = ap some (summary_eta _ _ (omega arith) (omega arith) (omega arith))
    by (suc i) b next rest s f =
        f i (omega arith)
        ∙ ap some (summary_eta _ _ (omega (arith, s.0)) (omega (arith, s.1)) (omega (arith, s.2)))

take_nil : (n : ℕ) → take {A = KeyedEntry} n [] ≡ []
take_nil zero = refl
take_nil (suc n) = refl

total_split :
    (i j : ℕ) (es : List KeyedEntry)
    → i ≤ j
    → total (take j es) ≡ plus (total (take i es)) (total (take (j - i) (drop i es)))
total_split zero j es h =
    let e : j - 0 ≡ j = omega arith in
    rw e (summary_eta _ _ (omega arith) (omega arith) (omega arith))
total_split (suc i) zero es h = absurd (omega arith)
total_split (suc i) (suc j) [] h =
    sym (ap (λ es. plus empty_summary (total es)) (take_nil (suc j - suc i)))
total_split (suc i) (suc j) (e ∷ es) h =
    let rest = total_split i j es (omega arith) in
    let n : suc j - suc i ≡ j - i = omega arith in
    rw n (
      summary_eta _ _ (omega (arith, ap (λ (s : ManifestSummary). s.entry_count) rest))
        (omega (arith, ap (λ (s : ManifestSummary). s.logical_size_bytes) rest))
        (omega (arith, ap (λ (s : ManifestSummary). s.total_exact_path_bytes) rest)))

subtracted :
    (before after rest : ManifestSummary) (ps : List ManifestSummary) (i j : ℕ)
    → get_elem? ps i ≡ some before
    → get_elem? ps j ≡ some after
    → after ≡ plus before rest
    → range_summary ps i j ≡ ok rest
unfolding range_summary
subtracted before after rest ps i j h k e = rw (
  h,
  k,
  e,
  back before.entry_count rest.entry_count,
  back before.logical_size_bytes rest.logical_size_bytes,
  back before.total_exact_path_bytes rest.total_exact_path_bytes,
)
  where
    back : (a b : ℕ) → checked_sub (a + b) a ≡ some b
    back a b = ground arith

-- If the sums of the entries' summaries do not overflow, then the summary of a range within them
-- is that of the range's entries: their number, the sum of their sizes and the bytes of their
-- paths.
pub range_summary-total :
    (es : List KeyedEntry) (ps : List ManifestSummary) (i j : ℕ)
    → summary_prefixes empty_summary es ≡ ok ps
    → i ≤ j
    → j ≤ length es
    → range_summary ps i j ≡ ok (total (take (j - i) (drop i es)))
range_summary-total es ps i j h low high =
    subtracted (plus empty_summary (total (take i es))) (plus empty_summary (total (take j es)))
      (total (take (j - i) (drop i es))) ps i j
      (prefix_at empty_summary es ps i h (omega (arith, low, high)))
      (prefix_at empty_summary es ps j h high)
      (zero_plus (total (take j es))
        ∙ total_split i j es low
        ∙ ap (λ x. plus x (total (take (j - i) (drop i es)))) (sym (zero_plus (total (take i es)))))
