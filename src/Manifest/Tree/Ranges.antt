-- ===== src/Manifest/Tree/Ranges.antt =====
-- The range of a place in the entries: its entries, its summary and what its keys share.
use check_po.Prelude.{
  All-get_elem?, ℕ, ◌+◌, ◌≤◌, ◌≡◌, refl, sym, ap, subst, ◌∙◌, false, Option, none, some, List, [],
  ◌∷◌, ◌++◌, arith, length, length-append, append_assoc, take, get_elem?, ltb, ltb-eq_false, All,
}
use check_po.Prelude.Result.{ok, ok_or, >>=-eq_ok}
use check_po.Prelude.Slices.{take-append_at, drop-append_at}
use check_po.Codec.{ManifestSummary, IsSummary, checked_add}
use check_po.Codec.Chunk.Summaries.{checked_add-IsSummary}
use check_po.Manifest.{
  SnapshotV2Error, invalid, KeyedEntry, from_codec, common_prefix_len, entry_summary,
  summary_prefixes, checked_sub, range_summary, range_start, range_end, entries_not_monotonic,
  sizes_not_monotonic, paths_not_monotonic,
}
use check_po.Manifest.Keys.{IsLadder, validate_ordered_keys_iff}
use check_po.Manifest.Prefix.{range_prefix}
use check_po.Manifest.Leaf.{last_key_of}
use check_po.Manifest.Leaf.Loaded.{from_codec-eq_ok}
use check_po.Manifest.Leaf.Valid.{last_key_of-last_of}
use check_po.Manifest.Build.{range_of}

pub range_of-middle :
    (entries front part back : List KeyedEntry) (start end : ℕ)
    → entries ≡ front ++ (part ++ back)
    → start ≡ length front
    → end ≡ start + length part
    → range_of entries start end ≡ some part
range_of-middle entries front part back start end whole s e =
    let len : length entries ≡ length front + (length part + length back) =
      ap length whole
      ∙ length-append front (part ++ back)
      ∙ ap (λ n. length front + n) (length-append part back) in
    let first : ltb end start ≡ false = ltb-eq_false _ _ (omega (arith, e)) in
    let second : ltb (length entries) end ≡ false = ltb-eq_false _ _ (omega (arith, e, s, len)) in
    let cut : take end entries ≡ front ++ part =
      ap (take end) (whole ∙ sym (append_assoc front part back))
      ∙ take-append_at end (front ++ part) back (omega (arith, e, s, length-append front part)) in
    rw (first, second, cut, drop-append_at start front part (sym s)) refl

ok_or-eq_ok :
    {A : Type 0} (o : Option A) (a : A) (e : SnapshotV2Error) → ok_or o e ≡ ok a → o ≡ some a
ok_or-eq_ok none a e h = absurd (cc h)
ok_or-eq_ok (some x) a e h = let s : x ≡ a = cc h in ap some s

checked_sub-fits : (a b c : ℕ) → checked_sub a b ≡ some c → c ≤ a
checked_sub-fits a b c h = ground arith

pub range_summary-IsSummary :
    (ps : List ManifestSummary) (start end : ℕ) (s : ManifestSummary)
    → All IsSummary ps
    → range_summary ps start end ≡ ok s
    → IsSummary s
unfolding range_summary
range_summary-IsSummary ps start end s fits h =
    let (before, e1, h1) = >>=-eq_ok (ok_or (get_elem? ps start) (invalid range_start)) _ h in
    let (after, e2, h2) = >>=-eq_ok (ok_or (get_elem? ps end) (invalid range_end)) _ h1 in
    let (n, e3, h3) =
      >>=-eq_ok
        (ok_or (checked_sub after.entry_count before.entry_count) (invalid entries_not_monotonic)) _
        h2 in
    let (size, e4, h4) =
      >>=-eq_ok
        (ok_or (checked_sub after.logical_size_bytes before.logical_size_bytes)
          (invalid sizes_not_monotonic))
        _ h3 in
    let (paths, e5, h5) =
      >>=-eq_ok
        (ok_or (checked_sub after.total_exact_path_bytes before.total_exact_path_bytes)
          (invalid paths_not_monotonic))
        _ h4 in
    let is = All-get_elem? IsSummary ps end after fits (ok_or-eq_ok _ after _ e2) in
    let form : record { entry_count = n; logical_size_bytes = size; total_exact_path_bytes = paths }
        ≡ s =
      cc h5 in
    let l1 = checked_sub-fits after.entry_count before.entry_count n (ok_or-eq_ok _ n _ e3) in
    let l2 =
      checked_sub-fits after.logical_size_bytes before.logical_size_bytes size
        (ok_or-eq_ok _ size _ e4) in
    let l3 =
      checked_sub-fits after.total_exact_path_bytes before.total_exact_path_bytes paths
        (ok_or-eq_ok _ paths _ e5) in
    subst IsSummary form (omega (arith, is.0, l1), omega (arith, is.1, l2), omega (arith, is.2, l3))

pub summary_prefixes-IsSummary :
    (last : ManifestSummary) (keyed : List KeyedEntry) (ps : List ManifestSummary)
    → IsSummary last
    → summary_prefixes last keyed ≡ ok ps
    → All IsSummary ps
unfolding summary_prefixes
summary_prefixes-IsSummary last [] ps fits h =
    let e : last ∷ [] ≡ ps = cc h in subst (All IsSummary) e (fits, tt)
summary_prefixes-IsSummary last (e ∷ keyed) ps fits h =
    let (one, e1, h1) = >>=-eq_ok (entry_summary e.entry) _ h in
    let (next, e2, h2) = >>=-eq_ok (from_codec (checked_add last one)) _ h1 in
    let (rest, e3, h3) = >>=-eq_ok (summary_prefixes next keyed) _ h2 in
    let form : last ∷ rest ≡ ps = cc h3 in
    subst (All IsSummary) form (
      fits,
      summary_prefixes-IsSummary next keyed rest
          (checked_add-IsSummary last one next (from_codec-eq_ok _ next e2)) e3,
    )

-- The bytes that `build_range` takes from the first and the last key are a prefix of all keys.
pub prefix_len_fits : (a b : List ℕ) → common_prefix_len a b ≤ length a
unfolding common_prefix_len
prefix_len_fits [] b = omega arith
prefix_len_fits (x ∷ a) [] = omega arith
prefix_len_fits (x ∷ a) (y ∷ b) = ground (arith, prefix_len_fits a b)

pub shared_prefix :
    (first : KeyedEntry) (rest : List KeyedEntry)
    → IsLadder (first ∷ rest)
    → All
        (λ e.
          take (common_prefix_len first.key (last_key_of (first ∷ rest))) e.key
          ≡ take (common_prefix_len first.key (last_key_of (first ∷ rest))) first.key)
        (first ∷ rest)
shared_prefix first rest ladder =
    subst
      (λ k.
        All
          (λ e.
            take (common_prefix_len first.key k) e.key
            ≡ take (common_prefix_len first.key k) first.key)
          (first ∷ rest))
      (sym (last_key_of-last_of first rest))
      (range_prefix first rest ((validate_ordered_keys_iff (first ∷ rest)).1 ladder))
