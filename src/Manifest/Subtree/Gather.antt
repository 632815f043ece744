-- ===== src/Manifest/Subtree/Gather.antt =====
-- What the loop over the children of a node gathers.
use check_po.Prelude.{
  ℕ, suc, ◌≤◌, ◌<◌, ◌≡◌, refl, sym, ap, ◌∙◌, Bool, true, false, not, ◌||◌, Option, none, some, List,
  [], ◌∷◌, ◌++◌, arith, length, ◌==◌,
}
use check_po.Prelude.Result.{ok, reject_if, >>=-eq_ok, reject_if-eq_ok}
use check_po.Prelude.Map.{less, equal, greater, Comparison, compare_text}
use check_po.Codec.{ManifestSummary, ManifestChild, checked_add, summary_eq}
use check_po.Manifest.{
  KeyedEntry, invalid, child_summary_mismatch, edge_mismatch, ranges_unordered, from_codec,
  starts_with, edge_at, is_path_ancestor,
}
use check_po.Manifest.Keys.{IsLadder, Below, Below-is_path_ancestor}
use check_po.Manifest.Leaf.{ValidationInfo, first_key_of, last_key_of}
use check_po.Manifest.Sums.{total, plus, total-append, checked_add-plus}
use check_po.Manifest.Build.{max_manifest_depth}
use check_po.Manifest.Subtree.{
  saturating_add, max_of, Gathered, is_less, check_previous, get_or_insert, check_child,
}

abbrev pub first_of : List KeyedEntry → Option (List ℕ)
first_of [] = none
first_of (e ∷ es) = some e.key

abbrev pub last_of : List KeyedEntry → Option (List ℕ)
last_of [] = none
last_of (e ∷ es) = some (last_key_of (e ∷ es))

-- What was gathered are the first and the last key of the entries and their summary.
pub record IsGathered (range : List KeyedEntry) (g : Gathered) : Type 0 where
  pub first : g.first_key ≡ first_of range
  pub last : g.last_key ≡ last_of range
  pub ladder : IsLadder range
  pub summed : total range ≡ g.summary

IsLadder-join :
    (x : KeyedEntry) (front : List KeyedEntry) (y : KeyedEntry) (back : List KeyedEntry)
    → IsLadder (x ∷ front)
    → IsLadder (y ∷ back)
    → compare_text (last_key_of (x ∷ front)) y.key ≡ less
    → (Below (last_key_of (x ∷ front)) y.key → ⊥)
    → IsLadder ((x ∷ front) ++ (y ∷ back))
IsLadder-join x [] y back f b l n = (l, n, b)
IsLadder-join x (z ∷ front) y back f b l n = (f.0, f.1, IsLadder-join z front y back f.2 b l n)

pub last_key_of-append :
    (x : KeyedEntry) (front : List KeyedEntry) (y : KeyedEntry) (back : List KeyedEntry)
    → last_key_of ((x ∷ front) ++ (y ∷ back)) ≡ last_key_of (y ∷ back)
last_key_of-append x [] y back = refl
last_key_of-append x (z ∷ front) y back = last_key_of-append z front y back

is_less-eq_true : (k : Comparison) → not (is_less k) ≡ false → k ≡ less
is_less-eq_true less h = refl
is_less-eq_true equal h = absurd (cc h)
is_less-eq_true greater h = absurd (cc h)

check_previous-eq_ok :
    (previous first : List ℕ)
    → check_previous (some previous) first ≡ ok tt
    → (compare_text previous first ≡ less) × (Below previous first → ⊥)
check_previous-eq_ok previous first h =
    let (u, order, apart) =
      >>=-eq_ok (reject_if (not (is_less (compare_text previous first))) (invalid ranges_unordered))
        _ h in
    (
      is_less-eq_true (compare_text previous first) (reject_if-eq_ok _ _ order),
      λ below.
          let no : true ≡ false =
            sym (Below-is_path_ancestor previous below.0)
            ∙ ap (is_path_ancestor previous) (sym below.1)
            ∙ reject_if-eq_ok _ _ apart in
          cc no,
    )

sums :
    (range part : List KeyedEntry) (g : Gathered) (info : ValidationInfo) (sum : ManifestSummary)
    → total range ≡ g.summary
    → total part ≡ info.summary
    → plus g.summary info.summary ≡ sum
    → total (range ++ part) ≡ sum
sums range part g info sum a b c =
    total-append range part ∙ ap (λ s. plus s (total part)) a ∙ ap (plus g.summary) b ∙ c

-- The entries of the next child go on where those so far end.
pub IsGathered-next :
    (range part : List KeyedEntry) (g : Gathered) (info : ValidationInfo) (sum : ManifestSummary)
    (depth : ℕ)
    → IsGathered range g
    → IsLadder part
    → 1 ≤ length part
    → first_key_of part ≡ info.first_key
    → last_key_of part ≡ info.last_key
    → check_previous g.last_key info.first_key ≡ ok tt
    → total part ≡ info.summary
    → plus g.summary info.summary ≡ sum
    → IsGathered (range ++ part) (record {
      first_key = get_or_insert g.first_key info.first_key;
      last_key = some info.last_key;
      summary = sum;
      maximum_relative_depth = depth;
    })
IsGathered-next range [] g info sum depth is ladder filled first last h s k = absurd (omega arith)
IsGathered-next [] (y ∷ part) g info sum depth is ladder filled first last h s k = record {
  first = rw (is.first) (ap some (sym first));
  last = ap some (sym last);
  ladder = ladder;
  summed = sums [] (y ∷ part) g info sum is.summed s k;
}
IsGathered-next (x ∷ range) (y ∷ part) g info sum depth is ladder filled first last h s k =
    let (order, apart) = check_previous-eq_ok (last_key_of (x ∷ range)) y.key (
      ap (check_previous (some (last_key_of (x ∷ range)))) first
      ∙ (ap (λ o. check_previous o info.first_key) (sym is.last) ∙ h)) in
    record {
      first = rw (is.first) refl;
      last = ap some (sym last ∙ sym (last_key_of-append x range y part));
      ladder = IsLadder-join x range y part is.ladder ladder order apart;
      summed = sums (x ∷ range) (y ∷ part) g info sum is.summed s k;
    }

two_true : (a b c : Bool) → (not a || not b || not c) ≡ false → (b ≡ true) × (c ≡ true)
two_true a b c h = ground arith

same_number : (a b : ℕ) → (a == b) ≡ true → a ≡ b
same_number a b h = ground arith

-- What a child that passes its checks adds.
pub check_child-eq_ok :
    (prefix : List ℕ) (c : ManifestChild) (info : ValidationInfo) (g g' : Gathered)
    → check_child prefix c info g ≡ ok g'
    → (edge_at info.first_key (length prefix) ≡ c.edge)
      × (edge_at info.last_key (length prefix) ≡ c.edge)
      × (check_previous g.last_key info.first_key ≡ ok tt)
      × ((sum : ManifestSummary) × (plus g.summary info.summary ≡ sum)
          × (record {
            first_key = get_or_insert g.first_key info.first_key;
            last_key = some info.last_key;
            summary = sum;
            maximum_relative_depth =
                max_of g.maximum_relative_depth (saturating_add info.maximum_relative_depth 1);
          }
              ≡ g'))
unfolding check_child
check_child-eq_ok prefix c info g g' h =
    let (u, same, h1) =
      >>=-eq_ok
        (reject_if (not (summary_eq info.summary c.summary)) (invalid child_summary_mismatch)) _
        h in
    let (u', edges, h2) =
      >>=-eq_ok
        (reject_if
          (not (starts_with info.first_key prefix)
            || not (edge_at info.first_key (length prefix) == c.edge)
            || not (edge_at info.last_key (length prefix) == c.edge))
          (invalid edge_mismatch))
        _ h1 in
    let (u'', before, h3) = >>=-eq_ok (check_previous g.last_key info.first_key) _ h2 in
    let (sum, added, h4) = >>=-eq_ok (from_codec (checked_add g.summary info.summary)) _ h3 in
    let (f, l) = two_true _ _ _ (reject_if-eq_ok _ _ edges) in
    (
      same_number _ _ f,
      same_number _ _ l,
      before,
      (sum, checked_add-plus g.summary info.summary sum added, cc h4),
    )

pub saturating_add-suc : (m d : ℕ) → m < d → d ≤ suc max_manifest_depth → saturating_add m 1 ≡ suc m
unfolding saturating_add
saturating_add-suc m d h k = ground arith

pub max_of-bounds :
    (a b d : ℕ) → a ≤ d → b ≤ d → (a ≤ max_of a b) × (b ≤ max_of a b) × (max_of a b ≤ d)
max_of-bounds a b d h k = ground arith
