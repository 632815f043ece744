-- ===== src/Manifest/Prefix.antt =====
-- What the keys of a range share: the prefix that `build_range` takes from its first and last key.
use check_po.Prelude.{
  ℕ, ◌≡◌, refl, ap, ◌≢◌, inl, inr, List, [], ◌∷◌, arith, take, All, ◌==◌, Bool-cases,
}
use check_po.Prelude.Map.{Comparison, less, greater, compare_text, compare_text_refl}
use check_po.Prelude.Map.Order.{compare_text_trans}
use check_po.Manifest.{KeyedEntry, common_prefix_len, validate_ordered_keys}
use check_po.Manifest.Keys.{IsLadder, validate_ordered_keys_iff}
use check_po.Prelude.Result.{ok}

heads :
    (x z y : ℕ) (a b c : List ℕ)
    → x ≡ y
    → compare_text (x ∷ a) (z ∷ b) ≢ greater
    → compare_text (z ∷ b) (y ∷ c) ≢ greater
    → (z ≡ x) × (compare_text a b ≢ greater) × (compare_text b c ≢ greater)
unfolding compare_text
heads x z y a b c e h k = ground arith

-- A key between two keys starts with what they share.
between :
    (a b c : List ℕ)
    → compare_text a b ≢ greater
    → compare_text b c ≢ greater
    → take (common_prefix_len a c) b ≡ take (common_prefix_len a c) a
unfolding common_prefix_len
between [] b c h k = refl
between (x ∷ a) b [] h k = refl
between (x ∷ a) [] (y ∷ c) h k = absurd (h (unfold compare_text in refl))
between (x ∷ a) (z ∷ b) (y ∷ c) h k = elim (Bool-cases (x == y)) [
  | inr e ↦ rw e
  | inl e ↦
      let same : x ≡ y = ground arith in
      let (head, left, right) = heads x z y a b c same h k in
      rw (e, head) (ap (λ t. x ∷ t) (between a b c left right))
]

abbrev pub last_of : KeyedEntry → List KeyedEntry → KeyedEntry
last_of first [] = first
last_of first (next ∷ entries) = last_of next entries

less_not_greater : (k : Comparison) → k ≡ less → k ≢ greater
less_not_greater k h e = absurd (cc (h, e))

equal_not_greater : (a : List ℕ) → compare_text a a ≢ greater
equal_not_greater a e = absurd (cc (e, compare_text_refl a))

last_above :
    (first next : KeyedEntry) (entries : List KeyedEntry)
    → IsLadder (first ∷ next ∷ entries)
    → compare_text first.key (last_of next entries).key ≡ less
last_above first next [] h = h.0
last_above first next (third ∷ entries) h =
    compare_text_trans first.key next.key (last_of third entries).key h.0
      (last_above next third entries h.2)

below_last :
    (first : KeyedEntry) (entries : List KeyedEntry)
    → IsLadder (first ∷ entries)
    → compare_text first.key (last_of first entries).key ≢ greater
below_last first [] h = equal_not_greater first.key
below_last first (next ∷ entries) h = less_not_greater _ (last_above first next entries h)

range_shares :
    (low : List ℕ) (next : KeyedEntry) (entries : List KeyedEntry)
    → compare_text low next.key ≡ less
    → IsLadder (next ∷ entries)
    → All
        (λ e.
          take (common_prefix_len low (last_of next entries).key) e.key
          ≡ take (common_prefix_len low (last_of next entries).key) low)
        (next ∷ entries)
range_shares low next [] h ladder =
    (between low next.key next.key (less_not_greater _ h) (equal_not_greater next.key), tt)
range_shares low next (third ∷ entries) h ladder = (
  between low next.key (last_of third entries).key (less_not_greater _ h)
      (less_not_greater _ (last_above next third entries ladder)),
  range_shares low third entries (compare_text_trans low next.key third.key h ladder.0) ladder.2,
)

-- In a list of entries that passes `validate_ordered_keys`, every key starts with the bytes that
-- the first and the last key share, as many as `common_prefix_len` counts.
pub range_prefix :
    (first : KeyedEntry) (entries : List KeyedEntry)
    → validate_ordered_keys (first ∷ entries) ≡ ok tt
    → All
        (λ e.
          take (common_prefix_len first.key (last_of first entries).key) e.key
          ≡ take (common_prefix_len first.key (last_of first entries).key) first.key)
        (first ∷ entries)
range_prefix first [] h = (refl, tt)
range_prefix first (next ∷ entries) h =
    let ladder = (validate_ordered_keys_iff (first ∷ next ∷ entries)).0 h in
    (refl, range_shares first.key next entries ladder.0 ladder.2)
