-- ===== src/Path/Accepts.antt =====
-- Every path of a tracked file parses.
use check_po.Prelude.{
  ℕ, ◌≡◌, refl, sym, ap, ◌∙◌, subst, ◌≢◌, ◌↔◌, inl, inr, false, ◌||◌, List, [], ◌∷◌, ◌++◌, arith,
  length, All, ltb-eq_false, ◌==◌, list_eq, list_eq→eq, Bool-cases,
}
use check_po.Prelude.Result.{ok}
use check_po.Prelude.Text.{codes, split, join, ends_with}
use check_po.Prelude.Text.Split.{
  Apart, is_cons, split-join, join-All, All→any_true_false, →ends_with_false,
}
use check_po.Path.{
  slash, is_nil, is_absolute, is_windows_forbidden_character, check_segment, check_segments, parse,
}
use check_po.Path.Device.Reserved.{is_windows_reserved_name-eq_false}
use check_po.Path.Tracked.{
  IsSafeChar, IsSafeSegment, IsTracked, checks_of_char, is_nil_of, root_tracked, parse-IsTracked,
}

allowed : (s : List ℕ) → All IsSafeChar s → All (λ c. is_windows_forbidden_character c ≡ false) s
allowed [] h = tt
allowed (c ∷ s) h = ((checks_of_char c h.0).3, allowed s h.1)

apart : (s : List ℕ) → All IsSafeChar s → All (λ c. c ≢ slash) s
apart [] h = tt
apart (c ∷ s) h = ((checks_of_char c h.0).2, apart s h.1)

no_backslash : (s : List ℕ) → All IsSafeChar s → All (λ c. (c == 92) ≡ false) s
no_backslash [] h = tt
no_backslash (c ∷ s) h = ((checks_of_char c h.0).0, no_backslash s h.1)

no_colon : (s : List ℕ) → All IsSafeChar s → All (λ c. (c == 58) ≡ false) s
no_colon [] h = tt
no_colon (c ∷ s) h = ((checks_of_char c h.0).1, no_colon s h.1)

-- A text that does not end with a dot is neither one dot nor two.
not_dots :
    (s : List ℕ)
    → ends_with 46 s ≡ false
    → (list_eq s (codes ".") || list_eq s (codes "..")) ≡ false
unfolding ends_with list_eq
not_dots s h = elim (Bool-cases (list_eq s (codes "."))) [
  | inl e ↦ absurd (cc (rw (list_eq→eq s (codes ".") e) at h))
  | inr e ↦ elim (Bool-cases (list_eq s (codes ".."))) [
    | inl e' ↦ absurd (cc (rw (list_eq→eq s (codes "..") e') at h))
    | inr e' ↦ rw (e, e')
  ]
]

check_segment-IsSafeSegment : (input s : List ℕ) → IsSafeSegment s → check_segment input s ≡ ok tt
unfolding check_segment
check_segment-IsSafeSegment input s h =
    let dot = →ends_with_false 46 s h.no_dot in
    rw (
      is_nil_of s h.nonempty,
      not_dots s dot,
      →ends_with_false 32 s h.no_space,
      dot,
      All→any_true_false is_windows_forbidden_character s (allowed s h.chars),
      (is_windows_reserved_name-eq_false s).1 h.no_device,
    )

check_segments-IsSafeSegment :
    (input : List ℕ) (segments : List (List ℕ))
    → All IsSafeSegment segments
    → check_segments input segments ≡ ok tt
unfolding check_segments
check_segments-IsSafeSegment input [] h = refl
check_segments-IsSafeSegment input (s ∷ segments) h =
    rw (check_segment-IsSafeSegment input s h.0) (check_segments-IsSafeSegment input segments h.1)

module _ {ℓ} (P : List ℕ → Type ℓ) where
  pub All-map :
      (segments : List (List ℕ))
      → ((s : List ℕ) → IsSafeSegment s → P s)
      → All IsSafeSegment segments
      → All P segments
  All-map [] f h = tt
  All-map (s ∷ segments) f h = (f s h.0, All-map segments f h.1)

pub split-join_tracked :
    (path : List ℕ) (t : IsTracked path) → split slash path ≡ t.folder ∷ t.name ∷ t.rest
split-join_tracked path t =
    ap (split slash) t.form
    ∙ split-join slash (t.folder ∷ t.name ∷ t.rest) is_cons
        (All-map (Apart slash) (t.folder ∷ t.name ∷ t.rest) (λ s h. apart s h.chars) t.safe)

-- The path of a tracked file starts with a character that is not a slash.
begins :
    (s rest : List ℕ)
    → IsSafeSegment s
    → (is_nil (s ++ rest) ≡ false) × (is_absolute (s ++ rest) ≡ false)
begins [] rest h = absurd (h.nonempty refl)
begins (c ∷ s) rest h = (refl, ground (arith, (checks_of_char c h.chars.0).2))

pub tracked_begins :
    (path : List ℕ) (t : IsTracked path) → (is_nil path ≡ false) × (is_absolute path ≡ false)
unfolding join
tracked_begins path t =
    subst (λ p. (is_nil p ≡ false) × (is_absolute p ≡ false)) (sym t.form)
      (begins t.folder _ t.safe.0)

path_chars :
    (P : ℕ → Type 0)
    → P slash
    → ((s : List ℕ) → All IsSafeChar s → All P s)
    → (path : List ℕ) → IsTracked path
    → All P path
path_chars P q f path t = subst (All P) (sym t.form) (
    join-All P slash (t.folder ∷ t.name ∷ t.rest) q
      (All-map (All P) (t.folder ∷ t.name ∷ t.rest) (λ s h. f s h.chars) t.safe))

-- The path of a tracked file parses, to itself.
pub parse-accepts : (path : List ℕ) → IsTracked path → parse path ≡ ok path
unfolding parse
parse-accepts path t = rw (
  (tracked_begins path t).0,
  All→any_true_false (λ c. c == 92) path
      (path_chars (λ c. (c == 92) ≡ false) refl no_backslash path t),
  All→any_true_false (λ c. c == 58) path (path_chars (λ c. (c == 58) ≡ false) refl no_colon path t),
  (tracked_begins path t).1,
  split-join_tracked path t,
  ltb-eq_false (length (t.folder ∷ t.name ∷ t.rest)) 2 (omega arith),
  root_tracked t.folder t.tracked,
  check_segments-IsSafeSegment path (t.folder ∷ t.name ∷ t.rest) t.safe,
)

-- A text parses, and the result is then the text itself, exactly when it is `Assets`, `Packages` or
-- `ProjectSettings` and one or more further segments, joined by slashes, where no segment is empty,
-- holds a character below U+0020 or one of `/ \ : < > " | ? *`, ends with a space or a dot, or is a
-- device's name: one whose part before the first dot is, in letters of either case, CON, PRN, AUX,
-- NUL, CONIN$, CONOUT$, or COM or LPT with a digit from 1 to 9 or a superscript 1, 2 or 3.
pub parse_iff : (input path : List ℕ) → (parse input ≡ ok path) ↔ (IsTracked input × (path ≡ input))
parse_iff input path = (parse-IsTracked input path, λ h. parse-accepts input h.0 ∙ ap ok (sym h.1))
