-- ===== src/Path/Tracked.antt =====
-- Which texts are the paths of tracked files, described without the checks of `parse`.
use check_po.Prelude.{
  ℕ, ◌≤◌, ◌≡◌, refl, sym, ◌≢◌, ◌⊎◌, inl, inr, true, false, List, [], ◌∷◌, ◌++◌, arith, length, All,
  any_true, ltb, ◌==◌, list_eq, list_eq→eq,
}
use check_po.Prelude.Result.{ok, >>=-eq_ok}
use check_po.Prelude.Text.{codes, split, join, ends_with}
use check_po.Prelude.Text.Split.{join-split, split-All, any_true_false→All, ends_with_false→}
use check_po.Path.Device.{IsDevice}
use check_po.Path.Device.Reserved.{is_windows_reserved_name-eq_false}
use check_po.Path.{
  slash, is_nil, is_tracked_root, head_or, is_windows_reserved_name, is_windows_forbidden_character,
  check_segment, check_segments, parse,
}

-- Not below U+0020, and none of `/ \ : < > " | ? *`.
abbrev pub IsSafeChar : ℕ → Type 0
IsSafeChar c = (32 ≤ c) × All (λ x. c ≢ x) (codes "/\\:<>\"|?*")

-- Not empty, of safe characters, not ending in a space or a dot, and not a device's name.
pub record IsSafeSegment (s : List ℕ) : Type 0 where
  pub nonempty : s ≢ []
  pub chars : All IsSafeChar s
  pub no_space : (p : List ℕ) → s ≢ p ++ codes " "
  pub no_dot : (p : List ℕ) → s ≢ p ++ codes "."
  pub no_device : ¬ IsDevice s

abbrev pub IsTrackedRoot : List ℕ → Type 0
IsTrackedRoot s = (s ≡ codes "Assets") ⊎ ((s ≡ codes "Packages") ⊎ (s ≡ codes "ProjectSettings"))

-- A tracked folder, a segment and perhaps more of them, joined by slashes.
pub record IsTracked (path : List ℕ) : Type 0 where
  pub folder : List ℕ
  pub name : List ℕ
  pub rest : List (List ℕ)
  pub form : path ≡ join slash (folder ∷ name ∷ rest)
  pub tracked : IsTrackedRoot folder
  pub safe : All IsSafeSegment (folder ∷ name ∷ rest)

-- The characters that the first checks leave, and those that the segments' check leaves.
char_of_checks :
    (c : ℕ)
    → (c == 92) ≡ false
    → (c == 58) ≡ false
    → c ≢ slash
    → is_windows_forbidden_character c ≡ false
    → IsSafeChar c
unfolding is_windows_forbidden_character
char_of_checks c a b d e = ground arith

pub checks_of_char :
    (c : ℕ)
    → IsSafeChar c
    → ((c == 92) ≡ false)
      × ((c == 58) ≡ false)
      × (c ≢ slash)
      × (is_windows_forbidden_character c ≡ false)
unfolding is_windows_forbidden_character
checks_of_char c h = ground arith

-- What the guards of the loop's body leave.
record Checked (s : List ℕ) : Type 0 where
  nonempty : is_nil s ≡ false
  no_space : ends_with 32 s ≡ false
  no_dot : ends_with 46 s ≡ false
  allowed : any_true is_windows_forbidden_character s ≡ false
  no_device : is_windows_reserved_name s ≡ false

check_segment-Checked : (input s : List ℕ) {u : Unit {0}} → check_segment input s ≡ ok u → Checked s
unfolding check_segment
check_segment-Checked input s h = ground arith

is_nil-false : (s : List ℕ) → is_nil s ≡ false → s ≢ []
is_nil-false s h e = absurd (cc (rw e at h))

pub is_nil_of : (s : List ℕ) → s ≢ [] → is_nil s ≡ false
is_nil_of [] h = absurd (h refl)
is_nil_of (c ∷ s) h = refl

-- The characters of a segment of an input without a backslash or a colon.
abbrev Plain : ℕ → Type 0
Plain c = ((c == 92) ≡ false) × ((c == 58) ≡ false)

safe_chars :
    (s : List ℕ)
    → All (λ c. Plain c × (c ≢ slash)) s
    → All (λ c. is_windows_forbidden_character c ≡ false) s
    → All IsSafeChar s
safe_chars [] p h = tt
safe_chars (c ∷ s) p h = (char_of_checks c p.0.0.0 p.0.0.1 p.0.1 h.0, safe_chars s p.1 h.1)

Checked-IsSafeSegment :
    (s : List ℕ) → All (λ c. Plain c × (c ≢ slash)) s → Checked s → IsSafeSegment s
Checked-IsSafeSegment s plain c = record {
  nonempty = is_nil-false s c.nonempty;
  chars = safe_chars s plain (any_true_false→All is_windows_forbidden_character s c.allowed);
  no_space = ends_with_false→ 32 s c.no_space;
  no_dot = ends_with_false→ 46 s c.no_dot;
  no_device = (is_windows_reserved_name-eq_false s).0 c.no_device;
}

check_segments-safe :
    (input : List ℕ) (segments : List (List ℕ))
    → All (All (λ c. Plain c × (c ≢ slash))) segments
    → check_segments input segments ≡ ok tt
    → All IsSafeSegment segments
unfolding check_segments
check_segments-safe input [] plain h = tt
check_segments-safe input (s ∷ segments) plain h =
    let (u, first, others) = >>=-eq_ok (check_segment input s) _ h in
    (
      Checked-IsSafeSegment s plain.0 (check_segment-Checked input s first),
      check_segments-safe input segments plain.1 others,
    )

tracked_root : (s : List ℕ) → is_tracked_root s ≡ true → IsTrackedRoot s
tracked_root s h = ground (
  arith,
  list_eq→eq s (codes "Assets"),
  list_eq→eq s (codes "Packages"),
  list_eq→eq s (codes "ProjectSettings"),
)

pub root_tracked : (s : List ℕ) → IsTrackedRoot s → is_tracked_root s ≡ true
unfolding list_eq
root_tracked s (inl e) = rw e refl
root_tracked s (inr (inl e)) = rw e refl
root_tracked s (inr (inr e)) = rw e refl

-- What the guards before the loop leave.
record Opened (input : List ℕ) : Type 0 where
  no_backslash : any_true (λ c. c == 92) input ≡ false
  no_colon : any_true (λ c. c == 58) input ≡ false
  two_segments : ltb (length (split slash input)) 2 ≡ false
  in_scope : is_tracked_root (head_or (split slash input)) ≡ true
  loop : check_segments input (split slash input) ≡ ok tt

parse-Opened : (input path : List ℕ) → parse input ≡ ok path → Opened input × (path ≡ input)
unfolding parse
parse-Opened input path h = ground arith

Plain-chars :
    (s : List ℕ) → All (λ c. (c == 92) ≡ false) s → All (λ c. (c == 58) ≡ false) s → All Plain s
Plain-chars [] a b = tt
Plain-chars (c ∷ s) a b = ((a.0, b.0), Plain-chars s a.1 b.1)

IsTracked-of :
    (input : List ℕ) (segments : List (List ℕ))
    → input ≡ join slash segments
    → ltb (length segments) 2 ≡ false
    → is_tracked_root (head_or segments) ≡ true
    → All IsSafeSegment segments
    → IsTracked input
IsTracked-of input [] form two scope safe = absurd (cc two)
IsTracked-of input (s ∷ []) form two scope safe = absurd (cc two)
IsTracked-of input (folder ∷ name ∷ rest) form two scope safe = record {
  folder = folder;
  name = name;
  rest = rest;
  form = form;
  tracked = tracked_root folder scope;
  safe = safe;
}

-- What parses is the path of a tracked file, and the result is the input.
pub parse-IsTracked :
    (input path : List ℕ) → parse input ≡ ok path → IsTracked input × (path ≡ input)
parse-IsTracked input path h =
    let (opened, same) = parse-Opened input path h in
    let plain =
      Plain-chars input (any_true_false→All _ input opened.no_backslash)
        (any_true_false→All _ input opened.no_colon) in
    (
      IsTracked-of input (split slash input) (sym (join-split slash input)) opened.two_segments
          opened.in_scope
          (check_segments-safe input (split slash input) (split-All Plain slash input plain)
            opened.loop),
      same,
    )
