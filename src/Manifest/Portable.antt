-- ===== src/Manifest/Portable.antt =====
-- What has a portable key.
use check_po.Prelude.{
  ℕ, ◌≤◌, ◌≡◌, ◌≢◌, ◌⊎◌, ◌↔◌, ◌∙◌, refl, sym, subst, inl, inr, List, [], ◌∷◌, ◌++◌, arith, length,
  ltb, ltb_false→le, ltb-eq_false, ◌==◌, Bool-cases,
}
use check_po.Prelude.Result.{ok, err, reject_if, reject_if-eq_ok, >>=-eq_ok}
use check_po.Prelude.Text.Utf8.{as_bytes}
use check_po.Codec.{max_exact_path_bytes}
use check_po.Path.{PathResult, TrackedUnityFilePath, parse}
use check_po.Path.Tracked.{IsTracked, parse-IsTracked}
use check_po.Path.Accepts.{parse-accepts}
use check_po.Manifest.{check_path, scalar, lowered_char, lower, portable_path_key_v1}

parsed :
    (m : PathResult TrackedUnityFilePath) {u : Unit {0}}
    → check_path m ≡ ok u
    → (path : TrackedUnityFilePath) × (m ≡ ok path)
parsed (ok path) h = (path, refl)
parsed (err e) h = absurd (cc h)

-- A Unicode scalar value: a code point that is no surrogate.
abbrev pub IsScalar : ℕ → Type 0
IsScalar c = (c ≤ 0xd7ff) ⊎ ((0xe000 ≤ c) × (c ≤ 0x10ffff))

module _ (nfc : List ℕ → List ℕ) (to_lowercase : ℕ → ℕ × ℕ) where
  -- What a character becomes: itself if the table has nothing for it, or else what the table has
  -- before the first zero, which must be scalar values.
  pub data Becomes (c : ℕ) : List ℕ → Type 0 where
    itself : to_lowercase c ≡ (0, 0) → Becomes c (c ∷ [])
    removed : (b : ℕ) → to_lowercase c ≡ (0, b) → b ≢ 0 → Becomes c []
    one : (a : ℕ) → to_lowercase c ≡ (a, 0) → a ≢ 0 → IsScalar a → Becomes c (a ∷ [])
    two :
        (a b : ℕ)
        → to_lowercase c ≡ (a, b)
        → a ≢ 0
        → b ≢ 0
        → IsScalar a
        → IsScalar b
        → Becomes c (a ∷ b ∷ [])

  -- Character by character.
  pub data Lowers : List ℕ → List ℕ → Type 0 where
    done : Lowers [] []
    next :
        {c : ℕ} {s front rest : List ℕ}
        → Becomes c front
        → Lowers s rest
        → Lowers (c ∷ s) (front ++ rest)

  pub record IsPortableKey (path key : List ℕ) : Type 0 where
    pub tracked : IsTracked path
    pub short : length (as_bytes path) ≤ max_exact_path_bytes
    pub lowered : List ℕ
    pub lowers : Lowers (nfc path) lowered
    pub form : key ≡ as_bytes (nfc lowered)
    pub fits : length key ≤ max_exact_path_bytes

  scalar-eq_ok : (c a : ℕ) → scalar nfc to_lowercase c ≡ ok a → IsScalar c × (a ≡ c)
  scalar-eq_ok c a h = ground arith

  scalar-IsScalar : (c : ℕ) → IsScalar c → scalar nfc to_lowercase c ≡ ok c
  scalar-IsScalar c h = ground arith

  -- The two tests on what the table has.
  lowered_char-Becomes :
      (c : ℕ) (front : List ℕ) → lowered_char nfc to_lowercase c ≡ ok front → Becomes c front
  lowered_char-Becomes c front h = by (to_lowercase c).0 (to_lowercase c).1 refl
    where
      by : (a b : ℕ) → to_lowercase c ≡ (a, b) → Becomes c front
      by a b e = elim (Bool-cases (a == 0)) [
        | inl z ↦ elim (Bool-cases (b == 0)) [
          | inl z' ↦
              let both : (a, b) ≡ (0, 0) = ground arith in
              let same : c ∷ [] ≡ front = cc (rw (e, z, z') at h) in
              subst (Becomes c) same (itself (e ∙ both))
          | inr n' ↦
              let zero : a ≡ 0 = ground arith in
              let more : b ≢ 0 = ground arith in
              let same : [] ≡ front = cc (rw (e, z, n') at h) in
              subst (Becomes c) same (removed b (rw zero at e) more)
        ]
        | inr n ↦
            let nonzero : a ≢ 0 = ground arith in
            let (x, first, h1) = >>=-eq_ok (scalar nfc to_lowercase a) _ (rw (e, n) at h) in
            let (s, is_a) = scalar-eq_ok a x first in
            elim (Bool-cases (b == 0)) [
              | inl z' ↦
                  let zero : b ≡ 0 = ground arith in
                  let same : a ∷ [] ≡ front = cc (is_a, rw z' at h1) in
                  subst (Becomes c) same (one a (rw zero at e) nonzero s)
              | inr n' ↦
                  let more : b ≢ 0 = ground arith in
                  let (y, second, h2) = >>=-eq_ok (scalar nfc to_lowercase b) _ (rw n' at h1) in
                  let (t, is_b) = scalar-eq_ok b y second in
                  let same : a ∷ b ∷ [] ≡ front = cc (is_a, is_b, h2) in
                  subst (Becomes c) same (two a b e nonzero more s t)
            ]
      ]

  Becomes-lowered_char :
      (c : ℕ) (front : List ℕ) → Becomes c front → lowered_char nfc to_lowercase c ≡ ok front
  Becomes-lowered_char c _ (itself e) = rw e
  Becomes-lowered_char c _ (removed b e n) = ground arith
  Becomes-lowered_char c _ (one a e n s) = ground (arith, scalar-IsScalar a s)
  Becomes-lowered_char c _ (two a b e n m s t) =
      ground (arith, scalar-IsScalar a s, scalar-IsScalar b t)

  lower-Lowers : (s t : List ℕ) → lower nfc to_lowercase s ≡ ok t → Lowers s t
  unfolding lower
  lower-Lowers [] t h = let same : [] ≡ t = cc h in subst (Lowers []) same done
  lower-Lowers (c ∷ s) t h =
      let (front, first, h1) = >>=-eq_ok (lowered_char nfc to_lowercase c) _ h in
      let (rest, others, h2) = >>=-eq_ok (lower nfc to_lowercase s) _ h1 in
      let same : front ++ rest ≡ t = cc h2 in
      subst (Lowers (c ∷ s)) same
        (next (lowered_char-Becomes c front first) (lower-Lowers s rest others))

  Lowers-lower : (s t : List ℕ) → Lowers s t → lower nfc to_lowercase s ≡ ok t
  unfolding lower
  Lowers-lower _ _ done = refl
  Lowers-lower _ _ (next {c} {s} {front} {rest} b l) =
      rw (Becomes-lowered_char c front b, Lowers-lower s rest l)

-- What the checks before and after `lower` leave.
pub portable_path_key_v1-IsTracked :
    (nfc : List ℕ → List ℕ) (to_lowercase : ℕ → ℕ × ℕ) (path key : List ℕ)
    → portable_path_key_v1 nfc to_lowercase path ≡ ok key
    → IsTracked path
      × (length (as_bytes path) ≤ max_exact_path_bytes)
      × (length key ≤ max_exact_path_bytes)
      × ((lowered : List ℕ) × (lower nfc to_lowercase (nfc path) ≡ ok lowered)
          × (key ≡ as_bytes (nfc lowered)))
unfolding portable_path_key_v1
portable_path_key_v1-IsTracked nfc to_lowercase path key h =
    let (u, short, h1) =
      >>=-eq_ok (reject_if (ltb max_exact_path_bytes (length (as_bytes path))) _) _ h in
    let (u', checked, h2) = >>=-eq_ok (check_path (parse path)) _ h1 in
    let (lowered, low, h3) = >>=-eq_ok (lower nfc to_lowercase (nfc path)) _ h2 in
    let (u'', fits, h4) =
      >>=-eq_ok (reject_if (ltb max_exact_path_bytes (length (as_bytes (nfc lowered)))) _) _ h3 in
    let (path', is_parsed) = parsed (parse path) checked in
    let same : as_bytes (nfc lowered) ≡ key = cc h4 in
    (
      (parse-IsTracked path path' is_parsed).0,
      ltb_false→le _ _ (reject_if-eq_ok _ _ short),
      subst (λ k. length k ≤ max_exact_path_bytes) same
          (ltb_false→le _ _ (reject_if-eq_ok _ _ fits)),
      (lowered, low, sym same),
    )

IsPortableKey-portable_path_key_v1 :
    (nfc : List ℕ → List ℕ) (to_lowercase : ℕ → ℕ × ℕ) (path key : List ℕ)
    → IsPortableKey nfc to_lowercase path key
    → portable_path_key_v1 nfc to_lowercase path ≡ ok key
unfolding portable_path_key_v1
IsPortableKey-portable_path_key_v1 nfc to_lowercase path key k = rw (
  ltb-eq_false max_exact_path_bytes (length (as_bytes path)) k.short,
  parse-accepts path k.tracked,
  Lowers-lower nfc to_lowercase (nfc path) k.lowered k.lowers,
  sym k.form,
  ltb-eq_false max_exact_path_bytes (length key) k.fits,
)

-- Whatever the Unicode tables are: a text has a portable key, and it is this one, exactly when the
-- text is the path of a tracked file, the text and the key have at most 131072 bytes, and the key is
-- the UTF-8 of the normal form of what the text's normal form becomes character by character: a
-- character stays if the table has two zeros for it, and else becomes what the table has for it
-- before the first zero, of which each must be a Unicode scalar value.
pub portable_path_key_v1_iff :
    (nfc : List ℕ → List ℕ) (to_lowercase : ℕ → ℕ × ℕ) (path key : List ℕ)
    → (portable_path_key_v1 nfc to_lowercase path ≡ ok key)
      ↔ IsPortableKey nfc to_lowercase path key
portable_path_key_v1_iff nfc to_lowercase path key = (
  λ h.
      let (tracked, short, fits, (lowered, low, form)) =
        portable_path_key_v1-IsTracked nfc to_lowercase path key h in
      record {
        tracked = tracked;
        short = short;
        lowered = lowered;
        lowers = lower-Lowers nfc to_lowercase (nfc path) lowered low;
        form = form;
        fits = fits;
      },
  IsPortableKey-portable_path_key_v1 nfc to_lowercase path key,
)
