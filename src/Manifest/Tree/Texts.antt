-- ===== src/Manifest/Tree/Texts.antt =====
-- A portable key is a list of bytes.
use check_po.Prelude.{
  ℕ, ◌≡◌, sym, subst, Bool, true, false, ◌&&◌, List, [], ◌∷◌, ◌++◌, arith, All, All-append, ◌==◌,
  if◌then◌else◌,
}
use check_po.Prelude.Result.{ok, ◌>>=◌, >>=-eq_ok}
use check_po.Prelude.Text.Utf8.{IsScalar, IsText, as_bytes-IsByte}
use check_po.Prelude.Bytes.{IsByte}
use check_po.Manifest.{SnapshotV2Result, scalar, lowered_char, lower, portable_path_key_v1}
use check_po.Manifest.Portable.{portable_path_key_v1-IsTracked}

module _ (nfc : List ℕ → List ℕ) (to_lowercase : ℕ → ℕ × ℕ) where
  scalar-IsScalar : (c d : ℕ) → scalar nfc to_lowercase c ≡ ok d → IsScalar d
  scalar-IsScalar c d h = ground arith

  two_scalars :
      (a c : ℕ) (s : List ℕ)
      → IsScalar a
      → (scalar nfc to_lowercase c >>= λ b. ok (a ∷ b ∷ [])) ≡ ok s
      → IsText s
  two_scalars a c s is h =
      let (b, e, h1) = >>=-eq_ok (scalar nfc to_lowercase c) _ h in
      let same : a ∷ b ∷ [] ≡ s = cc h1 in subst IsText same (is, (scalar-IsScalar c b e, tt))

  lowered_char-IsText :
      (c : ℕ) (s : List ℕ) → IsScalar c → lowered_char nfc to_lowercase c ≡ ok s → IsText s
  lowered_char-IsText c s is h = by ((to_lowercase c).0 == 0) ((to_lowercase c).1 == 0) h
    where
      one :
          (x : ℕ) → IsScalar x → ◌≡◌ {A = SnapshotV2Result (List ℕ)} (ok (x ∷ [])) (ok s) → IsText s
      one x i h = let e : x ∷ [] ≡ s = cc h in subst IsText e (i, tt)

      by :
          (t u : Bool)
          → (if t && u
              then ok (c ∷ [])
              else if t
              then ok []
              else scalar nfc to_lowercase (to_lowercase c).0 >>= λ a.
                  if u
                  then ok (a ∷ [])
                  else scalar nfc to_lowercase (to_lowercase c).1 >>= λ b. ok (a ∷ b ∷ []))
            ≡ ok s
          → IsText s
      by true true h = one c is h
      by true false h = let e : [] ≡ s = cc h in subst IsText e tt
      by false true h =
          let (a, e, h1) = >>=-eq_ok (scalar nfc to_lowercase (to_lowercase c).0) _ h in
          one a (scalar-IsScalar (to_lowercase c).0 a e) h1
      by false false h =
          let (a, e, h1) = >>=-eq_ok (scalar nfc to_lowercase (to_lowercase c).0) _ h in
          two_scalars a (to_lowercase c).1 s (scalar-IsScalar (to_lowercase c).0 a e) h1

  lower-IsText :
      (s lowered : List ℕ) → IsText s → lower nfc to_lowercase s ≡ ok lowered → IsText lowered
  unfolding lower
  lower-IsText [] lowered is h = let e : [] ≡ lowered = cc h in subst IsText e tt
  lower-IsText (c ∷ s) lowered is h =
      let (front, e1, h1) = >>=-eq_ok (lowered_char nfc to_lowercase c) _ h in
      let (rest, e2, h2) = >>=-eq_ok (lower nfc to_lowercase s) _ h1 in
      let e : front ++ rest ≡ lowered = cc h2 in
      subst IsText e (
        All-append IsScalar front rest (lowered_char-IsText c front is.0 e1)
          (lower-IsText s rest is.1 e2))

  -- If the normal form of a text is a text, then a portable key of a text is a list of bytes.
  pub portable_path_key_v1-IsByte :
      ((s : List ℕ) → IsText s → IsText (nfc s))
      → (path key : List ℕ) → IsText path
      → portable_path_key_v1 nfc to_lowercase path ≡ ok key
      → All IsByte key
  portable_path_key_v1-IsByte texts path key is h =
      let (tracked, short, fits, (lowered, low, same)) =
        portable_path_key_v1-IsTracked nfc to_lowercase path key h in
      subst (All IsByte) (sym same) (
        as_bytes-IsByte (nfc lowered)
          (texts lowered (lower-IsText (nfc path) lowered (texts path is) low)))
