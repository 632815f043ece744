-- ===== src/Plan/Scope/Companion.antt =====
-- A companion's companion, and what a descendant is.
use check_po.Prelude.{
  ℕ, ◌≡◌, refl, sym, ap, ◌∙◌, ◌↔◌, ◌⊎◌, inl, inr, Bool, true, ◌||◌, Option, none, some, List, [],
  ◌∷◌, ◌++◌, append_assoc, arith, list_eq, list_eq→eq, list_eq_refl, Bool-cases,
}
use check_po.Prelude.Result.{ok, err}
use check_po.Prelude.Map.{is_some}
use check_po.Prelude.Text.{codes, strip_prefix, strip_suffix}
use check_po.Prelude.Text.Ends.{strip_prefix-eq_some, strip_prefix-append, strip_suffix-append}
use check_po.Path.{PathResult, TrackedUnityFilePath, parse, is_absolute}
use check_po.Path.Tracked.{parse-IsTracked}
use check_po.Path.Temporary.{is_some_and}
use check_po.Manifest.Keys.{Below}
use check_po.Plan.Scope.{
  parsed, unity_asset_companion_path, path_is_strict_descendant, path_is_same_or_descendant,
}

some-parsed :
    (path q : List ℕ) (m : PathResult TrackedUnityFilePath)
    → parse path ≡ m
    → parsed m ≡ some q
    → q ≡ path
some-parsed path q (ok p) e h = let same : p ≡ q = cc h in sym same ∙ (parse-IsTracked path p e).1
some-parsed path q (err x) e h = absurd (cc h)

still_below :
    (front s back : List ℕ) (o : Option (List ℕ))
    → strip_prefix front s ≡ o
    → is_some o ≡ true
    → is_some (strip_prefix front (s ++ back)) ≡ true
still_below front s back none e h = absurd (cc h)
still_below front s back (some rest) e h =
    ap (λ x. is_some (strip_prefix front (x ++ back))) (strip_prefix-eq_some front s rest e)
    ∙ ap (λ x. is_some (strip_prefix front x)) (append_assoc front rest back)
    ∙ ap is_some (strip_prefix-append front (rest ++ back))

-- If a tracked path does not end with ".meta" and has a companion, then the companion is the path
-- with ".meta" behind it, and the companion's companion is the path.
pub unity_asset_companion_path-back :
    (path q : List ℕ)
    → parse path ≡ ok path
    → strip_suffix (codes ".meta") path ≡ none
    → unity_asset_companion_path path ≡ some q
    → (q ≡ path ++ codes ".meta") × (unity_asset_companion_path q ≡ some path)
unfolding unity_asset_companion_path
unity_asset_companion_path-back path q tracked plain h =
    elim (Bool-cases (is_some (strip_prefix (codes "Assets/") path))) [
      | inr e ↦ absurd (cc (rw e at h))
      | inl e ↦
          let form : q ≡ path ++ codes ".meta" =
            some-parsed (path ++ codes ".meta") q _ refl (rw (e, plain) at h) in
          (
            form,
            rw (
              form,
              still_below (codes "Assets/") path (codes ".meta") _ refl e,
              strip_suffix-append (codes ".meta") path,
              tracked,
            ),
          )
    ]

slash_ahead : (rest : List ℕ) → is_absolute rest ≡ true → (more : List ℕ) × (rest ≡ 47 ∷ more)
slash_ahead [] h = absurd (cc h)
slash_ahead (c ∷ s) h = (s, (let e : c ≡ 47 = ground arith in ap (λ x. x ∷ s) e))

strictly :
    (c root : List ℕ) (o : Option (List ℕ))
    → strip_prefix root c ≡ o
    → is_some_and o is_absolute ≡ true
    → Below root c
strictly c root none e h = absurd (cc h)
strictly c root (some rest) e h =
    let (more, slash) = slash_ahead rest h in
    (more, strip_prefix-eq_some root c rest e ∙ ap (λ x. root ++ x) slash)

below : (c root : List ℕ) → Below root c → path_is_strict_descendant c root ≡ true
unfolding path_is_strict_descendant
below c root (rest, form) =
    ap (λ x. is_some_and (strip_prefix root x) is_absolute) form
    ∙ ap (λ o. is_some_and o is_absolute) (strip_prefix-append root (47 ∷ rest))

-- A path passes as the same as a root or below it exactly when it is the root, or the root with a
-- slash and more behind it.
pub path_is_same_or_descendant_iff :
    (c root : List ℕ) → (path_is_same_or_descendant c root ≡ true) ↔ ((c ≡ root) ⊎ Below root c)
unfolding path_is_same_or_descendant path_is_strict_descendant
path_is_same_or_descendant_iff c root = (
  λ h. elim (Bool-cases (list_eq c root)) [
    | inl e ↦ inl (list_eq→eq c root e)
    | inr e ↦ inr (strictly c root _ refl (rw e at h))
  ],
  λ h. elim h [
    | inl e ↦ rw (e, list_eq_refl root)
    | inr b ↦ or_true (list_eq c root) (path_is_strict_descendant c root) (below c root b)
  ],
)
  where
    or_true : (a b : Bool) → b ≡ true → (a || b) ≡ true
    or_true a b h = ground arith
