-- ===== src/Prelude/Text/Ends.antt =====
-- What `strip_prefix`, `strip_suffix` and `split_once` find.
use Prim.Native.Nat.{ℕ}
use mathlib.Core.Path.{◌≡◌, refl, sym, ap, ◌∙◌}
use mathlib.Core.Option.{Option, none, some}
use mathlib.Core.List.{List, [], ◌∷◌, ◌++◌, reverse, reverse-reverse, reverse-append}
use native.Mathlib.Omega.{arith}
use check_po.Prelude.Text.{strip_prefix, strip_suffix, reversed}

pub strip_prefix-eq_some :
    (prefix s rest : List ℕ) → strip_prefix prefix s ≡ some rest → s ≡ prefix ++ rest
unfolding strip_prefix
strip_prefix-eq_some [] s rest h = cc h
strip_prefix-eq_some (p ∷ ps) [] rest h = absurd (cc h)
strip_prefix-eq_some (p ∷ ps) (c ∷ s) rest h = ground (arith, strip_prefix-eq_some ps s rest)

pub strip_prefix-append : (prefix rest : List ℕ) → strip_prefix prefix (prefix ++ rest) ≡ some rest
unfolding strip_prefix
strip_prefix-append [] rest = refl
strip_prefix-append (p ∷ ps) rest = ground (arith, strip_prefix-append ps rest)

reversed-eq_some :
    (o : Option (List ℕ)) (rest : List ℕ)
    → reversed o ≡ some rest
    → (t : List ℕ) × (o ≡ some t) × (reverse t ≡ rest)
reversed-eq_some none rest h = absurd (cc h)
reversed-eq_some (some t) rest h = (t, refl, cc h)

pub strip_suffix-eq_some :
    (suffix s rest : List ℕ) → strip_suffix suffix s ≡ some rest → s ≡ rest ++ suffix
unfolding strip_suffix
strip_suffix-eq_some suffix s rest h =
    let (t, e, back) = reversed-eq_some _ rest h in
    sym (reverse-reverse s)
    ∙ ap reverse (strip_prefix-eq_some (reverse suffix) (reverse s) t e)
    ∙ reverse-append (reverse suffix) t
    ∙ ap (λ x. x ++ reverse (reverse suffix)) back
    ∙ ap (λ x. rest ++ x) (reverse-reverse suffix)

pub strip_suffix-append : (suffix rest : List ℕ) → strip_suffix suffix (rest ++ suffix) ≡ some rest
unfolding strip_suffix
strip_suffix-append suffix rest =
    ap (λ x. reversed (strip_prefix (reverse suffix) x)) (reverse-append rest suffix)
    ∙ ap reversed (strip_prefix-append (reverse suffix) (reverse rest))
    ∙ ap some (reverse-reverse rest)
