-- ===== src/Path/Device/Stem.antt =====
-- The first part of a split by dots is the stem.
use check_po.Prelude.{
  ℕ, ◌≡◌, refl, ap, subst, ◌∙◌, ◌≢◌, ◌⊎◌, inl, inr, Bool, true, false, List, [], ◌∷◌, ◌++◌, arith,
  ◌==◌,
}
use check_po.Prelude.Text.{split, cons_head}
use check_po.Prelude.Text.Split.{Apart, IsCons, is_cons, split-IsCons}
use check_po.Path.{stem_of}
use check_po.Path.Device.{IsStem}

stem_part : (s p : List ℕ) (ps : List (List ℕ)) → split 46 s ≡ p ∷ ps → IsStem s p
unfolding split cons_head
stem_part [] p ps h =
    let e : p ≡ [] = cc h in
    record { rest = []; form = rw e refl; apart = rw e tt; ends = inl refl }
stem_part (c ∷ s) p ps h = by (c == 46) refl (split 46 s) refl (stem_part s)
  where
    by :
        (b : Bool)
        → (c == 46) ≡ b
        → (parts : List (List ℕ)) → split 46 s ≡ parts
        → ((q : List ℕ) (qs : List (List ℕ)) → split 46 s ≡ q ∷ qs → IsStem s q)
        → IsStem (c ∷ s) p
    by true e parts f ih =
        let dot : c ≡ 46 = ground arith in
        let none_left : p ≡ [] = cc (rw (e, f) at h) in
        record {
          rest = c ∷ s;
          form = rw none_left refl;
          apart = rw none_left tt;
          ends = inr (s, rw dot refl);
        }
    by false e [] f ih = elim (subst IsCons f (split-IsCons 46 s)) [ ]
    by false e (q ∷ qs) f ih =
        let stem = ih q qs f in
        let different : c ≢ 46 = ground arith in
        let longer : p ≡ c ∷ q = cc (rw (e, f) at h) in
        record {
          rest = stem.rest;
          form = rw longer (ap (λ x. c ∷ x) stem.form);
          apart = rw longer (different, stem.apart);
          ends = stem.ends;
        }

pub stem_IsStem : (s : List ℕ) → IsStem s (stem_of (split 46 s) s)
stem_IsStem s = by (split 46 s) refl (split-IsCons 46 s)
  where
    by : (parts : List (List ℕ)) → split 46 s ≡ parts → IsCons parts → IsStem s (stem_of parts s)
    by _ e (is_cons {p} {ps}) = stem_part s p ps e

stem_of-cons_head :
    (c : ℕ) (parts : List (List ℕ)) (s : List ℕ)
    → stem_of (cons_head c parts) s ≡ c ∷ stem_of parts []
unfolding cons_head
stem_of-cons_head c [] s = refl
stem_of-cons_head c (part ∷ parts) s = refl

pub stem_of-split :
    (stem rest s : List ℕ)
    → Apart 46 stem
    → (rest ≡ []) ⊎ ((t : List ℕ) × (rest ≡ 46 ∷ t))
    → stem_of (split 46 (stem ++ rest)) s ≡ stem
unfolding split
stem_of-split [] rest s a (inl e) = rw e refl
stem_of-split [] rest s a (inr (t, e)) = rw e refl
stem_of-split (c ∷ stem) rest s a e =
    let other : (c == 46) ≡ false = ground (arith, a.0) in
    rw other (
      stem_of-cons_head c (split 46 (stem ++ rest)) s
      ∙ ap (λ x. c ∷ x) (stem_of-split stem rest [] a.1 e))
