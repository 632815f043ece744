-- ===== src/Prelude/Slices.antt =====
-- Fields at fixed places: `bytes[a..b]` of a concatenation of parts with known lengths.
use Prim.Native.Nat.{ℕ, zero, suc, ◌+◌, ◌≤◌, ◌<◌}
use mathlib.Core.Path.{◌≡◌, refl, sym, ap, subst, ◌∙◌}
use mathlib.Core.List.{List, [], ◌∷◌, ◌++◌, append_assoc, append-nil}
use native.Mathlib.Omega.{arith}
use check_po.Prelude.Lists.{
  length, take, drop, get_or, length-append, take-append, drop-append, length-take, length-drop,
  drop-drop, drop-eq_cons, take-append-drop, All,
}

-- `bytes[start..start + n]`
abbrev pub slice : ℕ → ℕ → List ℕ → List ℕ
slice start n bytes = take n (drop start bytes)

-- The buffer after `extend_from_slice` of each part.
unfoldable pub joined : List (List ℕ) → List ℕ
joined [] = []
joined (part ∷ parts) = part ++ joined parts

-- The parts have these lengths.
abbrev pub HasLengths : List (List ℕ) → List ℕ → Type 0
HasLengths [] [] = Unit {0}
HasLengths [] (n ∷ ns) = ⊥
HasLengths (p ∷ ps) [] = ⊥
HasLengths (p ∷ ps) (n ∷ ns) = (length p ≡ n) × HasLengths ps ns

abbrev pub sum : List ℕ → ℕ
sum [] = 0
sum (n ∷ ns) = n + sum ns

-- The slices of these lengths, one after the other from a place, are the parts.
abbrev pub Sliced : ℕ → List (List ℕ) → List ℕ → List ℕ → Type 0
Sliced start [] ns bytes = Unit {0}
Sliced start (p ∷ ps) [] bytes = ⊥
Sliced start (p ∷ ps) (n ∷ ns) bytes = (slice start n bytes ≡ p) × Sliced (start + n) ps ns bytes

pub length-joined :
    (ps : List (List ℕ)) (ns : List ℕ) → HasLengths ps ns → length (joined ps) ≡ sum ns
unfolding joined
length-joined [] [] h = refl
length-joined [] (n ∷ ns) h = absurd h
length-joined (p ∷ ps) [] h = absurd h
length-joined (p ∷ ps) (n ∷ ns) h =
    omega (arith, length-append p (joined ps), length-joined ps ns h.1, h.0)

pub take-append_at : {A : Type 0} (n : ℕ) (xs ys : List A) → length xs ≡ n → take n (xs ++ ys) ≡ xs
take-append_at n xs ys h = subst (λ k. take k (xs ++ ys) ≡ xs) h (take-append xs ys)

pub drop-append_at : {A : Type 0} (n : ℕ) (xs ys : List A) → length xs ≡ n → drop n (xs ++ ys) ≡ ys
drop-append_at n xs ys h = subst (λ k. drop k (xs ++ ys) ≡ ys) h (drop-append xs ys)

-- Each part stands where the lengths before it say, after any front and before any back.
pub Sliced-joined :
    (start : ℕ) (ps : List (List ℕ)) (ns front back : List ℕ)
    → length front ≡ start
    → HasLengths ps ns
    → Sliced start ps ns (front ++ (joined ps ++ back))
unfolding joined
Sliced-joined start [] ns front back e h = tt
Sliced-joined start (p ∷ ps) [] front back e h = absurd h
Sliced-joined start (p ∷ ps) (n ∷ ns) front back e h =
    let inner : (p ++ joined ps) ++ back ≡ p ++ (joined ps ++ back) =
      append_assoc p (joined ps) back in
    let here : take n (drop start (front ++ (p ++ joined ps ++ back))) ≡ p =
      rw (drop-append_at start front (p ++ joined ps ++ back) e)
        (rw inner (take-append_at n p (joined ps ++ back) h.0)) in
    let whole : (front ++ p) ++ (joined ps ++ back) ≡ front ++ (p ++ joined ps ++ back) =
      append_assoc front p (joined ps ++ back) ∙ ap (λ x. front ++ x) (sym inner) in
    let rest =
      Sliced-joined (start + n) ps ns (front ++ p) back
        (omega (arith, length-append front p, e, h.0)) h.1 in
    (here, subst (Sliced (start + n) ps ns) whole rest)

-- The slices of these lengths, one after the other.
unfoldable pub cut : ℕ → List ℕ → List ℕ → List (List ℕ)
cut start [] bytes = []
cut start (n ∷ ns) bytes = slice start n bytes ∷ cut (start + n) ns bytes

pub joined-cut :
    (start : ℕ) (ns bytes : List ℕ)
    → start + sum ns ≡ length bytes
    → joined (cut start ns bytes) ≡ drop start bytes
unfolding joined cut
joined-cut start [] bytes h = sym (drop_all start bytes (omega arith))
  where
    drop_all : (k : ℕ) (xs : List ℕ) → length xs ≤ k → drop k xs ≡ []
    drop_all zero [] h = refl
    drop_all (suc k) [] h = refl
    drop_all zero (x ∷ xs) h = absurd (omega arith)
    drop_all (suc k) (x ∷ xs) h = drop_all k xs (omega arith)
joined-cut start (n ∷ ns) bytes h =
    rw (joined-cut (start + n) ns bytes (omega arith), ← drop-drop n start (start + n) bytes refl)
      (take-append-drop n (drop start bytes))

pub length-slice :
    (start n : ℕ) (bytes : List ℕ) → start + n ≤ length bytes → length (slice start n bytes) ≡ n
length-slice start n bytes h =
    length-take n (drop start bytes) (omega (arith, length-drop start bytes))

module _ (P : ℕ → Type 0) where
  pub All-drop : (n : ℕ) (xs : List ℕ) → All P xs → All P (drop n xs)
  All-drop zero xs h = h
  All-drop (suc n) [] h = tt
  All-drop (suc n) (x ∷ xs) h = All-drop n xs h.1

  pub All-take : (n : ℕ) (xs : List ℕ) → All P xs → All P (take n xs)
  All-take zero xs h = tt
  All-take (suc n) [] h = tt
  All-take (suc n) (x ∷ xs) h = (h.0, All-take n xs h.1)

  pub All-slice : (start n : ℕ) (xs : List ℕ) → All P xs → All P (slice start n xs)
  All-slice start n xs h = All-take n (drop start xs) (All-drop start xs h)

pub Sliced-whole :
    (ps : List (List ℕ)) (ns : List ℕ) → HasLengths ps ns → Sliced 0 ps ns (joined ps)
Sliced-whole ps ns h =
    subst (Sliced 0 ps ns) (append-nil (joined ps)) (Sliced-joined 0 ps ns [] [] refl h)

pub get_or-slice : (i b : ℕ) (bytes : List ℕ) → slice i 1 bytes ≡ b ∷ [] → get_or bytes i 0 ≡ b
get_or-slice i b [] h = absurd (nothing i h)
  where
    nothing : (i : ℕ) → slice i 1 [] ≡ b ∷ [] → ⊥
    nothing zero h = cc h
    nothing (suc i) h = cc h
get_or-slice zero b (x ∷ bytes) h = cc h
get_or-slice (suc i) b (x ∷ bytes) h = get_or-slice i b bytes h

pub slice-one :
    (i : ℕ) (bytes : List ℕ) → i < length bytes → slice i 1 bytes ≡ get_or bytes i 0 ∷ []
slice-one i bytes h = rw (drop-eq_cons i bytes 0 h) refl

pub joined-append : (ps qs : List (List ℕ)) → joined (ps ++ qs) ≡ joined ps ++ joined qs
unfolding joined
joined-append [] qs = refl
joined-append (p ∷ ps) qs =
    ap (λ x. p ++ x) (joined-append ps qs) ∙ sym (append_assoc p (joined ps) (joined qs))
