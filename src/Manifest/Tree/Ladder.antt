-- ===== src/Manifest/Tree/Ladder.antt =====
-- Entries with increasing keys, and what a search from the front finds among them.
use check_po.Prelude.{
  ℕ, ◌≡◌, ◌≢◌, refl, sym, ap, ◌∙◌, false, none, some, List, [], ◌∷◌, ◌++◌, arith, All,
  All-of_append, list_eq,
}
use check_po.Prelude.Map.{
  Comparison, less, equal, greater, compare_text, compare_text_refl, list_eq-false,
}
use check_po.Prelude.Map.Order.{compare_turned, greater_trans}
use check_po.Manifest.{KeyedEntry}
use check_po.Manifest.Keys.{IsLadder}
use check_po.Manifest.Tree.Sorted.{find_key, either}

abbrev pub Under : List ℕ → KeyedEntry → Type 0
Under key e = compare_text e.key key ≡ less

abbrev pub Over : List ℕ → KeyedEntry → Type 0
Over key e = compare_text e.key key ≡ greater

pub IsLadder-tail : (e : KeyedEntry) (es : List KeyedEntry) → IsLadder (e ∷ es) → IsLadder es
IsLadder-tail e [] h = tt
IsLadder-tail e (f ∷ es) h = h.2

-- What follows an entry is over it.
pub IsLadder-Over :
    (e : KeyedEntry) (es : List KeyedEntry) → IsLadder (e ∷ es) → All (Over e.key) es
IsLadder-Over e [] h = tt
IsLadder-Over e (f ∷ es) h = (compare_turned e.key f.key h.0, over es (IsLadder-Over f es h.2))
  where
    over : (xs : List KeyedEntry) → All (Over f.key) xs → All (Over e.key) xs
    over [] a = tt
    over (x ∷ xs) a =
        (greater_trans x.key f.key e.key a.0 (compare_turned e.key f.key h.0), over xs a.1)

pub back_less : (a b : List ℕ) → compare_text b a ≡ greater → compare_text a b ≡ less
unfolding compare_text
back_less [] [] h = cc h
back_less [] (y ∷ b) h = refl
back_less (x ∷ a) [] h = cc h
back_less (x ∷ a) (y ∷ b) h = ground (arith, back_less a b)

pub IsLadder-append :
    (front back : List KeyedEntry) → IsLadder (front ++ back) → IsLadder front × IsLadder back
IsLadder-append [] back h = (tt, h)
IsLadder-append (x ∷ []) back h = (tt, IsLadder-tail x back h)
IsLadder-append (x ∷ y ∷ front) back h =
    let (f, b) = IsLadder-append (y ∷ front) back h.2 in ((h.0, h.1, f), b)

-- What stands before an entry is under it.
pub IsLadder-Under :
    (front back : List KeyedEntry) (e : KeyedEntry)
    → IsLadder (front ++ e ∷ back)
    → All (Under e.key) front
IsLadder-Under [] back e h = tt
IsLadder-Under (x ∷ front) back e h =
    let over =
      (All-of_append (Over x.key) front (e ∷ back) (IsLadder-Over x (front ++ e ∷ back) h)).1 in
    (
      back_less x.key e.key over.0,
      IsLadder-Under front back e (IsLadder-tail x (front ++ e ∷ back) h),
    )

-- No entry has the key.
abbrev pub Differs : List ℕ → KeyedEntry → Type 0
Differs key e = list_eq e.key key ≡ false

compare-Differs :
    (a key : List ℕ) (c : Comparison) → compare_text a key ≡ c → c ≢ equal → list_eq a key ≡ false
compare-Differs a key c e n =
    list_eq-false a key
      (λ (same : a ≡ key). n (sym e ∙ (ap (compare_text a) (sym same) ∙ compare_text_refl a)))

pub Under-Differs :
    (key : List ℕ) (es : List KeyedEntry) → All (Under key) es → All (Differs key) es
Under-Differs key [] h = tt
Under-Differs key (e ∷ es) h =
    (compare-Differs e.key key less h.0 (λ (n : less ≡ equal). cc n), Under-Differs key es h.1)

pub Over-Differs : (key : List ℕ) (es : List KeyedEntry) → All (Over key) es → All (Differs key) es
Over-Differs key [] h = tt
Over-Differs key (e ∷ es) h =
    (compare-Differs e.key key greater h.0 (λ (n : greater ≡ equal). cc n), Over-Differs key es h.1)

pub find_key-none :
    (key : List ℕ) (es : List KeyedEntry) → All (Differs key) es → find_key key es ≡ none
find_key-none key [] h = refl
find_key-none key (e ∷ es) h = rw (h.0) (find_key-none key es h.1)

pub find_key-append :
    (key : List ℕ) (front back : List KeyedEntry)
    → All (Differs key) front
    → find_key key (front ++ back) ≡ find_key key back
find_key-append key [] back h = refl
find_key-append key (e ∷ front) back h = rw (h.0) (find_key-append key front back h.1)

-- The second part holds no entry with the key.
pub find_key-front :
    (key : List ℕ) (front back : List KeyedEntry)
    → All (Differs key) back
    → find_key key (front ++ back) ≡ find_key key front
find_key-front key [] back h = find_key-none key back h
find_key-front key (e ∷ front) back h =
    ap (either (list_eq e.key key) (some e.entry)) (find_key-front key front back h)
