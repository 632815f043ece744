-- ===== src/Prelude/Map/Order.antt =====
-- The order of texts is transitive, and turns around.
use check_po.Prelude.{ℕ, ◌≡◌, refl, List, [], ◌∷◌, arith}
use check_po.Prelude.Map.{less, greater, compare_text}

pub compare_turned : (a b : List ℕ) → compare_text a b ≡ less → compare_text b a ≡ greater
unfolding compare_text
compare_turned [] [] h = cc h
compare_turned [] (y ∷ b) h = refl
compare_turned (x ∷ a) [] h = cc h
compare_turned (x ∷ a) (y ∷ b) h = ground (arith, compare_turned a b)

pub greater_trans :
    (a b c : List ℕ)
    → compare_text a b ≡ greater
    → compare_text b c ≡ greater
    → compare_text a c ≡ greater
unfolding compare_text
greater_trans [] [] c h k = cc h
greater_trans [] (y ∷ b) c h k = cc h
greater_trans (x ∷ a) b [] h k = refl
greater_trans (x ∷ a) [] (z ∷ c) h k = cc k
greater_trans (x ∷ a) (y ∷ b) (z ∷ c) h k = ground (arith, greater_trans a b c)

pub compare_text_trans :
    (a b c : List ℕ) → compare_text a b ≡ less → compare_text b c ≡ less → compare_text a c ≡ less
unfolding compare_text
compare_text_trans [] [] c h k = absurd (cc h)
compare_text_trans [] (y ∷ b) [] h k = absurd (cc k)
compare_text_trans [] (y ∷ b) (z ∷ c) h k = refl
compare_text_trans (x ∷ a) [] c h k = absurd (cc h)
compare_text_trans (x ∷ a) (y ∷ b) [] h k = absurd (cc k)
compare_text_trans (x ∷ a) (y ∷ b) (z ∷ c) h k = ground (arith, compare_text_trans a b c)
