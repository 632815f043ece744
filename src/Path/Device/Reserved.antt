-- ===== src/Path/Device/Reserved.antt =====
-- `is_windows_reserved_name` finds the names of devices, and no others.
use check_po.Prelude.{
  ℕ, ◌+◌, ◌-◌, ◌≡◌, refl, sym, ap, subst, ◌∙◌, ◌↔◌, inl, inr, Bool, true, false, ◌||◌, Option, none,
  some, List, [], ◌∷◌, ◌++◌, arith, All, list_eq, list_eq→eq, Bool-cases,
}
use check_po.Prelude.Text.{codes, between, split, strip_prefix, to_ascii_uppercase}
use check_po.Prelude.Text.Ends.{strip_prefix-eq_some}
use check_po.Path.{stem_of, is_reserved_device_digit, device, is_windows_reserved_name}
use check_po.Path.Device.{
  IsDeviceDigit, IsDeviceWord, con_device, prn_device, aux_device, nul_device, conin_device,
  conout_device, com_device, lpt_device, Spells, nothing, same, small, IsDevice,
}
use check_po.Path.Device.Stem.{stem_IsStem, stem_of-split}

-- A text spells its capitals.
Spells-to_ascii_uppercase : (s : List ℕ) → Spells (to_ascii_uppercase s) s
unfolding to_ascii_uppercase
Spells-to_ascii_uppercase [] = nothing
Spells-to_ascii_uppercase (c ∷ s) = elim (Bool-cases (between 97 122 c)) [
  | inr e ↦ rw e (same c (Spells-to_ascii_uppercase s))
  | inl e ↦
      let back : c - 32 + 32 ≡ c = ground arith in
      rw e (
        subst (λ x. Spells ((c - 32) ∷ to_ascii_uppercase s) (x ∷ s)) back
          (small (c - 32) (ground arith) (ground arith) (Spells-to_ascii_uppercase s)))
]

-- No small letters from a to z.
abbrev IsCapital : List ℕ → Type 0
IsCapital = All (λ c. between 97 122 c ≡ false)

digit_capital : (d : ℕ) → IsDeviceDigit d → between 97 122 d ≡ false
digit_capital d h = ground arith

word-IsCapital : (word : List ℕ) → IsDeviceWord word → IsCapital word
word-IsCapital _ con_device = (refl, (refl, (refl, tt)))
word-IsCapital _ prn_device = (refl, (refl, (refl, tt)))
word-IsCapital _ aux_device = (refl, (refl, (refl, tt)))
word-IsCapital _ nul_device = (refl, (refl, (refl, tt)))
word-IsCapital _ conin_device = (refl, (refl, (refl, (refl, (refl, (refl, tt))))))
word-IsCapital _ conout_device = (refl, (refl, (refl, (refl, (refl, (refl, (refl, tt)))))))
word-IsCapital _ (com_device d h) = (refl, (refl, (refl, (digit_capital d h, tt))))
word-IsCapital _ (lpt_device d h) = (refl, (refl, (refl, (digit_capital d h, tt))))

to_ascii_uppercase-Spells :
    (word s : List ℕ) → IsCapital word → Spells word s → to_ascii_uppercase s ≡ word
unfolding to_ascii_uppercase
to_ascii_uppercase-Spells _ _ h nothing = refl
to_ascii_uppercase-Spells _ _ h (same c r) = rw (h.0, to_ascii_uppercase-Spells _ _ h.1 r)
to_ascii_uppercase-Spells _ _ h (small c a b r) =
    let letter : between 97 122 (c + 32) ≡ true = ground arith in
    let back : c + 32 - 32 ≡ c = omega arith in
    rw (letter, back, to_ascii_uppercase-Spells _ _ h.1 r)

reserved_digit : (d : ℕ) → is_reserved_device_digit (d ∷ []) ≡ true → IsDeviceDigit d
unfolding is_reserved_device_digit
reserved_digit d h = ground arith

digit_reserved : (d : ℕ) → IsDeviceDigit d → is_reserved_device_digit (d ∷ []) ≡ true
unfolding is_reserved_device_digit
digit_reserved d h = ground arith

-- The tests of the chain.
module _ (upper : List ℕ) where
  is_word : {word : List ℕ} → IsDeviceWord word → list_eq upper word ≡ true → IsDeviceWord upper
  is_word {word} listed e = subst IsDeviceWord (sym (list_eq→eq upper word e)) listed

  numbered :
      (prefix : List ℕ)
      → ((d : ℕ) → IsDeviceDigit d → IsDeviceWord (prefix ++ (d ∷ [])))
      → device (strip_prefix prefix upper) ≡ true
      → IsDeviceWord upper
  unfolding is_reserved_device_digit
  numbered prefix listed h = by (strip_prefix prefix upper) refl h
    where
      by :
          (rest : Option (List ℕ))
          → strip_prefix prefix upper ≡ rest
          → device rest ≡ true
          → IsDeviceWord upper
      by none e h = absurd (cc h)
      by (some []) e h = absurd (cc h)
      by (some (d ∷ [])) e h =
          subst IsDeviceWord (sym (strip_prefix-eq_some prefix upper (d ∷ []) e))
            (listed d (reserved_digit d h))
      by (some (d ∷ c ∷ rest)) e h = absurd (cc h)

  infixl 5 ◌or◌
  ◌or◌ :
      {a b : Bool}
      → (a ≡ true → IsDeviceWord upper)
      → (b ≡ true → IsDeviceWord upper)
      → (a || b) ≡ true
      → IsDeviceWord upper
  ◌or◌ {a = true} first second h = first refl
  ◌or◌ {a = false} first second h = second h

  chain-IsDeviceWord :
      (list_eq upper (codes "CON")
          || list_eq upper (codes "PRN")
          || list_eq upper (codes "AUX")
          || list_eq upper (codes "NUL")
          || list_eq upper (codes "CONIN$")
          || list_eq upper (codes "CONOUT$")
          || device (strip_prefix (codes "COM") upper)
          || device (strip_prefix (codes "LPT") upper))
        ≡ true
      → IsDeviceWord upper
  chain-IsDeviceWord =
      is_word con_device
      or is_word prn_device
      or is_word aux_device
      or is_word nul_device
      or is_word conin_device
      or is_word conout_device
      or numbered (codes "COM") com_device
      or numbered (codes "LPT") lpt_device

is_windows_reserved_name-IsDevice : (s : List ℕ) → is_windows_reserved_name s ≡ true → IsDevice s
unfolding is_windows_reserved_name
is_windows_reserved_name-IsDevice s h =
    let stem = stem_of (split 46 s) s in
    record {
      stem = stem;
      word = to_ascii_uppercase stem;
      cut = stem_IsStem s;
      spelled = Spells-to_ascii_uppercase stem;
      listed = chain-IsDeviceWord (to_ascii_uppercase stem) h;
    }

reserved_word :
    (word : List ℕ)
    → IsDeviceWord word
    → (list_eq word (codes "CON")
        || list_eq word (codes "PRN")
        || list_eq word (codes "AUX")
        || list_eq word (codes "NUL")
        || list_eq word (codes "CONIN$")
        || list_eq word (codes "CONOUT$")
        || device (strip_prefix (codes "COM") word)
        || device (strip_prefix (codes "LPT") word))
      ≡ true
unfolding list_eq strip_prefix
reserved_word _ con_device = refl
reserved_word _ prn_device = refl
reserved_word _ aux_device = refl
reserved_word _ nul_device = refl
reserved_word _ conin_device = refl
reserved_word _ conout_device = refl
reserved_word _ (com_device d h) = rw (digit_reserved d h) refl
reserved_word _ (lpt_device d h) = digit_reserved d h

IsDevice-is_windows_reserved_name : (s : List ℕ) → IsDevice s → is_windows_reserved_name s ≡ true
unfolding is_windows_reserved_name
IsDevice-is_windows_reserved_name s h =
    let cut : stem_of (split 46 s) s ≡ h.stem =
      ap (λ x. stem_of (split 46 x) s) h.cut.form
      ∙ stem_of-split h.stem h.cut.rest s h.cut.apart h.cut.ends in
    let upper =
      to_ascii_uppercase-Spells h.word h.stem (word-IsCapital h.word h.listed) h.spelled in
    rw (cut, upper) (reserved_word h.word h.listed)

-- The code's test fails for the other names.
pub is_windows_reserved_name-eq_false :
    (s : List ℕ) → (is_windows_reserved_name s ≡ false) ↔ (¬ IsDevice s)
is_windows_reserved_name-eq_false s = (
  λ h d. cc (h, IsDevice-is_windows_reserved_name s d),
  λ h. elim (Bool-cases (is_windows_reserved_name s)) [
    | inl e ↦ absurd (h (is_windows_reserved_name-IsDevice s e))
    | inr e ↦ e
  ],
)
