-- ===== src/Path/Id/Digits.antt =====
-- One byte as two digits, and back.
use check_po.Prelude.{
  ℕ, zero, suc, lt-cases, inl, inr, ◌⊎◌, subst, ◌+◌, ◌-◌, ◌<◌, ◌≤◌, ◌≡◌, refl, sym, true, some,
  arith, get_or,
}
use check_po.Path.Id.{is_lower_hex, hex_digits, hex_nibble}

digit_low : (d : ℕ) → d < 10 → get_or hex_digits d 0 ≡ 48 + d
digit_low zero h = refl
digit_low (suc zero) h = refl
digit_low (suc (suc zero)) h = refl
digit_low (suc (suc (suc zero))) h = refl
digit_low (suc (suc (suc (suc zero)))) h = refl
digit_low (suc (suc (suc (suc (suc zero))))) h = refl
digit_low (suc (suc (suc (suc (suc (suc zero)))))) h = refl
digit_low (suc (suc (suc (suc (suc (suc (suc zero))))))) h = refl
digit_low (suc (suc (suc (suc (suc (suc (suc (suc zero)))))))) h = refl
digit_low (suc (suc (suc (suc (suc (suc (suc (suc (suc zero))))))))) h = refl
digit_low (suc (suc (suc (suc (suc (suc (suc (suc (suc (suc d)))))))))) h = absurd (omega arith)

digit_high : (d : ℕ) → d < 6 → get_or hex_digits (10 + d) 0 ≡ 97 + d
digit_high zero h = refl
digit_high (suc zero) h = refl
digit_high (suc (suc zero)) h = refl
digit_high (suc (suc (suc zero))) h = refl
digit_high (suc (suc (suc (suc zero)))) h = refl
digit_high (suc (suc (suc (suc (suc zero))))) h = refl
digit_high (suc (suc (suc (suc (suc (suc d)))))) h = absurd (omega arith)

pub record Digit (d c : ℕ) : Type 0 where
  pub nibble : hex_nibble c ≡ some d
  pub small : d < 16
  pub lower : is_lower_hex c ≡ true
  pub char : get_or hex_digits d 0 ≡ c
  pub ascii : c < 128

low-Digit : (d : ℕ) → d < 10 → Digit d (48 + d)
unfolding hex_nibble is_lower_hex
low-Digit d h = record {
  nibble = ground arith;
  small = omega arith;
  lower = ground arith;
  char = digit_low d h;
  ascii = omega arith;
}

high-Digit : (d : ℕ) → d < 6 → Digit (10 + d) (97 + d)
unfolding hex_nibble is_lower_hex
high-Digit d h = record {
  nibble = ground arith;
  small = omega arith;
  lower = ground arith;
  char = digit_high d h;
  ascii = omega arith;
}

Digit-char : {d c : ℕ} → Digit d c → Digit d (get_or hex_digits d 0)
Digit-char {d} digit = subst (Digit d) (sym digit.char) digit

pub Digit-of : (d : ℕ) → d < 16 → Digit d (get_or hex_digits d 0)
Digit-of d h = elim (lt-cases d 10) [
  | inl small ↦ Digit-char (low-Digit d small)
  | inr large ↦
      let e : 10 + (d - 10) ≡ d = omega arith in
      subst (λ n. Digit n (get_or hex_digits n 0)) e
        (Digit-char (high-Digit (d - 10) (omega arith)))
]

lower_cases : (c : ℕ) → is_lower_hex c ≡ true → ((48 ≤ c) × (c < 58)) ⊎ ((97 ≤ c) × (c < 103))
unfolding is_lower_hex
lower_cases c h = ground arith

pub nibble_of : (c : ℕ) → is_lower_hex c ≡ true → (d : ℕ) × Digit d c
nibble_of c h = elim (lower_cases c h) [
  | inl r ↦
      let e : 48 + (c - 48) ≡ c = omega (arith, r) in
      (c - 48, subst (Digit (c - 48)) e (low-Digit (c - 48) (omega (arith, r))))
  | inr r ↦
      let e : 97 + (c - 97) ≡ c = omega (arith, r) in
      (10 + (c - 97), subst (Digit (10 + (c - 97))) e (high-Digit (c - 97) (omega (arith, r))))
]
