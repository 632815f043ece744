-- ===== src/Inventory/Fields.antt =====
-- Numbers and zeros at their places in the stored records of the inventory.
use check_po.Prelude.{
  String, ℕ, zero, suc, ◌+◌, ◌≤◌, ◌<◌, ◌^◌, ◌≡◌, refl, sym, subst, Bool, true, false, not, ◌||◌,
  List, [], ◌∷◌, arith, length, All, ==_iff, ◌==◌, inl, inr, Bool-cases,
}
use check_po.Prelude.Bytes.{
  IsByte, to_be_bytes, from_be_bytes, to_be_bytes-from_be_bytes, from_be_bytes-lt,
}
use check_po.Prelude.Slices.{slice, length-slice, All-slice}
use check_po.Codec.{IsArray}
use check_po.Inventory.{zeros, is_zero, require_schema, schema_version}
use check_po.Prelude.Result.{ok}

pub is_zero-eq : (bs : List ℕ) → is_zero bs ≡ true → zeros (length bs) ≡ bs
is_zero-eq [] h = refl
is_zero-eq (b ∷ bs) h = elim (Bool-cases (b == 0)) [
  | inl e ↦ let z : 0 ≡ b = sym ((==_iff b 0).0 e) in rw (is_zero-eq bs (rw e at h), ← z) refl
  | inr e ↦ absurd (cc (rw e at h))
]

pub is_zero-zeros : (n : ℕ) → is_zero (zeros n) ≡ true
is_zero-zeros zero = refl
is_zero-zeros (suc n) = is_zero-zeros n

module _ (bytes : List ℕ) (b : All IsByte bytes) (start n : ℕ)
    (fits : start + n ≤ length bytes) where
  pub slice-IsArray : IsArray n (slice start n bytes)
  slice-IsArray = (length-slice start n bytes fits, All-slice IsByte start n bytes b)

  pub number_at : to_be_bytes n (from_be_bytes (slice start n bytes)) ≡ slice start n bytes
  number_at =
      subst (λ k. to_be_bytes k (from_be_bytes (slice start n bytes)) ≡ slice start n bytes)
        (length-slice start n bytes fits)
        (to_be_bytes-from_be_bytes (slice start n bytes) (All-slice IsByte start n bytes b))

  pub number_bound : from_be_bytes (slice start n bytes) < 256 ^ n
  number_bound =
      subst (λ k. from_be_bytes (slice start n bytes) < 256 ^ k) (length-slice start n bytes fits)
        (from_be_bytes-lt (slice start n bytes) (All-slice IsByte start n bytes b))

-- A header that passed: its two tests.
pub guard_header : (a b : Bool) → (not a || not b) ≡ false → (a ≡ true) × (b ≡ true)
guard_header a b h = ground arith

pub require_schema-eq_ok :
    (artifact : String) (schema : ℕ) {u : Unit {0}}
    → require_schema artifact schema ≡ ok u
    → schema ≡ schema_version
require_schema-eq_ok artifact schema h = ground arith

pub not-false : (b : Bool) → not b ≡ false → b ≡ true
not-false true h = refl
not-false false h = cc h

pub first_only : (b c : Bool) → (not b || c) ≡ false → (b ≡ true) × (c ≡ false)
first_only b c h = ground arith

pub neither : (b c : Bool) → (b || c) ≡ false → (b ≡ false) × (c ≡ false)
neither b c h = ground arith
