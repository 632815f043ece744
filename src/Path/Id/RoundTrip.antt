-- ===== src/Path/Id/RoundTrip.antt =====
-- Identifiers and the bytes that they name.
use check_po.Prelude.{
  ℕ, zero, suc, ◌+◌, ◌*◌, ◌/◌, ◌%◌, ◌≡◌, refl, ap, true, some, List, [], ◌∷◌, arith, length, All,
  all_true, ◌==◌, Bool-cases, inl, inr,
}
use check_po.Prelude.Bytes.{IsByte}
use check_po.Prelude.Text.Utf8.{as_bytes}
use check_po.Prelude.Text.Utf8.Ascii.{IsAscii, as_bytes-IsAscii}
use check_po.Codec.{IsArray}
use check_po.Path.Id.{is_lower_hex, encode_lower_hex, decode_pairs, decode_lower_hex}
use check_po.Path.Id.Digits.{Digit, Digit-of, nibble_of}

decode_pairs-encode_lower_hex :
    (bytes : List ℕ) → All IsByte bytes → decode_pairs (encode_lower_hex bytes) ≡ some bytes
unfolding decode_pairs encode_lower_hex
decode_pairs-encode_lower_hex [] h = refl
decode_pairs-encode_lower_hex (b ∷ bytes) h =
    rw
      (
        (Digit-of (b / 16) (omega (arith, h.0))).nibble,
        (Digit-of (b % 16) (omega arith)).nibble,
        decode_pairs-encode_lower_hex bytes h.1,
      )
      (ap (λ x. some (x ∷ bytes)) (omega arith))

pub encode_lower_hex-lower :
    (bytes : List ℕ) → All IsByte bytes → all_true is_lower_hex (encode_lower_hex bytes) ≡ true
unfolding encode_lower_hex
encode_lower_hex-lower [] h = refl
encode_lower_hex-lower (b ∷ bytes) h = rw (
  (Digit-of (b / 16) (omega (arith, h.0))).lower,
  (Digit-of (b % 16) (omega arith)).lower,
  encode_lower_hex-lower bytes h.1,
)

pub lower-IsAscii : (s : List ℕ) → all_true is_lower_hex s ≡ true → IsAscii s
lower-IsAscii [] h = tt
lower-IsAscii (c ∷ s) h = elim (Bool-cases (is_lower_hex c)) [
  | inl e ↦ ((nibble_of c e).1.ascii, lower-IsAscii s (rw e at h))
  | inr e ↦ absurd (cc (rw e at h))
]

pub length-encode_lower_hex : (bytes : List ℕ) → length (encode_lower_hex bytes) ≡ length bytes * 2
unfolding encode_lower_hex
length-encode_lower_hex [] = refl
length-encode_lower_hex (b ∷ bytes) = omega (arith, length-encode_lower_hex bytes)

pub encoded_bytes :
    (bytes : List ℕ) → All IsByte bytes → as_bytes (encode_lower_hex bytes) ≡ encode_lower_hex bytes
encoded_bytes bytes h = as_bytes-IsAscii _ (lower-IsAscii _ (encode_lower_hex-lower bytes h))

pub test_of_eq : (a b : ℕ) → a ≡ b → (a == b) ≡ true
test_of_eq a b h = ground arith

-- The text of an identifier of n bytes decodes to those bytes.
pub decode_lower_hex-encode_lower_hex :
    (n : ℕ) (bytes : List ℕ)
    → IsArray n bytes
    → decode_lower_hex n (encode_lower_hex bytes) ≡ some bytes
unfolding decode_lower_hex
decode_lower_hex-encode_lower_hex n bytes h =
    let e : length (encode_lower_hex bytes) ≡ n * 2 =
      omega (arith, length-encode_lower_hex bytes, h.0) in
    rw (encoded_bytes bytes h.1, test_of_eq (length (encode_lower_hex bytes)) (n * 2) e)
      (decode_pairs-encode_lower_hex bytes h.1)

-- What a text of 2 * n lower-case digits names.
pub record Names (n : ℕ) (s : List ℕ) : Type 0 where
  pub bytes : List ℕ
  pub array : IsArray n bytes
  pub text : s ≡ encode_lower_hex bytes

pub named_pairs :
    (n : ℕ) (s : List ℕ) → length s ≡ n * 2 → all_true is_lower_hex s ≡ true → Names n s
unfolding encode_lower_hex
named_pairs zero [] e h = record { bytes = []; array = (refl, tt); text = refl }
named_pairs zero (c ∷ s) e h = absurd (omega arith)
named_pairs (suc n) [] e h = absurd (omega arith)
named_pairs (suc n) (c ∷ []) e h = absurd (omega arith)
named_pairs (suc n) (c ∷ d ∷ s) e h = elim (Bool-cases (is_lower_hex c)) [
  | inr x ↦ absurd (cc (rw x at h))
  | inl x ↦ elim (Bool-cases (is_lower_hex d)) [
    | inr y ↦ absurd (cc (rw (x, y) at h))
    | inl y ↦ pair (nibble_of c x) (nibble_of d y) (named_pairs n s (omega arith) (rw (x, y) at h))
  ]
]
  where
    pair : ((hi : ℕ) × Digit hi c) → ((lo : ℕ) × Digit lo d) → Names n s → Names (suc n) (c ∷ d ∷ s)
    pair (hi, p) (lo, q) rest =
        let upper : (hi * 16 + lo) / 16 ≡ hi = omega (arith, q.small) in
        let lower : (hi * 16 + lo) % 16 ≡ lo = omega (arith, q.small) in
        record {
          bytes = (hi * 16 + lo) ∷ rest.bytes;
          array = (ap suc rest.array.0, (omega (arith, p.small, q.small), rest.array.1));
          text = rw (upper, lower, p.char, q.char, ← rest.text);
        }
