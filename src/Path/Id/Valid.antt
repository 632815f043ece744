-- ===== src/Path/Id/Valid.antt =====
-- Which texts are identifiers, and that decoding an identifier cannot fail.
use check_po.Prelude.{
  ℕ, ◌*◌, ◌≡◌, sym, ap, ◌∙◌, subst, ◌↔◌, true, some, List, arith, length, all_true, String,
}
use check_po.Prelude.Result.{ok, >>=-eq_ok}
use check_po.Prelude.Text.Utf8.{as_bytes}
use check_po.Prelude.Text.Utf8.Ascii.{as_bytes-IsAscii, IsAscii-bytes-IsAscii}
use check_po.Codec.{IsArray}
use check_po.Path.Id.{
  is_lower_hex, validate_lower_hex_id, validate_project_id, encode_lower_hex, decode_lower_hex,
  parse_snapshot_id, parse_object_id, parse_project_id,
}
use check_po.Path.Id.RoundTrip.{
  Names, named_pairs, lower-IsAscii, encoded_bytes, encode_lower_hex-lower, length-encode_lower_hex,
  decode_lower_hex-encode_lower_hex, test_of_eq,
}

lower_hex_checks :
    (input : List ℕ) (label : String)
    → validate_lower_hex_id input label ≡ ok tt
    → (length (as_bytes input) ≡ 64) × (all_true is_lower_hex (as_bytes input) ≡ true)
unfolding validate_lower_hex_id
lower_hex_checks input label h = ground arith

project_checks :
    (input : List ℕ)
    → validate_project_id input ≡ ok tt
    → (length (as_bytes input) ≡ 32) × (all_true is_lower_hex (as_bytes input) ≡ true)
unfolding validate_project_id
project_checks input h = ground arith

pub Names-of :
    (n : ℕ) (s : List ℕ)
    → length (as_bytes s) ≡ n * 2
    → all_true is_lower_hex (as_bytes s) ≡ true
    → Names n s
Names-of n s e h =
    let same = as_bytes-IsAscii s (IsAscii-bytes-IsAscii s (lower-IsAscii (as_bytes s) h)) in
    named_pairs n s (rw same at e) (rw same at h)

pub named_checks :
    (n : ℕ) (s : List ℕ)
    → Names n s
    → (length (as_bytes s) ≡ n * 2) × (all_true is_lower_hex (as_bytes s) ≡ true)
named_checks n s names =
    subst (λ t. (length (as_bytes t) ≡ n * 2) × (all_true is_lower_hex (as_bytes t) ≡ true))
      (sym names.text)
      (
        rw (
          encoded_bytes names.bytes names.array.1,
          length-encode_lower_hex names.bytes,
          names.array.0,
        ),
        rw (encoded_bytes names.bytes names.array.1)
            (encode_lower_hex-lower names.bytes names.array.1),
      )

-- A text passes as the identifier of a snapshot or an object exactly when it is what
-- `encode_lower_hex` makes of some 32 bytes.
pub validate_lower_hex_id_iff :
    (input : List ℕ) (label : String) → (validate_lower_hex_id input label ≡ ok tt) ↔ Names 32 input
unfolding validate_lower_hex_id
validate_lower_hex_id_iff input label = (
  λ h. let (e, hex) = lower_hex_checks input label h in Names-of 32 input e hex,
  λ names. let (e, hex) = named_checks 32 input names in rw (test_of_eq _ 64 e, hex),
)

-- A text passes as the identifier of a project exactly when it is what `encode_lower_hex` makes of
-- some 16 bytes.
pub validate_project_id_iff :
    (input : List ℕ) → (validate_project_id input ≡ ok tt) ↔ Names 16 input
unfolding validate_project_id
validate_project_id_iff input = (
  λ h. let (e, hex) = project_checks input h in Names-of 16 input e hex,
  λ names. let (e, hex) = named_checks 16 input names in rw (test_of_eq _ 32 e, hex),
)

-- The bytes that an identifier decodes to, and that they give the identifier back.
pub record DecodesTo (n : ℕ) (id : List ℕ) : Type 0 where
  pub bytes : List ℕ
  pub decodes : decode_lower_hex n id ≡ some bytes
  pub array : IsArray n bytes
  pub encodes : encode_lower_hex bytes ≡ id

decodes_to : (n : ℕ) (id : List ℕ) → Names n id → DecodesTo n id
decodes_to n id names = record {
  bytes = names.bytes;
  decodes =
      ap (decode_lower_hex n) names.text
      ∙ decode_lower_hex-encode_lower_hex n names.bytes names.array;
  array = names.array;
  encodes = sym names.text;
}

-- Every identifier of a snapshot that parses decodes to 32 bytes, which encode to the identifier:
-- the `expect` of `SnapshotId::digest_bytes` never fails.
pub parse_snapshot_id-DecodesTo :
    (input id : List ℕ) → parse_snapshot_id input ≡ ok id → DecodesTo 32 id
unfolding parse_snapshot_id
parse_snapshot_id-DecodesTo input id h =
    let (u, e, e') = >>=-eq_ok (validate_lower_hex_id input "snapshot") _ h in
    subst (DecodesTo 32) (let same : input ≡ id = cc e' in same)
      (decodes_to 32 input ((validate_lower_hex_id_iff input "snapshot").0 e))

-- The same for an object.
pub parse_object_id-DecodesTo :
    (input id : List ℕ) → parse_object_id input ≡ ok id → DecodesTo 32 id
unfolding parse_object_id
parse_object_id-DecodesTo input id h =
    let (u, e, e') = >>=-eq_ok (validate_lower_hex_id input "object") _ h in
    subst (DecodesTo 32) (let same : input ≡ id = cc e' in same)
      (decodes_to 32 input ((validate_lower_hex_id_iff input "object").0 e))

-- Every identifier of a project that parses decodes to 16 bytes, which encode to the identifier:
-- the `expect` of `ProjectId::uuid_bytes` never fails.
pub parse_project_id-DecodesTo :
    (input id : List ℕ) → parse_project_id input ≡ ok id → DecodesTo 16 id
unfolding parse_project_id
parse_project_id-DecodesTo input id h =
    let (u, e, e') = >>=-eq_ok (validate_project_id input) _ h in
    subst (DecodesTo 16) (let same : input ≡ id = cc e' in same)
      (decodes_to 16 input ((validate_project_id_iff input).0 e))
