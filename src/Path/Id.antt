-- ===== src/Path/Id.antt =====
-- The identifiers of path.rs: texts of lower-case hexadecimal digits and the bytes that they name.
pub mod Digits
pub mod RoundTrip
pub mod Valid
use check_po.Prelude.{
  ℕ, ◌+◌, ◌-◌, ◌*◌, ◌/◌, ◌%◌, Bool, true, false, not, ◌&&◌, ◌||◌, Option, none, some, List, [], ◌∷◌,
  ◌++◌, String, length, get_or, all_true, leb, ◌==◌, if◌then◌else◌,
}
use check_po.Prelude.Result.{Result, ok, err, ◌>>=◌, ◌>>◌, reject_if}
use check_po.Prelude.Text.{codes, between, strip_prefix}
use check_po.Prelude.Text.Utf8.{as_bytes}

-- `CheckPoError::InvalidId`, with the label and the input that it prints.
pub data IdError : Type 0 where
  invalid_id : String → List ℕ → IdError

-- `b.is_ascii_hexdigit() && !b.is_ascii_uppercase()`
unfoldable pub is_lower_hex : ℕ → Bool
is_lower_hex b = (between 48 57 b || between 97 102 b || between 65 70 b) && not (between 65 90 b)

unfoldable pub validate_lower_hex_id : List ℕ → String → Result IdError (Unit {0})
validate_lower_hex_id input label =
    if not (length (as_bytes input) == 64) || not (all_true is_lower_hex (as_bytes input))
    then err (invalid_id label input)
    else ok tt

unfoldable pub validate_project_id : List ℕ → Result IdError (Unit {0})
validate_project_id input =
    if not (length (as_bytes input) == 32) || not (all_true is_lower_hex (as_bytes input))
    then err (invalid_id "project" input)
    else ok tt

-- b"0123456789abcdef"
abbrev pub hex_digits : List ℕ
hex_digits = codes "0123456789abcdef"

-- `byte >> 4` and `byte & 0x0f` of a byte.
unfoldable pub encode_lower_hex : List ℕ → List ℕ
encode_lower_hex [] = []
encode_lower_hex (byte ∷ bytes) =
    get_or hex_digits (byte / 16) 0 ∷ get_or hex_digits (byte % 16) 0 ∷ encode_lower_hex bytes

unfoldable pub hex_nibble : ℕ → Option ℕ
hex_nibble value =
    if between 48 57 value
    then some (value - 48)
    else if between 97 102 value
    then some (value - 97 + 10)
    else none

-- `?` on an option.
abbrev pub and_then {ℓ κ} : {A : Type ℓ} {B : Type κ} → Option A → (A → Option B) → Option B
and_then none f = none
and_then (some a) f = f a

-- The loop over `chunks_exact(2)`. The low four bits of `hi << 4` are zero, so that `|` adds.
unfoldable pub decode_pairs : List ℕ → Option (List ℕ)
unfolding hex_nibble
decode_pairs [] = some []
decode_pairs (last ∷ []) = some []
decode_pairs (first ∷ second ∷ value) =
    let rest = decode_pairs value in
    and_then (hex_nibble first) λ hi.
      and_then (hex_nibble second) λ lo. and_then rest λ decoded. some ((hi * 16 + lo) ∷ decoded)

-- `decode_lower_hex::<N>`
unfoldable pub decode_lower_hex : ℕ → List ℕ → Option (List ℕ)
unfolding decode_pairs
decode_lower_hex n value =
    if not (length (as_bytes value) == n * 2) then none else decode_pairs (as_bytes value)

-- `SnapshotId::parse`, `ObjectId::parse` and `ProjectId::parse`, whose values are the texts.
unfoldable pub parse_snapshot_id : List ℕ → Result IdError (List ℕ)
unfolding validate_lower_hex_id
parse_snapshot_id input = do validate_lower_hex_id input "snapshot"; ok input

unfoldable pub parse_object_id : List ℕ → Result IdError (List ℕ)
unfolding validate_lower_hex_id
parse_object_id input = do validate_lower_hex_id input "object"; ok input

unfoldable pub parse_project_id : List ℕ → Result IdError (List ℕ)
unfolding validate_project_id
parse_project_id input = do validate_project_id input; ok input
