-- ===== src/Path/Tests.antt =====
-- Concrete paths and identifiers.
use check_po.Prelude.{List, [], if◌then◌else◌, list_eq, refl, some, ℕ, ◌++◌, ◌||◌, ◌↔◌, ◌∷◌, ◌≡◌}
use check_po.Prelude.Result.{ok, err}
use check_po.Prelude.Decided.{bytes_decided}
use check_po.Prelude.Text.{codes, split, cons_head, ends_with, strip_prefix, to_ascii_uppercase}
use check_po.Prelude.Text.Utf8.{as_bytes, encode_char}
use check_po.Codec.{IsArray}
use check_po.Path.{
  invalid_tracked_path, reserved_name, slash, is_nil, parse, parse_tracked_paths, to_project_path,
  check_segments, check_segment, is_windows_reserved_name, is_reserved_device_digit,
  is_windows_forbidden_character,
}
use check_po.Path.Id.{
  is_lower_hex, validate_lower_hex_id, validate_project_id, encode_lower_hex, decode_lower_hex,
  parse_snapshot_id, parse_project_id,
}
use check_po.Path.Id.RoundTrip.{Names, decode_lower_hex-encode_lower_hex}
use check_po.Path.Id.Valid.{validate_lower_hex_id_iff}
use check_po.Path.Tracked.{IsTracked}
use check_po.Path.Accepts.{parse_iff}
use check_po.Path.Inside.{resolve, parse-inside}

abbrev script : List ℕ
script = codes "Assets/Scripts/é.cs"

abbrev device_name : List ℕ
device_name = codes "Assets/com1.txt"

script-parses : parse script ≡ ok script
unfolding parse split cons_head check_segments check_segment ends_with list_eq
    is_windows_reserved_name is_reserved_device_digit is_windows_forbidden_character
    to_ascii_uppercase strip_prefix
script-parses = refl

device_name-fails : parse device_name ≡ err (invalid_tracked_path device_name reserved_name)
unfolding parse split cons_head check_segments check_segment ends_with list_eq
    is_windows_reserved_name is_reserved_device_digit is_windows_forbidden_character
    to_ascii_uppercase strip_prefix
device_name-fails = refl

two-fails :
    parse_tracked_paths (script ∷ device_name ∷ [])
    ≡ err (invalid_tracked_path device_name reserved_name)
unfolding parse_tracked_paths parse split cons_head check_segments check_segment ends_with list_eq
    is_windows_reserved_name is_reserved_device_digit is_windows_forbidden_character
    to_ascii_uppercase strip_prefix
two-fails = refl

parse_iff_example : (parse script ≡ ok script) ↔ (IsTracked script × (script ≡ script))
parse_iff_example = parse_iff script script

parse-inside_example :
    (resolve (codes "home" ∷ []) (split slash script)
      ≡ some ((codes "home" ∷ []) ++ split slash script))
    × (to_project_path script (codes "/p")
        ≡ (if is_nil (codes "/p") || ends_with slash (codes "/p")
            then codes "/p"
            else codes "/p" ++ (slash ∷ []))
          ++ script)
parse-inside_example = parse-inside script script (codes "home" ∷ []) (codes "/p") script-parses

abbrev uuid : List ℕ
uuid = 0 ∷ 17 ∷ 34 ∷ 51 ∷ 68 ∷ 85 ∷ 102 ∷ 119 ∷ 136 ∷ 153 ∷ 170 ∷ 187 ∷ 204 ∷ 221 ∷ 238 ∷ 255 ∷ []

abbrev uuid_text : List ℕ
uuid_text = codes "00112233445566778899aabbccddeeff"

abbrev digest_text : List ℕ
digest_text = uuid_text ++ uuid_text

uuid-IsArray : IsArray 16 uuid
uuid-IsArray = (refl, bytes_decided uuid refl)

uuid_text-parses : parse_project_id uuid_text ≡ ok uuid_text
unfolding parse_project_id validate_project_id as_bytes encode_char is_lower_hex
uuid_text-parses = refl

digest_text-parses : parse_snapshot_id digest_text ≡ ok digest_text
unfolding parse_snapshot_id validate_lower_hex_id as_bytes encode_char is_lower_hex
digest_text-parses = refl

decode_lower_hex-encode_lower_hex_example : decode_lower_hex 16 (encode_lower_hex uuid) ≡ some uuid
decode_lower_hex-encode_lower_hex_example = decode_lower_hex-encode_lower_hex 16 uuid uuid-IsArray

validate_lower_hex_id_iff_example :
    (validate_lower_hex_id digest_text "object" ≡ ok tt) ↔ Names 32 digest_text
validate_lower_hex_id_iff_example = validate_lower_hex_id_iff digest_text "object"
