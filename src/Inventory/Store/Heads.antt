-- ===== src/Inventory/Store/Heads.antt =====
-- The head file: the name of a state and a line feed, and reading it back.
use check_po.Prelude.{
  ℕ, ◌<◌, ◌≡◌, refl, ap, true, false, ◌||◌, some, String, List, [], ◌∷◌, ◌++◌, arith, length,
  length-append, All-append, all_true, any_true, ◌==◌, Bool-cases, inl, inr,
}
use check_po.Prelude.Result.{ok, ok_or, reject_if}
use check_po.Prelude.Map.{get}
use check_po.Prelude.Text.{codes, strip_suffix}
use check_po.Prelude.Text.Ends.{strip_suffix-append}
use check_po.Prelude.Text.Utf8.{as_bytes, from_utf8, from_utf8-as_bytes, IsText}
use check_po.Prelude.Text.Utf8.Ascii.{IsAscii, as_bytes-IsAscii}
use check_po.Codec.{Digest32, IsArray}
use check_po.Path.Id.{parse_object_id, is_lower_hex, encode_lower_hex}
use check_po.Path.Id.RoundTrip.{
  Names, encode_lower_hex-lower, lower-IsAscii, length-encode_lower_hex,
  decode_lower_hex-encode_lower_hex,
}
use check_po.Path.Id.Valid.{validate_lower_hex_id_iff}
use check_po.Inventory.{corruption}
use check_po.Inventory.Store.{
  Files, inventory_head_path, head_bytes_max, read_bytes_bounded, parse_id, inventory_head,
  InventoryHead,
}
use check_po.Inventory.Store.Loaded.{
  read_bytes_bounded-found, lift-eq_ok, StateAt, StateAt-load_state, load_state-StateAt,
}

pub parse_id-encode_lower_hex :
    (id : Digest32) (message : String)
    → IsArray 32 id
    → parse_id (encode_lower_hex id) message ≡ ok id
unfolding parse_id parse_object_id
parse_id-encode_lower_hex id message a =
    let names : Names 32 (encode_lower_hex id) = record { bytes = id; array = a; text = refl } in
    rw
      (
        (validate_lower_hex_id_iff (encode_lower_hex id) "object").1 names,
        decode_lower_hex-encode_lower_hex 32 id a,
      )
      refl

-- The content of the head that names a state.
abbrev pub head_text : Digest32 → List ℕ
head_text id = encode_lower_hex id ++ codes "\n"

abbrev pub head_bytes : Digest32 → List ℕ
head_bytes id = as_bytes (head_text id)

head_text-IsAscii : (id : Digest32) → IsArray 32 id → IsAscii (head_text id)
head_text-IsAscii id a =
    All-append (λ c. c < 128) (encode_lower_hex id) (codes "\n")
      (lower-IsAscii (encode_lower_hex id) (encode_lower_hex-lower id a.1)) (omega arith, tt)

IsAscii-IsText : (s : List ℕ) → IsAscii s → IsText s
IsAscii-IsText [] h = tt
IsAscii-IsText (c ∷ s) h = (omega (arith, h.0), IsAscii-IsText s h.1)

not_break : (c : ℕ) → is_lower_hex c ≡ true → (c == 13 || c == 10) ≡ false
unfolding is_lower_hex
not_break c h = ground arith

lower_no_break :
    (s : List ℕ) → all_true is_lower_hex s ≡ true → any_true (λ c. c == 13 || c == 10) s ≡ false
lower_no_break [] h = refl
lower_no_break (c ∷ s) h = elim (Bool-cases (is_lower_hex c)) [
  | inl e ↦ rw (not_break c e, lower_no_break s (rw e at h)) refl
  | inr e ↦ absurd (cc (rw e at h))
]

module _ (hash : List ℕ → Digest32) where
  -- A head that names a state in the files is read.
  pub inventory_head-found :
      (files : Files) (project_id : List ℕ) (head : InventoryHead)
      → IsArray 32 head.id
      → get inventory_head_path files ≡ some (head_bytes head.id)
      → StateAt hash files project_id head
      → inventory_head hash project_id files ≡ (ok head, files)
  unfolding inventory_head
  inventory_head-found files project_id head a h s =
      let ascii = head_text-IsAscii head.id a in
      let long : length (head_bytes head.id) ≡ 65 = omega (
        arith,
        ap length (as_bytes-IsAscii (head_text head.id) ascii),
        length-append (encode_lower_hex head.id) (codes "\n"),
        length-encode_lower_hex head.id,
        a.0,
      ) in
      rw
        (
          read_bytes_bounded-found files inventory_head_path head_bytes_max (head_bytes head.id) h
              (omega (arith, long)),
          from_utf8-as_bytes (head_text head.id) (IsAscii-IsText (head_text head.id) ascii),
          strip_suffix-append (codes "\n") (encode_lower_hex head.id),
          lower_no_break (encode_lower_hex head.id) (encode_lower_hex-lower head.id a.1),
          parse_id-encode_lower_hex head.id "snapshot inventory head id is invalid: {path}" a,
          StateAt-load_state hash files project_id head s,
        )
        refl

  -- The head that is read is the state that stands in the files under its identifier.
  pub inventory_head-StateAt :
      (files files' : Files) (project_id : List ℕ) (head : InventoryHead)
      → inventory_head hash project_id files ≡ (ok head, files')
      → StateAt hash files project_id head
  unfolding inventory_head
  inventory_head-StateAt files files' project_id head h =
      let (bytes, g1, h1) =
        lift-eq_ok (read_bytes_bounded files inventory_head_path head_bytes_max) files _ h in
      let (text, g2, h2) =
        lift-eq_ok
          (ok_or (from_utf8 bytes) (corruption "snapshot inventory head is not UTF-8: {path}"))
          files _ h1 in
      let (id_text, g3, h3) =
        lift-eq_ok
          (ok_or (strip_suffix (codes "\n") text)
            (corruption "snapshot inventory head is not canonical: {path}"))
          files _ h2 in
      let (u, g4, h4) =
        lift-eq_ok
          (reject_if (any_true (λ c. c == 13 || c == 10) id_text)
            (corruption "snapshot inventory head contains trailing data: {path}"))
          files _ h3 in
      let (id, g5, h5) =
        lift-eq_ok (parse_id id_text "snapshot inventory head id is invalid: {path}") files _ h4 in
      (load_state-StateAt hash files files' id project_id head h5).0
