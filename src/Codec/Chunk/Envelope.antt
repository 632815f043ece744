-- ===== src/Codec/Chunk/Envelope.antt =====
-- The envelope and its decoder are inverse to one another.
use check_po.Prelude.{
  ℕ, ◌+◌, ◌-◌, ◌^◌, ◌≤◌, ◌<◌, ◌≡◌, refl, sym, ap, ◌∙◌, take-append-drop, drop-eq_cons, drop-drop,
  length-drop, length-take, All-of_append, list_eq→eq, subst, true, List, [], ◌∷◌, ◌++◌, arith,
  length, take, drop, take-append, drop-append, length-append, get_or, list_eq, list_eq_refl, All,
}
use check_po.Prelude.Result.{ok}
use check_po.Prelude.Bytes.{
  IsByte, to_be_bytes-from_be_bytes, to_be_bytes, from_be_bytes, to_be_bytes_zero,
  length-to_be_bytes, from_be_bytes-to_be_bytes, from_be_bytes_zero, from_be_bytes_two,
}
use check_po.Codec.{
  magic, codec_version, envelope_len, ChunkKind, root, node, leaf, kind_byte, parse_kind,
  maximum_stored_len,
}
use check_po.Codec.Checks.{usize_to_u32}
use check_po.Codec.Chunk.{envelope, decode_envelope, kind_eq}

-- Sixteen bytes of header before the payload.
abbrev pub framed : ChunkKind → List ℕ → List ℕ
framed kind payload =
    67
    ∷ 80
    ∷ 77
    ∷ 82
    ∷ 75
    ∷ 76
    ∷ 50
    ∷ 0
    ∷ kind_byte kind
    ∷ codec_version
    ∷ 0
    ∷ 0
    ∷ (to_be_bytes 4 (length payload) ++ payload)

-- An envelope is made exactly when it is within the limit of its kind.
abbrev pub Fits : ChunkKind → List ℕ → Type 0
Fits kind payload = envelope_len + length payload ≤ maximum_stored_len kind

maximum_stored_len-lt : (kind : ChunkKind) → maximum_stored_len kind < 2 ^ 31
unfolding maximum_stored_len
maximum_stored_len-lt root = omega arith
maximum_stored_len-lt node = omega arith
maximum_stored_len-lt leaf = omega arith

module _ (kind : ChunkKind) (payload : List ℕ) where
  pub envelope-eq_ok :
      (stored : List ℕ)
      → envelope kind payload ≡ ok stored
      → (stored ≡ framed kind payload) × Fits kind payload
  unfolding envelope usize_to_u32
  envelope-eq_ok stored h = ground (arith, to_be_bytes_zero)

  pub envelope-framed : Fits kind payload → envelope kind payload ≡ ok (framed kind payload)
  unfolding envelope usize_to_u32
  envelope-framed h = ground (arith, to_be_bytes_zero, maximum_stored_len-lt kind)

  pub length-framed : length (framed kind payload) ≡ envelope_len + length payload
  length-framed = omega (
    arith,
    length-append (to_be_bytes 4 (length payload)) payload,
    length-to_be_bytes 4 (length payload),
  )

  header_length :
      take 4 (to_be_bytes 4 (length payload) ++ payload) ≡ to_be_bytes 4 (length payload)
  header_length =
      let e : length (to_be_bytes 4 (length payload)) ≡ 4 = length-to_be_bytes 4 (length payload) in
      subst
        (λ n. take n (to_be_bytes 4 (length payload) ++ payload) ≡ to_be_bytes 4 (length payload)) e
        (take-append (to_be_bytes 4 (length payload)) payload)

  after_header : drop 4 (to_be_bytes 4 (length payload) ++ payload) ≡ payload
  after_header =
      let e : length (to_be_bytes 4 (length payload)) ≡ 4 = length-to_be_bytes 4 (length payload) in
      subst (λ n. drop n (to_be_bytes 4 (length payload) ++ payload) ≡ payload) e
        (drop-append (to_be_bytes 4 (length payload)) payload)

parse_kind-kind_byte : (kind : ChunkKind) → parse_kind (kind_byte kind) ≡ ok kind
unfolding parse_kind
parse_kind-kind_byte root = refl
parse_kind-kind_byte node = refl
parse_kind-kind_byte leaf = refl

pub decode_envelope-framed :
    (kind : ChunkKind) (payload : List ℕ)
    → Fits kind payload
    → decode_envelope (framed kind payload) kind ≡ ok payload
unfolding decode_envelope
decode_envelope-framed kind payload h = ground (
  arith,
  length-framed kind payload,
  header_length kind payload,
  after_header kind payload,
  parse_kind-kind_byte kind,
  maximum_stored_len-lt kind,
  list_eq_refl magic,
  from_be_bytes_zero,
  from_be_bytes-to_be_bytes 4 (length payload),
)

-- What the guards of `decode_envelope` leave.
record Header (stored : List ℕ) (kind : ChunkKind) : Type 0 where
  long : envelope_len ≤ length stored
  within : length stored ≤ maximum_stored_len kind
  magic_eq : list_eq (take 8 stored) magic ≡ true
  kind_ok :
      (found : ChunkKind) × (parse_kind (get_or stored 8 0) ≡ ok found)
      × (kind_eq found kind ≡ true)
  version_eq : get_or stored 9 0 ≡ codec_version
  flags_eq : from_be_bytes (get_or stored 10 0 ∷ get_or stored 11 0 ∷ []) ≡ 0
  len_eq : from_be_bytes (take 4 (drop 12 stored)) ≡ length stored - envelope_len

decode_envelope-Header :
    (stored : List ℕ) (kind : ChunkKind) (payload : List ℕ)
    → decode_envelope stored kind ≡ ok payload
    → Header stored kind × (payload ≡ drop envelope_len stored)
unfolding decode_envelope
decode_envelope-Header stored kind payload h = ground arith

parse_kind-eq_ok : (b : ℕ) (kind : ChunkKind) → parse_kind b ≡ ok kind → b ≡ kind_byte kind
unfolding parse_kind
parse_kind-eq_ok b kind h = ground arith

kind_eq→eq : (a b : ChunkKind) → kind_eq a b ≡ true → kind_byte a ≡ kind_byte b
kind_eq→eq a b h = ground arith

-- A list of sixteen elements or more, in its parts.
header_parts :
    (xs : List ℕ)
    → 16 ≤ length xs
    → xs
      ≡ take 8 xs
        ++ (get_or xs 8 0
            ∷ get_or xs 9 0
            ∷ get_or xs 10 0
            ∷ get_or xs 11 0
            ∷ (take 4 (drop 12 xs) ++ drop 16 xs))
header_parts xs h =
    sym (take-append-drop 8 xs)
    ∙ ap (λ ys. take 8 xs ++ ys)
        (drop-eq_cons 8 xs 0 (omega arith)
          ∙ ap (λ ys. get_or xs 8 0 ∷ ys)
              (drop-eq_cons 9 xs 0 (omega arith)
                ∙ ap (λ ys. get_or xs 9 0 ∷ ys)
                    (drop-eq_cons 10 xs 0 (omega arith)
                      ∙ ap (λ ys. get_or xs 10 0 ∷ ys)
                          (drop-eq_cons 11 xs 0 (omega arith)
                            ∙ ap (λ ys. get_or xs 11 0 ∷ ys) rest))))
  where
    rest : drop 12 xs ≡ take 4 (drop 12 xs) ++ drop 16 xs
    rest =
        sym (take-append-drop 4 (drop 12 xs))
        ∙ ap (λ ys. take 4 (drop 12 xs) ++ ys) (drop-drop 4 12 16 xs refl)

kind_field :
    (stored : List ℕ) (kind : ChunkKind) → Header stored kind → get_or stored 8 0 ≡ kind_byte kind
kind_field stored kind header =
    let (found, parsed, same) = header.kind_ok in
    parse_kind-eq_ok _ found parsed ∙ kind_eq→eq found kind same

kind_byte-injective : (a b : ChunkKind) → kind_byte a ≡ kind_byte b → a ≡ b
kind_byte-injective a b h = ground arith

framed_of :
    {m l : List ℕ} (p : List ℕ) (kind : ChunkKind) {k v f g : ℕ}
    → m ≡ magic
    → k ≡ kind_byte kind
    → v ≡ codec_version
    → f ≡ 0
    → g ≡ 0
    → l ≡ to_be_bytes 4 (length p)
    → m ++ (k ∷ v ∷ f ∷ g ∷ (l ++ p)) ≡ framed kind p
framed_of p kind em ek ev ef eg el = rw (em, ek, ev, ef, eg, el)

module _ (stored : List ℕ) (kind : ChunkKind) (bytes : All IsByte stored)
    (header : Header stored kind) where
  abbrev payload_of : List ℕ
  payload_of = drop envelope_len stored

  length_payload : length stored ≡ envelope_len + length payload_of
  length_payload = omega (arith, header.long, length-drop envelope_len stored)

  after_eight : All IsByte (drop 12 stored)
  after_eight =
      (All-of_append IsByte (take 12 stored) (drop 12 stored)
        (rw (take-append-drop 12 stored) bytes)).1

  payload_bytes : All IsByte payload_of
  payload_bytes =
      (All-of_append IsByte (take 16 stored) (drop 16 stored)
        (rw (take-append-drop 16 stored) bytes)).1

  length_field : take 4 (drop 12 stored) ≡ to_be_bytes 4 (length payload_of)
  length_field =
      let four : length (take 4 (drop 12 stored)) ≡ 4 =
        length-take 4 (drop 12 stored) (omega (arith, header.long, length-drop 12 stored)) in
      let field : All IsByte (take 4 (drop 12 stored)) =
        (All-of_append IsByte (take 4 (drop 12 stored)) (drop 4 (drop 12 stored))
          (rw (take-append-drop 4 (drop 12 stored)) after_eight)).0 in
      let back = to_be_bytes-from_be_bytes (take 4 (drop 12 stored)) field in
      let value : from_be_bytes (take 4 (drop 12 stored)) ≡ length payload_of =
        omega (arith, header.len_eq, length_payload) in
      sym (rw (four, value) at back)

  flag_bytes : (get_or stored 10 0 ≡ 0) × (get_or stored 11 0 ≡ 0)
  flag_bytes =
      omega (arith, header.flags_eq, from_be_bytes_two (get_or stored 10 0) (get_or stored 11 0))

  stored-framed : stored ≡ framed kind payload_of
  stored-framed =
      header_parts stored header.long
      ∙ framed_of payload_of kind (list_eq→eq _ _ header.magic_eq) (kind_field stored kind header)
          header.version_eq flag_bytes.0 flag_bytes.1 length_field

-- The bytes that `decode_envelope` accepts are the envelope of what it returns.
pub decode_envelope-eq_ok :
    (stored : List ℕ) (kind : ChunkKind) (payload : List ℕ)
    → All IsByte stored
    → decode_envelope stored kind ≡ ok payload
    → (stored ≡ framed kind payload) × Fits kind payload × All IsByte payload
decode_envelope-eq_ok stored kind payload bytes h =
    let (header, e) = decode_envelope-Header stored kind payload h in
    let fits : Fits kind (drop envelope_len stored) =
      omega (arith, header.within, length_payload stored kind bytes header) in
    rw e (stored-framed stored kind bytes header, fits, payload_bytes stored kind bytes header)

-- One string of bytes is the envelope of one kind only.
pub decode_envelope_kind :
    (stored : List ℕ) (k k' : ChunkKind) (p p' : List ℕ)
    → decode_envelope stored k ≡ ok p
    → decode_envelope stored k' ≡ ok p'
    → (k ≡ k') × (p ≡ p')
decode_envelope_kind stored k k' p p' h h' =
    let (a, e) = decode_envelope-Header stored k p h in
    let (b, e') = decode_envelope-Header stored k' p' h' in
    (kind_byte-injective k k' (sym (kind_field stored k a) ∙ kind_field stored k' b), e ∙ sym e')
