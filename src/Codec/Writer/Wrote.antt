-- ===== src/Codec/Writer/Wrote.antt =====
-- What a write appends, and what it has checked when it succeeds.
use check_po.Prelude.{
  ℕ, ◌^◌, ◌<◌, ◌≡◌, refl, sym, fun_ext, ◌≢◌, Option, none, some, List, [], ◌∷◌, ◌++◌, append_assoc,
  arith, length, String,
}
use check_po.Prelude.Result.{ok, err, bind_assoc, >>=-eq_ok}
use check_po.Prelude.Bytes.{to_be_bytes}
use check_po.Prelude.Int.{ℤ, i64_word}
use check_po.Prelude.Text.Utf8.{as_bytes}
use check_po.Codec.{
  ChunkKind, kind_byte, CodecResult, root, node, leaf, ManifestRef, ManifestSummary, Digest32,
}
use check_po.Codec.Checks.{usize_to_u32}
use check_po.Codec.Layout.{blob_bytes, text_bytes, summary_bytes, optional_ref_bytes, parent_bytes}
use check_po.Codec.Writer.{
  Writer, Write, ◌>>◌, fail, raw, u8, u16, u32, u64, i64, digest, bytes, string, summary,
  manifest_kind, manifest_kind_byte, write_optional_manifest_ref, write_parent, count,
}

-- A success of `f` appends `bs`, and `C` holds.
pub record Wrote (f : Write) (bs : List ℕ) (C : Type 0) : Type 0 where
  pub appends : (w w' : Writer) → f w ≡ ok w' → (w'.bytes ≡ w.bytes ++ bs) × C

-- `f` succeeds and appends `bs`.
pub record Writes (f : Write) (bs : List ℕ) : Type 0 where
  pub runs : (w : Writer) → f w ≡ ok (record { bytes = w.bytes ++ bs })

pub Wrote-Writes : {f : Write} {bs : List ℕ} → Writes f bs → Wrote f bs Unit
Wrote-Writes {f} {bs} p = record { appends = λ w w' h. (cc (p.runs w), tt) }

pub Wrote-map : {f : Write} {bs : List ℕ} {C D : Type 0} → (C → D) → Wrote f bs C → Wrote f bs D
Wrote-map m p = record { appends = λ w w' h. let (e, c) = p.appends w w' h in (e, m c) }

module _ {f g : Write} {bs cs : List ℕ} where
  pub Wrote-then : {C D : Type 0} → Wrote f bs C → Wrote g cs D → Wrote (f >> g) (bs ++ cs) (C × D)
  unfolding ◌>>◌
  Wrote-then p q = record {
    appends = λ w w' h.
        let (mid, e, e') = >>=-eq_ok (f w) g h in
        let (first, c) = p.appends w mid e in
        let (second, d) = q.appends mid w' e' in
        (rw (second, first) (append_assoc w.bytes bs cs), (c, d));
  }

  pub Writes-then : Writes f bs → Writes g cs → Writes (f >> g) (bs ++ cs)
  unfolding ◌>>◌
  Writes-then p q = record {
    runs = λ w. rw (p.runs w) (rw q.runs (rw (append_assoc w.bytes bs cs)));
  }

module _ {f g : Write} {bs cs : List ℕ} {C : Type 0} where
  -- A write that always succeeds adds no condition.
  pub Writes-Wrote : Writes f bs → Wrote g cs C → Wrote (f >> g) (bs ++ cs) C
  Writes-Wrote p q = Wrote-map (λ c. c.1) (Wrote-then (Wrote-Writes p) q)

  pub Wrote-Writes_last : Wrote f bs C → Writes g cs → Wrote (f >> g) (bs ++ cs) C
  Wrote-Writes_last p q = Wrote-map (λ c. c.0) (Wrote-then p (Wrote-Writes q))

module _ {g : Write} {bs : List ℕ} where
  pub fail-Wrote :
      {C : Type 0} (r : CodecResult (Unit {0}))
      → Wrote g bs C
      → Wrote (fail r >> g) bs ((r ≡ ok tt) × C)
  unfolding fail ◌>>◌
  fail-Wrote (ok u) q = record {
    appends = λ w w' h. let (wrote, c) = q.appends w w' h in (wrote, (refl, c));
  }
  fail-Wrote (err e) q = record { appends = λ w w' h. absurd (cc h) }

  pub fail-Writes : (r : CodecResult (Unit {0})) → r ≡ ok tt → Writes g bs → Writes (fail r >> g) bs
  unfolding fail ◌>>◌
  fail-Writes r e q = record { runs = λ w. rw e (q.runs w) }

pub Writes-raw : (value : List ℕ) → Writes (raw value) value
unfolding raw
Writes-raw value = record { runs = λ w. refl }

pub Writes-u8 : (value : ℕ) → Writes (u8 value) (value ∷ [])
unfolding u8
Writes-u8 value = record { runs = λ w. refl }

pub Writes-u16 : (value : ℕ) → Writes (u16 value) (to_be_bytes 2 value)
unfolding u16
Writes-u16 value = record { runs = λ w. refl }

pub Writes-u32 : (value : ℕ) → Writes (u32 value) (to_be_bytes 4 value)
unfolding u32
Writes-u32 value = record { runs = λ w. refl }

pub Writes-u64 : (value : ℕ) → Writes (u64 value) (to_be_bytes 8 value)
unfolding u64
Writes-u64 value = record { runs = λ w. refl }

pub Writes-i64 : (value : ℤ) → Writes (i64 value) (to_be_bytes 8 (i64_word value))
unfolding i64
Writes-i64 value = record { runs = λ w. refl }

pub Writes-digest : (value : Digest32) → Writes (digest value) value
unfolding digest
Writes-digest value = record { runs = λ w. refl }

pub Writes-summary : (s : ManifestSummary) → Writes (summary s) (summary_bytes s)
unfolding summary
Writes-summary s = search (Writes-then, Writes-u64)

usize_to_u32-eq_ok :
    (field : String) (n : ℕ) {len : ℕ} → usize_to_u32 field n ≡ ok len → (len ≡ n) × (n < 2 ^ 32)
unfolding usize_to_u32
usize_to_u32-eq_ok field n h = ground arith

fits-usize_to_u32 : (field : String) (n : ℕ) → n < 2 ^ 32 → usize_to_u32 field n ≡ ok n
unfolding usize_to_u32
fits-usize_to_u32 field n h = ground arith

pub Writes-count : (field : String) (n : ℕ) → n < 2 ^ 32 → Writes (count field n) (to_be_bytes 4 n)
unfolding count
Writes-count field n h = record {
  runs = λ w. rw (fits-usize_to_u32 field n h) ((Writes-u32 n).runs w);
}

pub Wrote-count : (field : String) (n : ℕ) → Wrote (count field n) (to_be_bytes 4 n) (n < 2 ^ 32)
unfolding count
Wrote-count field n = record {
  appends = λ w w' h.
      let (len, e, e') = >>=-eq_ok (usize_to_u32 field n) (λ len. u32 len w) h in
      let (same, fits) = usize_to_u32-eq_ok field n e in
      (cc (same, e', (Writes-u32 len).runs w), fits);
}

bytes_lem :
    (value : List ℕ) → bytes value ≡ (count "byte string length" (length value) >> raw value)
unfolding bytes count ◌>>◌
bytes_lem value = fun_ext λ w.
    sym
      (bind_assoc (usize_to_u32 "byte string length" (length value)) (λ len. u32 len w) (raw value))

pub Wrote-bytes : (value : List ℕ) → Wrote (bytes value) (blob_bytes value) (length value < 2 ^ 32)
Wrote-bytes value =
    rw bytes_lem (Wrote-Writes_last (Wrote-count _ (length value)) (Writes-raw value))

pub Writes-bytes :
    (value : List ℕ) → length value < 2 ^ 32 → Writes (bytes value) (blob_bytes value)
Writes-bytes value h =
    rw bytes_lem (Writes-then (Writes-count _ (length value) h) (Writes-raw value))

pub Wrote-string :
    (value : List ℕ) → Wrote (string value) (text_bytes value) (length (as_bytes value) < 2 ^ 32)
unfolding string
Wrote-string value = Wrote-bytes (as_bytes value)

pub Writes-string :
    (value : List ℕ) → length (as_bytes value) < 2 ^ 32 → Writes (string value) (text_bytes value)
unfolding string
Writes-string value = Writes-bytes (as_bytes value)

kind_Wrote :
    (k : ChunkKind) (i : Digest32)
    → Wrote (manifest_kind (record { kind = k; id = i })) (kind_byte k ∷ []) (k ≢ root)
unfolding manifest_kind manifest_kind_byte u8 raw
kind_Wrote root i = record { appends = λ w w' h. absurd (cc h) }
kind_Wrote node i = record { appends = λ w w' h. (cc, λ e. cc e) }
kind_Wrote leaf i = record { appends = λ w w' h. (cc, λ e. cc e) }

kind_Writes :
    (k : ChunkKind) (i : Digest32)
    → k ≢ root
    → Writes (manifest_kind (record { kind = k; id = i })) (kind_byte k ∷ [])
unfolding manifest_kind manifest_kind_byte u8 raw
kind_Writes root i h = absurd (h refl)
kind_Writes node i h = record { runs = λ w. refl }
kind_Writes leaf i h = record { runs = λ w. refl }

pub Wrote-manifest_kind :
    (r : ManifestRef) → Wrote (manifest_kind r) (kind_byte r.kind ∷ []) (r.kind ≢ root)
Wrote-manifest_kind r = kind_Wrote r.kind r.id

pub Writes-manifest_kind :
    (r : ManifestRef) → r.kind ≢ root → Writes (manifest_kind r) (kind_byte r.kind ∷ [])
Writes-manifest_kind r = kind_Writes r.kind r.id

-- A reference to a node or a leaf.
abbrev pub IsManifest : Option ManifestRef → Type 0
IsManifest none = Unit
IsManifest (some r) = r.kind ≢ root

pub Wrote-optional :
    (o : Option ManifestRef)
    → Wrote (write_optional_manifest_ref o) (optional_ref_bytes o) (IsManifest o)
unfolding write_optional_manifest_ref
Wrote-optional none = Wrote-Writes (Writes-u8 0)
Wrote-optional (some r) = Wrote-Writes_last (Wrote-manifest_kind r) (Writes-digest r.id)

pub Writes-optional :
    (o : Option ManifestRef)
    → IsManifest o
    → Writes (write_optional_manifest_ref o) (optional_ref_bytes o)
unfolding write_optional_manifest_ref
Writes-optional none h = Writes-u8 0
Writes-optional (some r) h = Writes-then (Writes-manifest_kind r h) (Writes-digest r.id)

pub Writes-parent : (o : Option Digest32) → Writes (write_parent o) (parent_bytes o)
unfolding write_parent
Writes-parent none = Writes-u8 0
Writes-parent (some id) = Writes-then (Writes-u8 1) (Writes-digest id)
