-- ===== src/Codec/Reader/Reads.antt =====
-- Reading takes off the front what the layout puts there.
use check_po.Prelude.{
  ℕ, ◌^◌, ◌≤◌, ◌<◌, ◌≡◌, refl, subst, ◌≢◌, false, Option, none, some, List, [], ◌∷◌, ◌++◌,
  append_assoc, arith, length, take-append, drop-append, length-append, ltb, ltb-eq_false, String,
}
use check_po.Prelude.Result.{ok}
use check_po.Prelude.Bytes.{
  IsU16, IsU32, IsU64, to_be_bytes, from_be_bytes, length-to_be_bytes, from_be_bytes-to_be_bytes,
}
use check_po.Prelude.Int.{ℤ, i64_word, i64_word-lt, word_i64-i64_word}
use check_po.Prelude.Text.Utf8.{as_bytes, IsText, from_utf8-as_bytes}
use check_po.Codec.{
  CodecResult, IsArray, kind_byte, root, node, leaf, ChunkKind, ManifestRef, Timestamp,
  ManifestSummary, Digest32, IsTimestamp, IsSummary, IsI64, new_timestamp,
}
use check_po.Codec.Checks.{validate_count}
use check_po.Codec.Layout.{blob_bytes, text_bytes, timestamp_bytes, summary_bytes}
use check_po.Codec.Reader.{
  Reader, Read, ◌>>=◌, pure, lift, take_bytes, u8, u16, u32, u64, i64, digest, bytes, string, count,
  summary, read_manifest_kind, manifest_ref, timestamp,
}

abbrev pub reader : List ℕ → Reader
reader bs = record { remaining = bs }

pub record Reads {A : Type 0} (m : Read A) (bs : List ℕ) (a : A) : Type 0 where
  pub at : (rest : List ℕ) → m (reader (bs ++ rest)) ≡ ok (a, reader rest)

module _ {A B : Type 0} {m : Read A} (f : A → Read B) {bs : List ℕ} {a : A} {b : B} where
  pub Reads-bind : {cs : List ℕ} → Reads m bs a → Reads (f a) cs b → Reads (m >>= f) (bs ++ cs) b
  unfolding ◌>>=◌
  Reads-bind {cs} p q = record {
    at = λ rest. rw (append_assoc bs cs rest) (rw (p.at (cs ++ rest), ◌>>=◌) (q.at rest));
  }

  -- The last read, which needs nothing more.
  pub Reads-bind_nil : Reads m bs a → Reads (f a) [] b → Reads (m >>= f) bs b
  unfolding ◌>>=◌
  Reads-bind_nil p q = record { at = λ rest. rw (p.at rest, ◌>>=◌) (q.at rest) }

pub Reads-pure : {A : Type 0} (a : A) → Reads (pure a) [] a
unfolding pure
Reads-pure a = record { at = λ rest. refl }

pub Reads-lift : {A : Type 0} (m : CodecResult A) (a : A) → m ≡ ok a → Reads (lift m) [] a
unfolding lift
Reads-lift m a e = record { at = λ rest. rw e }

pub Reads-check :
    {B : Type 0} (f : (Unit {0}) → Read B) {bs : List ℕ} {b : B} (m : CodecResult (Unit {0}))
    → m ≡ ok tt
    → Reads (f tt) bs b
    → Reads (lift m >>= f) bs b
unfolding lift ◌>>=◌
Reads-check f m e q = record { at = λ rest. rw (e, ◌>>=◌) (q.at rest) }

Reads-take_bytes : (bs : List ℕ) → Reads (take_bytes (length bs)) bs bs
unfolding take_bytes
Reads-take_bytes bs = record {
  at = λ rest.
      let fits : ltb (length (bs ++ rest)) (length bs) ≡ false =
        ltb-eq_false _ _ (omega (arith, length-append bs rest)) in
      rw (fits, take-append bs rest, drop-append bs rest);
}

pub Reads-take : (n : ℕ) (bs : List ℕ) → length bs ≡ n → Reads (take_bytes n) bs bs
Reads-take n bs e = subst (λ k. Reads (take_bytes k) bs bs) e (Reads-take_bytes bs)

pub Reads-u8 : (v : ℕ) → Reads u8 (v ∷ []) v
unfolding u8
Reads-u8 v = Reads-bind_nil _ (Reads-take 1 (v ∷ []) refl) (Reads-pure v)

from_be :
    (n v : ℕ)
    → v < 256 ^ n
    → Reads (take_bytes n >>= λ bs. pure (from_be_bytes bs)) (to_be_bytes n v) v
from_be n v h =
    Reads-bind_nil _ (Reads-take n (to_be_bytes n v) (length-to_be_bytes n v))
      (rw (from_be_bytes-to_be_bytes n v h) (Reads-pure v))

pub Reads-u16 : (v : ℕ) → IsU16 v → Reads u16 (to_be_bytes 2 v) v
unfolding u16
Reads-u16 v h = from_be 2 v h

pub Reads-u32 : (v : ℕ) → IsU32 v → Reads u32 (to_be_bytes 4 v) v
unfolding u32
Reads-u32 v h = from_be 4 v h

pub Reads-u64 : (v : ℕ) → IsU64 v → Reads u64 (to_be_bytes 8 v) v
unfolding u64
Reads-u64 v h = from_be 8 v h

pub Reads-i64 : (v : ℤ) → IsI64 v → Reads i64 (to_be_bytes 8 (i64_word v)) v
unfolding i64
Reads-i64 v h = Reads-bind_nil _ (Reads-take 8 _ (length-to_be_bytes 8 (i64_word v))) (
    rw (from_be_bytes-to_be_bytes 8 (i64_word v) (i64_word-lt v h), word_i64-i64_word v h)
      (Reads-pure v))

pub Reads-digest : (d : Digest32) → IsArray 32 d → Reads digest d d
unfolding digest
Reads-digest d h = Reads-take 32 d h.0

pub Reads-bytes :
    (field : String) (bound : ℕ) (bs : List ℕ)
    → length bs ≤ bound
    → IsU32 (length bs)
    → Reads (bytes field bound) (blob_bytes bs) bs
unfolding bytes
Reads-bytes field bound bs fits h =
    Reads-bind _ (Reads-u32 (length bs) h)
      (Reads-check _ _ (rw (ltb-eq_false bound (length bs) fits)) (Reads-take_bytes bs))

pub Reads-string :
    (field : String) (bound : ℕ) (s : List ℕ)
    → IsText s
    → length (as_bytes s) ≤ bound
    → IsU32 (length (as_bytes s))
    → Reads (string field bound) (text_bytes s) s
unfolding string
Reads-string field bound s text fits h =
    Reads-bind_nil _ (Reads-bytes field bound (as_bytes s) fits h)
      (Reads-lift _ s (rw (from_utf8-as_bytes s text)))

pub Reads-count :
    (field : String) (bound n : ℕ)
    → n ≤ bound
    → IsU32 n
    → Reads (count field bound) (to_be_bytes 4 n) n
unfolding count validate_count
Reads-count field bound n fits h =
    Reads-bind_nil _ (Reads-u32 n h)
      (Reads-check _ _ (rw (ltb-eq_false bound n fits)) (Reads-pure n))

pub Reads-summary : (s : ManifestSummary) → IsSummary s → Reads summary (summary_bytes s) s
unfolding summary
Reads-summary s h = Reads-bind _ (Reads-u64 s.entry_count h.0) (
    Reads-bind _ (Reads-u64 s.logical_size_bytes h.1)
      (Reads-bind_nil _ (Reads-u64 s.total_exact_path_bytes h.2) (Reads-pure s)))

pub Reads-timestamp : (t : Timestamp) → IsTimestamp t → Reads timestamp (timestamp_bytes t) t
unfolding timestamp new_timestamp
Reads-timestamp t h =
    Reads-bind _ (Reads-i64 t.unix_seconds h.0)
      (Reads-bind_nil _ (Reads-u32 t.nanoseconds (omega arith)) (Reads-lift _ t (ground arith)))

kind-Reads :
    (k : ChunkKind) (i : Digest32)
    → k ≢ root
    → IsArray 32 i
    → Reads (manifest_ref (kind_byte k)) i (record { kind = k; id = i })
unfolding manifest_ref read_manifest_kind
kind-Reads root i h d = absurd (h refl)
kind-Reads node i h d =
    Reads-bind _ {bs = []} (Reads-lift _ node refl)
      (Reads-bind_nil _ (Reads-digest i d) (Reads-pure _))
kind-Reads leaf i h d =
    Reads-bind _ {bs = []} (Reads-lift _ leaf refl)
      (Reads-bind_nil _ (Reads-digest i d) (Reads-pure _))

-- A reference as the program makes them: to a node or a leaf, by a digest.
abbrev pub IsRef : ManifestRef → Type 0
IsRef r = (r.kind ≢ root) × IsArray 32 r.id

pub Reads-ref : (r : ManifestRef) → IsRef r → Reads (manifest_ref (kind_byte r.kind)) r.id r
Reads-ref r h = kind-Reads r.kind r.id h.0 h.1

abbrev pub IsOptionalRef : Option ManifestRef → Type 0
IsOptionalRef none = Unit
IsOptionalRef (some r) = IsRef r
