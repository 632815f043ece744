-- ===== src/Manifest/Leaf/Loaded.antt =====
-- A chunk that was loaded is the one that the reference names, in its one form.
use check_po.Prelude.{ℕ, ◌≡◌, refl, sym, ap, subst, List, All}
use check_po.Prelude.Result.{ok, err, >>=-eq_ok}
use check_po.Prelude.Bytes.{IsByte}
use check_po.Codec.{CodecResult, ChunkKind, root, node, leaf, Digest32, ManifestRef}
use check_po.Codec.Chunk.{encode_leaf, encode_node, decode_leaf, decode_node}
use check_po.Codec.Chunk.Canonical.{encode_leaf-decode_leaf, encode_node-decode_node}
use check_po.Codec.Identity.{verify_manifest_id}
use check_po.Manifest.{SnapshotV2Result, from_codec}
use check_po.Manifest.Leaf.{DecodedChunk, a_node, a_leaf, decoded, load_chunk}

-- What stands behind a loaded chunk.
abbrev pub IsForm : DecodedChunk → List ℕ → ChunkKind → Type 0
IsForm (a_node n stored) bytes kind = (kind ≡ node) × (stored ≡ bytes) × (encode_node n ≡ ok bytes)
IsForm (a_leaf l stored) bytes kind = (kind ≡ leaf) × (stored ≡ bytes) × (encode_leaf l ≡ ok bytes)

pub from_codec-eq_ok : {A : Type 0} (m : CodecResult A) (a : A) → from_codec m ≡ ok a → m ≡ ok a
from_codec-eq_ok (ok x) a h = let e : x ≡ a = cc h in ap ok e
from_codec-eq_ok (err e) a h = absurd (cc h)

decoded-IsForm :
    (kind : ChunkKind) (bytes : List ℕ) (chunk : DecodedChunk)
    → All IsByte bytes
    → decoded kind bytes ≡ ok chunk
    → IsForm chunk bytes kind
decoded-IsForm root bytes chunk b h = absurd (cc h)
decoded-IsForm node bytes chunk b h =
    let (n, e, e') = >>=-eq_ok (from_codec (decode_node bytes)) _ h in
    let same : a_node n bytes ≡ chunk = cc e' in
    subst (λ c. IsForm c bytes node) same
      (refl, refl, (encode_node-decode_node bytes n b (from_codec-eq_ok _ n e)).0)
decoded-IsForm leaf bytes chunk b h =
    let (l, e, e') = >>=-eq_ok (from_codec (decode_leaf bytes)) _ h in
    let same : a_leaf l bytes ≡ chunk = cc e' in
    subst (λ c. IsForm c bytes leaf) same
      (refl, refl, (encode_leaf-decode_leaf bytes l b (from_codec-eq_ok _ l e)).0)

-- If the source answers with bytes and the chunk loads, then those bytes pass the check of the
-- reference, the chunk is of the reference's kind, it carries those bytes, and encoding it gives
-- them again.
pub load_chunk-IsForm :
    (hash : List ℕ → Digest32) (source : ManifestRef → SnapshotV2Result (List ℕ))
    (reference : ManifestRef) (bytes : List ℕ) (chunk : DecodedChunk)
    → source reference ≡ ok bytes
    → All IsByte bytes
    → load_chunk hash source reference ≡ ok chunk
    → (verify_manifest_id hash reference bytes ≡ ok tt) × IsForm chunk bytes reference.kind
unfolding load_chunk
load_chunk-IsForm hash source reference bytes chunk answer b h =
    let (found, e, h1) = >>=-eq_ok (source reference) _ h in
    let same : found ≡ bytes = cc (e, answer) in
    let (u, passes, h2) = >>=-eq_ok (from_codec (verify_manifest_id hash reference found)) _ h1 in
    subst (λ x. (verify_manifest_id hash reference x ≡ ok tt) × IsForm chunk x reference.kind) same
      (
        from_codec-eq_ok _ tt passes,
        decoded-IsForm reference.kind found chunk (subst (All IsByte) (sym same) b) h2,
      )
