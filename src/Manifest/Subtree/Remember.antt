-- ===== src/Manifest/Subtree/Remember.antt =====
-- What is put into the cache is so.
use check_po.Prelude.{
  ℕ, ◌≡◌, refl, sym, ap, subst, ◌∙◌, Option, none, some, List, arith, length, ltb, leb, list_eq,
  list_eq→eq, inl, inr, Bool-cases,
}
use check_po.Prelude.Result.{ok, err, reject_if, >>=-eq_ok}
use check_po.Prelude.Map.{get, insert, get-insert_same, get-insert_other}
use check_po.Codec.{ChunkKind, root, node, leaf, kind_byte, Digest32, ManifestRef}
use check_po.Manifest.{SnapshotV2Result, KeyedEntry, invalid, cache_full, cache_heavy}
use check_po.Manifest.Leaf.{ValidationInfo}
use check_po.Manifest.Build.{ref_key}
use check_po.Manifest.Subtree.{
  max_manifest_validation_chunks, max_manifest_validation_cache_bytes, saturating_add,
  ManifestValidationCache, Validation, then_step, estimated_bytes, cached, with_cache, remember,
}
use check_po.Manifest.Subtree.Walk.{Tree}
use check_po.Manifest.Subtree.Children.{Trusted, Answers, Sound}

kind_byte_injective : (a b : ChunkKind) → kind_byte a ≡ kind_byte b → a ≡ b
kind_byte_injective root root h = refl
kind_byte_injective root node h = absurd (omega (arith, h))
kind_byte_injective root leaf h = absurd (omega (arith, h))
kind_byte_injective node root h = absurd (omega (arith, h))
kind_byte_injective node node h = refl
kind_byte_injective node leaf h = absurd (omega (arith, h))
kind_byte_injective leaf root h = absurd (omega (arith, h))
kind_byte_injective leaf node h = absurd (omega (arith, h))
kind_byte_injective leaf leaf h = refl

ref_key_injective : (a b : ManifestRef) → ref_key a ≡ ref_key b → a ≡ b
ref_key_injective a b h =
    let k : kind_byte a.kind ≡ kind_byte b.kind = cc h in
    let i : a.id ≡ b.id = cc h in let kinds = kind_byte_injective a.kind b.kind k in cc (kinds, i)

module _ (nfc : List ℕ → List ℕ) (to_lowercase : ℕ → ℕ × ℕ) (hash : List ℕ → Digest32)
    (source : ManifestRef → SnapshotV2Result (List ℕ)) (ref_size info_size : ℕ)
    (capacity : List ℕ → ℕ) where
  -- What is put into the cache is so.
  insert-Trusted :
      (cache : ManifestValidationCache) (bytes : ℕ) (reference : ManifestRef)
      (info : ValidationInfo) (range : List KeyedEntry)
      → Trusted nfc to_lowercase hash source cache
      → Tree nfc to_lowercase hash source reference info range
      → Trusted nfc to_lowercase hash source (record {
        validated = insert (ref_key reference) info cache.validated;
        estimated_heap_bytes = bytes;
      })
  insert-Trusted cache bytes reference info range trusted tree other there h =
      elim (Bool-cases (list_eq (ref_key reference) (ref_key other))) [
        | inl t ↦
            let keys = list_eq→eq (ref_key reference) (ref_key other) t in
            let same = ref_key_injective reference other keys in
            let found : some info ≡ some there =
              sym (get-insert_same (ref_key reference) info cache.validated)
              ∙ ap (λ k. get k (insert (ref_key reference) info cache.validated)) keys
              ∙ h in
            let infos : info ≡ there = cc found in
            (
              range,
              subst (λ i. Tree nfc to_lowercase hash source other i range) infos
                  (subst (λ r. Tree nfc to_lowercase hash source r info range) same tree),
            )
        | inr f ↦
            trusted other there (
              sym (get-insert_other (ref_key other) (ref_key reference) info cache.validated f) ∙ h)
      ]

  remember-Sound :
      (depths : ℕ) (reference : ManifestRef) (info : ValidationInfo) (state : Validation)
      → Trusted nfc to_lowercase hash source state.cache
      → Answers nfc to_lowercase hash source depths reference (ok info)
      → Sound nfc to_lowercase hash source depths reference
          (remember ref_size info_size capacity reference info state)
  remember-Sound depths reference info state trusted answers =
      known (get (ref_key reference) state.cache.validated)
    where
      kept :
          (r : SnapshotV2Result ManifestValidationCache)
          → ((cache : ManifestValidationCache)
              → r ≡ ok cache
              → Trusted nfc to_lowercase hash source cache)
          → Sound nfc to_lowercase hash source depths reference
              (with_cache ref_size info_size capacity r info state)
      kept (err e) t = (trusted, tt)
      kept (ok cache) t = (t cache refl, answers)

      known :
          (found : Option ValidationInfo)
          → Sound nfc to_lowercase hash source depths reference (
              with_cache ref_size info_size capacity
                (cached ref_size info_size capacity found (ref_key reference) info state.cache)
                info
                state)
      known (some i) = kept (ok state.cache) (λ cache h.
          let e : state.cache ≡ cache = cc h in
          subst (Trusted nfc to_lowercase hash source) e trusted)
      known none =
          kept (cached ref_size info_size capacity none (ref_key reference) info state.cache)
            λ cache h.
              let (u, room, h1) =
                >>=-eq_ok
                  (reject_if (leb max_manifest_validation_chunks (length state.cache.validated))
                    (invalid cache_full))
                  _ h in
              let (u', light, h2) =
                >>=-eq_ok
                  (reject_if
                    (ltb max_manifest_validation_cache_bytes (
                      saturating_add state.cache.estimated_heap_bytes
                        (estimated_bytes ref_size info_size capacity info)))
                    (invalid cache_heavy))
                  _ h1 in
              let e : record {
                validated = insert (ref_key reference) info state.cache.validated;
                estimated_heap_bytes =
                    saturating_add state.cache.estimated_heap_bytes
                      (estimated_bytes ref_size info_size capacity info);
              }
                  ≡ cache =
                cc h2 in
              subst (Trusted nfc to_lowercase hash source) e (
                insert-Trusted state.cache
                  (saturating_add state.cache.estimated_heap_bytes
                    (estimated_bytes ref_size info_size capacity info))
                  reference info answers.0 trusted answers.1)

  -- Then it is remembered.
  pub remembered :
      (depths : ℕ) (reference : ManifestRef) (m : SnapshotV2Result ValidationInfo × Validation)
      → Sound nfc to_lowercase hash source depths reference m
      → Sound nfc to_lowercase hash source depths reference
          (then_step m (remember ref_size info_size capacity reference))
  remembered depths reference (err e, state) (t, u) = (t, tt)
  remembered depths reference (ok info, state) (t, answers) =
      remember-Sound depths reference info state t answers
