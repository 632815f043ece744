-- ===== src/Codec/Identity/Separate.antt =====
-- An identifier names one chunk, of one kind, as far as the hash function has no collision.
use check_po.Prelude.{
  ℕ, ◌≡◌, refl, ap, ◌≢◌, ◌∙◌, sym, List, [], ◌∷◌, ◌++◌, ◌⊎◌, inl, inr, Bool-cases, arith, get_or,
  list_eq_refl, list_eq, list_eq→eq,
}
use check_po.Prelude.Result.{ok, >>=-eq_ok}
use check_po.Codec.{Digest32, ChunkKind, root, node, leaf, ManifestRef}
use check_po.Codec.Identity.{
  root_hash_domain, node_hash_domain, leaf_hash_domain, domain_hash, root_id, verify_root_id,
  manifest_id, verify_manifest_id,
}

same_front : (xs ys zs : List ℕ) → xs ++ ys ≡ xs ++ zs → ys ≡ zs
same_front [] ys zs h = h
same_front (x ∷ xs) ys zs h = same_front xs ys zs (cc h)

node_leaf : (a b : List ℕ) → node_hash_domain ++ a ≢ leaf_hash_domain ++ b
node_leaf a b e = let at : 110 ≡ 108 = ap (λ xs. get_or xs 17 0) e in absurd (omega (arith, at))

root_node : (a b : List ℕ) → root_hash_domain ++ a ≢ node_hash_domain ++ b
root_node a b e = let at : 115 ≡ 109 = ap (λ xs. get_or xs 8 0) e in absurd (omega (arith, at))

root_leaf : (a b : List ℕ) → root_hash_domain ++ a ≢ leaf_hash_domain ++ b
root_leaf a b e = let at : 115 ≡ 109 = ap (λ xs. get_or xs 8 0) e in absurd (omega (arith, at))

-- A check passes when the identifier is the hash.
root_checked :
    (hash : List ℕ → Digest32) (id : Digest32) (a : List ℕ) {u : Unit {0}}
    → verify_root_id hash id a ≡ ok u
    → id ≡ hash (root_hash_domain ++ a)
unfolding verify_root_id root_id domain_hash
root_checked hash id a h = sym (list_eq→eq _ _ (ground arith))

manifest_checked :
    (hash : List ℕ → Digest32) (r : ManifestRef) (a : List ℕ) {u : Unit {0}}
    → verify_manifest_id hash r a ≡ ok u
    → manifest_id hash r.kind a ≡ ok r.id
unfolding verify_manifest_id
manifest_checked hash r a h =
    let (actual, e, e') = >>=-eq_ok (manifest_id hash r.kind a) _ h in
    e ∙ ap ok (list_eq→eq actual r.id (ground arith))

-- Two inputs that the hash function confuses.
pub record Collision (hash : List ℕ → Digest32) : Type 0 where
  pub left : List ℕ
  pub right : List ℕ
  pub differ : left ≢ right
  pub same : hash left ≡ hash right

module _ (hash : List ℕ → Digest32) where
  collision : (x y : List ℕ) → x ≢ y → hash x ≡ hash y → Collision hash
  collision x y d s = record { left = x; right = y; differ = d; same = s }

  -- The same domain.
  equal_or :
      (domain a b : List ℕ) → hash (domain ++ a) ≡ hash (domain ++ b) → (a ≡ b) ⊎ Collision hash
  equal_or domain a b h = elim (Bool-cases (list_eq a b)) [
    | inl e ↦ inl (list_eq→eq a b e)
    | inr e ↦
        inr (collision _ _ (λ q. absurd (cc (rw (same_front domain a b q) at e, list_eq_refl b))) h)
  ]

  one_chunk :
      (k k' : ChunkKind) (a b : List ℕ) (id : Digest32)
      → manifest_id hash k a ≡ ok id
      → manifest_id hash k' b ≡ ok id
      → ((k ≡ k') × (a ≡ b)) ⊎ Collision hash
  unfolding manifest_id domain_hash
  one_chunk node node a b id h h' = elim (equal_or node_hash_domain a b (cc (h, h'))) [
    | inl e ↦ inl (refl, e)
    | inr c ↦ inr c
  ]
  one_chunk leaf leaf a b id h h' = elim (equal_or leaf_hash_domain a b (cc (h, h'))) [
    | inl e ↦ inl (refl, e)
    | inr c ↦ inr c
  ]
  one_chunk node leaf a b id h h' = inr (collision _ _ (node_leaf a b) (cc (h, h')))
  one_chunk leaf node a b id h h' = inr (collision _ _ (node_leaf b a) (cc (h, h')))
  one_chunk root k' a b id h h' = absurd (cc h)
  one_chunk node root a b id h h' = absurd (cc h')
  one_chunk leaf root a b id h h' = absurd (cc h')

  root_or_chunk :
      (k : ChunkKind) (a b : List ℕ) (id : Digest32)
      → id ≡ hash (root_hash_domain ++ a)
      → manifest_id hash k b ≡ ok id
      → Collision hash
  unfolding manifest_id domain_hash
  root_or_chunk node a b id h h' = collision _ _ (root_node a b) (cc (h, h'))
  root_or_chunk leaf a b id h h' = collision _ _ (root_leaf a b) (cc (h, h'))
  root_or_chunk root a b id h h' = absurd (cc h')

-- Whatever the hash function is: if two strings of bytes pass the check of references that have
-- the same identifier, then the references and the strings are the same, or there is a collision
-- of the hash function.
pub verify_manifest_id-one_chunk :
    (hash : List ℕ → Digest32) (r r' : ManifestRef) (a b : List ℕ)
    → r.id ≡ r'.id
    → verify_manifest_id hash r a ≡ ok tt
    → verify_manifest_id hash r' b ≡ ok tt
    → ((r ≡ r') × (a ≡ b)) ⊎ Collision hash
verify_manifest_id-one_chunk hash r r' a b same h h' =
    let first = manifest_checked hash r a h in
    let second = manifest_checked hash r' b h' ∙ ap ok (sym same) in
    elim (one_chunk hash r.kind r'.kind a b r.id first second) [
      | inl e ↦ inl (cc (e.0, same), e.1)
      | inr c ↦ inr c
    ]

-- Whatever the hash function is: if a string of bytes passes as a root under an identifier that a
-- string passes under as a node or a leaf, then there is a collision of the hash function.
pub verify_root_id-no_manifest :
    (hash : List ℕ → Digest32) (r : ManifestRef) (a b : List ℕ)
    → verify_root_id hash r.id a ≡ ok tt
    → verify_manifest_id hash r b ≡ ok tt
    → Collision hash
verify_root_id-no_manifest hash r a b h h' =
    root_or_chunk hash r.kind a b r.id (root_checked hash r.id a h) (manifest_checked hash r b h')
