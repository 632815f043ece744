-- ===== src/Path/Temporary/Names.antt =====
-- Which names are those of temporary files.
use check_po.Prelude.{
  ℕ, ◌*◌, ◌≡◌, refl, sym, ap, ◌∙◌, subst, ◌↔◌, ◌⊎◌, inl, inr, Bool, true, false, ◌&&◌, Option, none,
  some, List, [], ◌∷◌, ◌++◌, arith, length, All, all_true, ◌==◌, Bool-cases,
}
use check_po.Prelude.Text.{codes, add_first, strip_prefix, strip_suffix, split_once}
use check_po.Prelude.Text.Ends.{
  strip_prefix-eq_some, strip_prefix-append, strip_suffix-eq_some, strip_suffix-append,
}
use check_po.Prelude.Text.Utf8.{as_bytes}
use check_po.Path.Id.{is_lower_hex, and_then}
use check_po.Path.Id.RoundTrip.{Names, test_of_eq, encoded_bytes}
use check_po.Path.Id.Valid.{Names-of, named_checks}
use check_po.Path.Temporary.{
  is_lowercase_hex, is_some_and, is_materialization_name, is_restore_name, is_owned_name,
}

some_and :
    {A : Type 0} (o : Option A) (p : A → Bool)
    → is_some_and o p ≡ true
    → (a : A) × (o ≡ some a) × (p a ≡ true)
some_and none p h = absurd (cc h)
some_and (some a) p h = (a, refl, h)

then_some :
    {A B : Type 0} (o : Option A) (f : A → Option B) (b : B)
    → and_then o f ≡ some b
    → (a : A) × (o ≡ some a) × (f a ≡ some b)
then_some none f b h = absurd (cc h)
then_some (some a) f b h = (a, refl, h)

add_first-eq_some :
    (c : ℕ) (o : Option (List ℕ × List ℕ)) (p : List ℕ × List ℕ)
    → add_first c o ≡ some p
    → (q : List ℕ × List ℕ) × (o ≡ some q) × ((c ∷ q.0, q.1) ≡ p)
add_first-eq_some c none p h = absurd (cc h)
add_first-eq_some c (some q) p h = (q, refl, cc h)

split_once-eq_some :
    (sep : ℕ) (s : List ℕ) (p : List ℕ × List ℕ)
    → split_once sep s ≡ some p
    → s ≡ p.0 ++ (sep ∷ p.1)
unfolding split_once
split_once-eq_some sep [] p h = absurd (cc h)
split_once-eq_some sep (c ∷ s) p h = elim (Bool-cases (c == sep)) [
  | inl e ↦
      let here : c ≡ sep = ground arith in
      let same : ([], s) ≡ p = cc (rw e at h) in
      subst (λ q. c ∷ s ≡ q.0 ++ (sep ∷ q.1)) same (ap (λ x. x ∷ s) here)
  | inr e ↦
      let (q, found, form) = add_first-eq_some c (split_once sep s) p (rw e at h) in
      subst (λ q. c ∷ s ≡ q.0 ++ (sep ∷ q.1)) form
        (ap (λ x. c ∷ x) (split_once-eq_some sep s q found))
]

split_once-append :
    (sep : ℕ) (front back : List ℕ)
    → All (λ c. (c == sep) ≡ false) front
    → split_once sep (front ++ (sep ∷ back)) ≡ some (front, back)
unfolding split_once
split_once-append sep [] back h = ground arith
split_once-append sep (c ∷ front) back h = rw (h.0, split_once-append sep front back h.1)

hex_parts :
    (s : List ℕ) (n : ℕ)
    → is_lowercase_hex s n ≡ true
    → (length (as_bytes s) ≡ n) × (all_true is_lower_hex (as_bytes s) ≡ true)
unfolding is_lowercase_hex
hex_parts s n h = ground arith

named : (s : List ℕ) (n : ℕ) → is_lowercase_hex s (n * 2) ≡ true → Names n s
named s n h = let (e, hex) = hex_parts s (n * 2) h in Names-of n s e hex

hex_of : (s : List ℕ) (n : ℕ) → Names n s → is_lowercase_hex s (n * 2) ≡ true
unfolding is_lowercase_hex
hex_of s n names = let (e, hex) = named_checks n s names in rw (test_of_eq _ (n * 2) e, hex)

no_dash : (s : List ℕ) → all_true is_lower_hex s ≡ true → All (λ c. (c == 45) ≡ false) s
no_dash [] h = tt
no_dash (c ∷ s) h = elim (Bool-cases (is_lower_hex c)) [
  | inl e ↦ (not_dash c e, no_dash s (rw e at h))
  | inr e ↦ absurd (cc (rw e at h))
]
  where
    not_dash : (c : ℕ) → is_lower_hex c ≡ true → (c == 45) ≡ false
    not_dash c e = unfold is_lower_hex in ground arith

-- ".checkpo-", the identifier of a transaction, ".tmp".
pub record IsMaterialization (name : List ℕ) : Type 0 where
  pub uuid : List ℕ
  pub names : Names 16 uuid
  pub form : name ≡ codes ".checkpo-" ++ (uuid ++ codes ".tmp")

-- ".checkpo-r-", a digest of eight bytes, a dash, the identifier of a transaction, ".tmp".
pub record IsRestore (name : List ℕ) : Type 0 where
  pub digest : List ℕ
  pub uuid : List ℕ
  pub digest_names : Names 8 digest
  pub uuid_names : Names 16 uuid
  pub form : name ≡ codes ".checkpo-r-" ++ ((digest ++ (45 ∷ uuid)) ++ codes ".tmp")

materialization : (name : List ℕ) → is_materialization_name name ≡ true → IsMaterialization name
unfolding is_materialization_name
materialization name h =
    let (uuid, e, hex) = some_and _ _ h in
    let (body, front, back) = then_some (strip_prefix (codes ".checkpo-") name) _ uuid e in
    record {
      uuid = uuid;
      names = named uuid 16 hex;
      form =
          strip_prefix-eq_some (codes ".checkpo-") name body front
          ∙ ap (λ x. codes ".checkpo-" ++ x) (strip_suffix-eq_some (codes ".tmp") body uuid back);
    }

both : (a b : Bool) → (a && b) ≡ true → (a ≡ true) × (b ≡ true)
both a b h = ground arith

restore : (name : List ℕ) → is_restore_name name ≡ true → IsRestore name
restore name h =
    let ((digest, uuid), e, hex) = some_and _ _ h in
    let (body, e', parts) =
      then_some (and_then (strip_prefix (codes ".checkpo-r-") name) (strip_suffix (codes ".tmp"))) _
        (digest, uuid) e in
    let (tail, front, back) = then_some (strip_prefix (codes ".checkpo-r-") name) _ body e' in
    let (first, second) = both _ _ hex in
    record {
      digest = digest;
      uuid = uuid;
      digest_names = named digest 8 first;
      uuid_names = named uuid 16 second;
      form =
          strip_prefix-eq_some (codes ".checkpo-r-") name tail front
          ∙ ap (λ x. codes ".checkpo-r-" ++ x)
              (strip_suffix-eq_some (codes ".tmp") tail body back
                ∙ ap (λ x. x ++ codes ".tmp") (split_once-eq_some 45 body (digest, uuid) parts));
    }

is_materialization : (name : List ℕ) → IsMaterialization name → is_materialization_name name ≡ true
unfolding is_materialization_name
is_materialization name m =
    ap
      (λ n.
        is_some_and (and_then (strip_prefix (codes ".checkpo-") n) (strip_suffix (codes ".tmp")))
          (λ v. is_lowercase_hex v 32))
      m.form
    ∙ ap (λ o. is_some_and (and_then o (strip_suffix (codes ".tmp"))) (λ v. is_lowercase_hex v 32))
        (strip_prefix-append (codes ".checkpo-") (m.uuid ++ codes ".tmp"))
    ∙ ap (λ o. is_some_and o (λ v. is_lowercase_hex v 32))
        (strip_suffix-append (codes ".tmp") m.uuid)
    ∙ hex_of m.uuid 16 m.names

is_restore : (name : List ℕ) → IsRestore name → is_restore_name name ≡ true
is_restore name r =
    let dashless : All (λ c. (c == 45) ≡ false) r.digest =
      rw
        (ap as_bytes r.digest_names.text
          ∙ encoded_bytes r.digest_names.bytes r.digest_names.array.1
          ∙ sym r.digest_names.text)
        at (no_dash (as_bytes r.digest) (named_checks 8 r.digest r.digest_names).1) in
    ap is_restore_name r.form
    ∙ ap
        (λ o.
          is_some_and (and_then (and_then o (strip_suffix (codes ".tmp"))) (split_once 45)) good)
        (strip_prefix-append (codes ".checkpo-r-") ((r.digest ++ (45 ∷ r.uuid)) ++ codes ".tmp"))
    ∙ ap (λ o. is_some_and (and_then o (split_once 45)) good)
        (strip_suffix-append (codes ".tmp") (r.digest ++ (45 ∷ r.uuid)))
    ∙ ap (λ o. is_some_and o good) (split_once-append 45 r.digest r.uuid dashless)
    ∙ rw (hex_of r.digest 8 r.digest_names, hex_of r.uuid 16 r.uuid_names)
  where
    good : List ℕ × List ℕ → Bool
    good p = is_lowercase_hex p.0 16 && is_lowercase_hex p.1 32

-- A file name passes as one of CheckPo's own temporary files exactly when it is ".checkpo-", the
-- hexadecimal text of 16 bytes and ".tmp", or ".checkpo-r-", the texts of 8 and of 16 bytes with a
-- dash between and ".tmp".
pub is_owned_name_iff :
    (name : List ℕ) → (is_owned_name name ≡ true) ↔ (IsMaterialization name ⊎ IsRestore name)
unfolding is_owned_name
is_owned_name_iff name = (
  λ h. elim (Bool-cases (is_materialization_name name)) [
    | inl e ↦ inl (materialization name e)
    | inr e ↦ inr (restore name (rw e at h))
  ],
  λ h. elim h [
    | inl m ↦ rw (is_materialization name m)
    | inr r ↦ rw (is_restore name r) (ground arith)
  ],
)
