-- ===== src/Codec/Reader/Canonical.antt =====
-- A payload that is read is the layout of the value that comes out, and that value is within
-- the limits.
use check_po.Prelude.{
  ℕ, zero, suc, ◌≡◌, refl, sym, ap, ◌∙◌, subst, Bool, true, false, List, [], ◌∷◌, ◌++◌, append-nil,
  arith, length, All, String, ◌==◌, if◌then◌else◌,
}
use check_po.Prelude.Result.{ok, >>=-eq_ok}
use check_po.Prelude.Bytes.{IsByte, to_be_bytes}
use check_po.Codec.{payload_schema}
use check_po.Codec.Checks.{require_schema, require_policy}
use check_po.Codec.Layout.{parent_bytes, optional_ref_bytes, items_bytes}
use check_po.Codec.Reader.{
  Reader, Read, ◌>>=◌, ◌>>◌, pure, read_optional_manifest_ref, read_parent, read_schema,
  read_policy, read_list, finish,
}
use check_po.Codec.Reader.Reads.{IsOptionalRef}
use check_po.Codec.Reader.Values.{IsParent}
use check_po.Codec.Reader.Inverse.{
  Takes, Exact, Exact-bind, Takes-bind, Takes-pure, Takes-lift, Exact-u8, Exact-u16, Exact-digest,
  Takes-IsRef,
}

schema_check : (v : ℕ) {u : Unit {0}} → require_schema v ≡ ok u → v ≡ payload_schema
unfolding require_schema
schema_check v h = ground arith

policy_check : (label : String) (v e : ℕ) {u : Unit {0}} → require_policy label v e ≡ ok u → v ≡ e
unfolding require_policy
policy_check label v e h = ground arith

pub Exact-schema : Exact read_schema (λ _. to_be_bytes 2 payload_schema) (λ _. Unit)
unfolding read_schema
Exact-schema = Exact-bind _ _ Exact-u16 λ v h.
    Takes-lift _ _ λ u e. (append-nil (to_be_bytes 2 v) ∙ ap (to_be_bytes 2) (schema_check v e), tt)

pub Exact-policy :
    (label : String) (expected : ℕ)
    → Exact (read_policy label expected) (λ _. to_be_bytes 2 expected) (λ _. Unit)
unfolding read_policy
Exact-policy label expected = Exact-bind _ _ Exact-u16 λ v h.
    Takes-lift _ _ λ u e.
      (append-nil (to_be_bytes 2 v) ∙ ap (to_be_bytes 2) (policy_check label v expected e), tt)

Takes-if :
    {A : Type 0} (b : Bool) (m n : Read A) (P : A → List ℕ → Type 0)
    → (b ≡ true → Takes m P)
    → (b ≡ false → Takes n P)
    → Takes (if b then m else n) P
Takes-if true m n P h k = h refl
Takes-if false m n P h k = k refl

eq_of_test : (a b : ℕ) → (a == b) ≡ true → a ≡ b
eq_of_test a b h = ground arith

pub Exact-parent : Exact read_parent parent_bytes IsParent
unfolding read_parent
Exact-parent = Exact-bind _ _ Exact-u8 λ v h.
    Takes-if (v == 0) _ _ _ (λ e. Takes-pure _ _ (ap (λ x. x ∷ []) (eq_of_test v 0 e), tt))
      λ _.
        Takes-if (v == 1) _ _ _
          (λ e.
            Exact-bind _ _ Exact-digest
              λ id d. Takes-pure _ _ (rw (eq_of_test v 1 e, append-nil), d))
          (λ _. Takes-lift _ _ λ a e. absurd (cc e))

pub Exact-optional : Exact read_optional_manifest_ref optional_ref_bytes IsOptionalRef
unfolding read_optional_manifest_ref
Exact-optional = Exact-bind _ _ Exact-u8 λ v h.
    Takes-if (v == 0) _ _ _ (λ e. Takes-pure _ _ (ap (λ x. x ∷ []) (eq_of_test v 0 e), tt))
      λ _.
        Takes-bind _ (Takes-IsRef v)
          λ r cs good. Takes-pure _ _ (rw (good.0, good.1, append-nil), good.2)

-- `m` accepts the whole of its input, and returns a value `a` with `Q a` of that input.
pub record Whole {A : Type 0} (m : Read A) (Q : A → List ℕ → Type 0) : Type 0 where
  pub from : (r r' : Reader) (a : A) → All IsByte r.remaining → m r ≡ ok (a, r') → Q a r.remaining

pub Whole-takes :
    {A B : Type 0} {m : Read A} (f : A → Read B) {R : A → List ℕ → Type 0} (Q : B → List ℕ → Type 0)
    → Takes m R
    → ((a : A) (bs : List ℕ) → R a bs → Whole (f a) (λ b ds. Q b (bs ++ ds)))
    → Whole (m >>= f) Q
unfolding ◌>>=◌
Whole-takes {m} f Q p q = record {
  from = λ r r' b bytes h.
      let ((a, mid), e, e') = >>=-eq_ok (m r) (λ x. f x.0 x.1) h in
      let (bs, front, good, left) = p.from r mid a bytes e in
      subst (λ ys. Q b ys) (sym front) ((q a bs good).from mid r' b left e');
}

pub Whole-bind :
    {A B : Type 0} {m : Read A} (f : A → Read B) {layout : A → List ℕ} {V : A → Type 0}
    (Q : B → List ℕ → Type 0)
    → Exact m layout V
    → ((a : A) → V a → Whole (f a) (λ b ds. Q b (layout a ++ ds)))
    → Whole (m >>= f) Q
Whole-bind f Q p q =
    Whole-takes f Q p
      λ a bs good. subst (λ c. Whole (f a) (λ b ds. Q b (c ++ ds))) (sym good.0) (q a good.1)

nothing_left : (r r' : Reader) {u : Unit {0}} → finish r ≡ ok (u, r') → r.remaining ≡ []
unfolding finish
nothing_left r r' h = ground arith

pub Whole-finish :
    {A : Type 0} (a : A) (Q : A → List ℕ → Type 0) → Q a [] → Whole (finish >> pure a) Q
unfolding ◌>>=◌ pure
Whole-finish a Q good = record {
  from = λ r r' b bytes h.
      let ((u, mid), e, e') = >>=-eq_ok (finish r) (λ x. pure a x.1) h in
      let same : a ≡ b = cc e' in
      subst (λ ys. Q b ys) (sym (nothing_left r mid e)) (subst (λ x. Q x []) same good);
}

pub Exact-list :
    {A : Type 0} {item : Read A} {layout : A → List ℕ} {P : A → Type 0}
    → Exact item layout P
    → (n : ℕ)
    → Takes (read_list n item) (λ xs bs. (bs ≡ items_bytes layout xs) × (length xs ≡ n) × All P xs)
unfolding read_list
Exact-list p zero = Takes-pure _ _ (refl, refl, tt)
Exact-list {layout} p (suc n) = Exact-bind _ _ p λ x hx.
    Takes-bind _ (Exact-list p n)
      λ xs bs h. Takes-pure _ _ (rw (append-nil, h.0), ap suc h.1, (hx, h.2))
