-- ===== src/Codec/Reader/Inverse.antt =====
-- What a successful read took off the front is what the layout puts there.
use check_po.Prelude.{
  ℕ, ◌^◌, ◌≤◌, ◌<◌, ◌≡◌, refl, sym, ap, ◌∙◌, subst, ◌≢◌, some, List, [], ◌∷◌, ◌++◌, append_assoc,
  append-nil, arith, length, get_or, take, drop, take-append-drop, length-take, All, All-of_append,
  String, ltb, if◌then◌else◌,
}
use check_po.Prelude.Result.{ok, err, ok_or, >>=-eq_ok}
use check_po.Prelude.Bytes.{
  IsByte, IsU16, IsU32, IsU64, to_be_bytes, from_be_bytes, to_be_bytes-from_be_bytes,
  from_be_bytes-lt,
}
use check_po.Prelude.Int.{ℤ, i64_word, word_i64-IsI64, i64_word-word_i64}
use check_po.Prelude.Text.Utf8.{as_bytes, IsText, from_utf8}
use check_po.Prelude.Text.Utf8.Inverse.{as_bytes-from_utf8}
use check_po.Codec.{
  CodecResult, invalid, limit, not_utf8, IsArray, kind_byte, root, ChunkKind, Timestamp,
  IsTimestamp, IsSummary, IsI64, new_timestamp,
}
use check_po.Codec.Checks.{validate_count}
use check_po.Codec.Layout.{blob_bytes, text_bytes, timestamp_bytes, summary_bytes}
use check_po.Codec.Reader.{
  Reader, Read, ◌>>=◌, pure, lift, take_bytes, u8, u16, u32, u64, i64, digest, bytes, string, count,
  summary, read_manifest_kind, manifest_ref, timestamp,
}
use check_po.Codec.Reader.Reads.{IsRef}

-- Every success of `m` on bytes takes a front `bs` off them, and returns a value `a` with `Q a bs`.
pub record Takes {A : Type 0} (m : Read A) (Q : A → List ℕ → Type 0) : Type 0 where
  pub from :
      (r r' : Reader) (a : A)
      → All IsByte r.remaining
      → m r ≡ ok (a, r')
      → (bs : List ℕ) × (r.remaining ≡ bs ++ r'.remaining) × Q a bs × All IsByte r'.remaining

-- `m` takes just the layout of the value that it returns.
abbrev pub Exact : {A : Type 0} → Read A → (A → List ℕ) → (A → Type 0) → Type 0
Exact m layout V = Takes m (λ a bs. (bs ≡ layout a) × V a)

module _ {A B : Type 0} {m : Read A} (f : A → Read B) {Q : A → List ℕ → Type 0}
    {P : B → List ℕ → Type 0} where
  pub Takes-bind :
      Takes m Q
      → ((a : A) (cs : List ℕ) → Q a cs → Takes (f a) (λ b ds. P b (cs ++ ds)))
      → Takes (m >>= f) P
  unfolding ◌>>=◌
  Takes-bind p q = record {
    from = λ r r' b bytes h.
        let ((a, mid), e, e') = >>=-eq_ok (m r) (λ x. f x.0 x.1) h in
        let (cs, front, good, bytes') = p.from r mid a bytes e in
        let (ds, front', good', bytes'') = (q a cs good).from mid r' b bytes' e' in
        (
          cs ++ ds,
          front ∙ ap (λ ys. cs ++ ys) front' ∙ sym (append_assoc cs ds r'.remaining),
          good',
          bytes'',
        );
  }

pub Exact-bind :
    {A B : Type 0} {m : Read A} (f : A → Read B) {layout : A → List ℕ} {V : A → Type 0}
    (P : B → List ℕ → Type 0)
    → Exact m layout V
    → ((a : A) → V a → Takes (f a) (λ b ds. P b (layout a ++ ds)))
    → Takes (m >>= f) P
Exact-bind f {layout} P p q =
    Takes-bind f p
      (λ a cs good. subst (λ c. Takes (f a) (λ b ds. P b (c ++ ds))) (sym good.0) (q a good.1))

pub Takes-pure : {A : Type 0} (a : A) (P : A → List ℕ → Type 0) → P a [] → Takes (pure a) P
unfolding pure
Takes-pure a P good = record {
  from = λ r r' b bytes h.
      let same : a ≡ b = cc h in
      let still : r ≡ r' = cc h in
      (
        [],
        ap (λ (x : Reader). x.remaining) still,
        subst (λ x. P x []) same good,
        subst (λ x. All IsByte x.remaining) still bytes,
      );
}

pub Takes-lift :
    {A : Type 0} (m : CodecResult A) (P : A → List ℕ → Type 0)
    → ((a : A) → m ≡ ok a → P a [])
    → Takes (lift m) P
unfolding lift
Takes-lift (ok a) P h = unfold pure in Takes-pure a P (h a refl)
Takes-lift (err e) P h = record { from = λ r r' b bytes q. absurd (cc q) }

-- The last action of a function.
pub Takes-last :
    {A : Type 0} {m : Read A} {Q : A → List ℕ → Type 0}
    → Takes m Q
    → (P : A → List ℕ → Type 0) → ((a : A) (bs : List ℕ) → Q a bs → P a bs)
    → Takes m P
Takes-last p P q = record {
  from = λ r r' a bytes h.
      let (bs, front, good, left) = p.from r r' a bytes h in (bs, front, q a bs good, left);
}

-- A check takes nothing.
pub Takes-check :
    {A B : Type 0} (m : CodecResult A) (f : A → Read B) (P : B → List ℕ → Type 0)
    → ((a : A) → m ≡ ok a → Takes (f a) P)
    → Takes (lift m >>= f) P
unfolding lift ◌>>=◌
Takes-check (ok a) f P h = h a refl
Takes-check (err e) f P h = record { from = λ r r' b bytes q. absurd (cc q) }

take_bytes-eq_ok :
    (n : ℕ) (r r' : Reader) (a : List ℕ)
    → take_bytes n r ≡ ok (a, r')
    → (n ≤ length r.remaining) × (take n r.remaining ≡ a) × (drop n r.remaining ≡ r'.remaining)
unfolding take_bytes
take_bytes-eq_ok n r r' a h = ground arith

pub Exact-take_bytes : (n : ℕ) → Exact (take_bytes n) (λ bs. bs) (IsArray n)
Exact-take_bytes n = record {
  from = λ r r' a bytes h.
      let (fits, taken, left) = take_bytes-eq_ok n r r' a h in
      let (byte_a, byte_r) =
        All-of_append IsByte (take n r.remaining) (drop n r.remaining)
          (rw (take-append-drop n r.remaining) bytes) in
      (
        a,
        sym (take-append-drop n r.remaining) ∙ cc (taken, left),
        (refl, (rw (← taken) (length-take n r.remaining fits), rw taken at byte_a)),
        rw left at byte_r,
      );
}

from_be :
    (n : ℕ)
    → Exact (take_bytes n >>= λ bs. pure (from_be_bytes bs)) (to_be_bytes n) (λ v. v < 256 ^ n)
from_be n = Exact-bind _ _ (Exact-take_bytes n) λ bs h. Takes-pure _ _ (
  append-nil bs ∙ sym (rw h.0 at (to_be_bytes-from_be_bytes bs h.1)),
  rw h.0 at (from_be_bytes-lt bs h.1),
)

pub Exact-u8 : Exact u8 (λ v. v ∷ []) IsByte
unfolding u8
Exact-u8 = Exact-bind _ _ (Exact-take_bytes 1) λ bs h. Takes-pure _ _ (single bs h.0 h.1)
  where
    single :
        (bs : List ℕ)
        → length bs ≡ 1
        → All IsByte bs
        → (bs ++ [] ≡ get_or bs 0 0 ∷ []) × IsByte (get_or bs 0 0)
    single [] e h = absurd (omega arith)
    single (b ∷ []) e h = (refl, h.0)
    single (b ∷ c ∷ bs) e h = absurd (omega arith)

pub Exact-u16 : Exact u16 (to_be_bytes 2) IsU16
unfolding u16
Exact-u16 = from_be 2

pub Exact-u32 : Exact u32 (to_be_bytes 4) IsU32
unfolding u32
Exact-u32 = from_be 4

pub Exact-u64 : Exact u64 (to_be_bytes 8) IsU64
unfolding u64
Exact-u64 = from_be 8

pub Exact-i64 : Exact i64 (λ v. to_be_bytes 8 (i64_word v)) IsI64
unfolding i64
Exact-i64 = Exact-bind _ _ (Exact-take_bytes 8) λ bs h.
    let w : IsU64 (from_be_bytes bs) = rw h.0 at (from_be_bytes-lt bs h.1) in
    Takes-pure _ _ (
      append-nil bs
          ∙ sym (rw h.0 at (to_be_bytes-from_be_bytes bs h.1))
          ∙ ap (to_be_bytes 8) (sym (i64_word-word_i64 (from_be_bytes bs) w)),
      word_i64-IsI64 (from_be_bytes bs) w,
    )

pub Exact-digest : Exact digest (λ d. d) (IsArray 32)
unfolding digest
Exact-digest = Exact-take_bytes 32

time_check :
    (seconds : ℤ) (nanoseconds : ℕ) (t : Timestamp)
    → new_timestamp seconds nanoseconds ≡ ok t
    → (record { unix_seconds = seconds; nanoseconds = nanoseconds } ≡ t)
      × (nanoseconds < 1_000_000_000)
unfolding new_timestamp
time_check seconds nanoseconds t h = ground arith

text_check :
    (field : String) (bs s : List ℕ)
    → ok_or (from_utf8 bs) (invalid (not_utf8 field)) ≡ ok s
    → from_utf8 bs ≡ some s
text_check field bs s h = ground arith

len_check :
    (field : String) (bound len : ℕ) {u : Unit {0}}
    → (if ltb bound len then err (limit field len bound) else ok tt) ≡ ok u
    → len ≤ bound
len_check field bound len h = ground arith

pub Exact-bytes :
    (field : String) (bound : ℕ)
    → Exact (bytes field bound) blob_bytes (λ bs. (length bs ≤ bound) × All IsByte bs)
unfolding bytes
Exact-bytes field bound = Exact-bind _ _ Exact-u32 λ len h. Takes-check _ _ _ λ u fits.
    Takes-last (Exact-take_bytes len) _
      λ bs cs b. (rw (b.0, b.1.0), (rw b.1.0 (len_check field bound len fits), b.1.1))

pub Exact-string :
    (field : String) (bound : ℕ)
    → Exact (string field bound) text_bytes (λ s. IsText s × (length (as_bytes s) ≤ bound))
unfolding string
Exact-string field bound = Exact-bind _ _ (Exact-bytes field bound) λ bs h. Takes-lift _ _ λ s e.
    let (same, text) = as_bytes-from_utf8 bs s (text_check field bs s e) in
    (append-nil (blob_bytes bs) ∙ ap blob_bytes (sym same), (text, rw same h.0))

pub Exact-count :
    (field : String) (bound : ℕ) → Exact (count field bound) (to_be_bytes 4) (λ n. n ≤ bound)
unfolding count validate_count
Exact-count field bound = Exact-bind _ _ Exact-u32 λ n h.
    Takes-check _ _ _
      λ u fits. Takes-pure _ _ (append-nil (to_be_bytes 4 n), len_check field bound n fits)

pub Exact-summary : Exact summary summary_bytes IsSummary
unfolding summary
Exact-summary = Exact-bind _ _ Exact-u64 λ entries he.
    Exact-bind _ _ Exact-u64
      λ size hs. Exact-bind _ _ Exact-u64 λ paths hp. Takes-pure _ _ (rw append-nil, (he, hs, hp))

pub Exact-timestamp : Exact timestamp timestamp_bytes IsTimestamp
unfolding timestamp
Exact-timestamp = Exact-bind _ _ Exact-i64 λ seconds hs. Exact-bind _ _ Exact-u32 λ nanoseconds hn.
    Takes-lift _ _ λ t e.
      let (same, fits) = time_check seconds nanoseconds t e in
      (rw (append-nil, ← same), rw (← same) (hs, fits))

kind_check :
    (value : ℕ) (kind : ChunkKind)
    → read_manifest_kind value ≡ ok kind
    → (value ≡ kind_byte kind) × (kind ≢ root)
unfolding read_manifest_kind
kind_check value kind h = ground arith

-- After the kind byte.
pub Takes-IsRef :
    (value : ℕ)
    → Takes (manifest_ref value) (λ r bs. (value ≡ kind_byte r.kind) × (bs ≡ r.id) × IsRef r)
unfolding manifest_ref
Takes-IsRef value = Takes-check _ _ _ λ kind e. Exact-bind _ _ Exact-digest λ id d.
    let (same, not_root) = kind_check value kind e in
    Takes-pure _ _ (same, append-nil id, (not_root, d))
