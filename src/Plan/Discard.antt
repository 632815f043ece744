-- ===== src/Plan/Discard.antt =====
-- A discard brings the selected paths, and no others, to the snapshot.
use check_po.Prelude.{
  ℕ, ◌≡◌, refl, sym, ap, subst, ◌∙◌, ◌⊎◌, inl, inr, Bool, true, false, Option, none, some, List, [],
  ◌∷◌, ◌++◌, list_eq, list_eq→eq, list_eq_refl, Bool-cases, if◌then◌else◌,
}
use check_po.Prelude.Result.{Result, ok, >>=-eq_ok}
use check_po.Prelude.Map.{Map, get, mem, is_some}
use check_po.Plan.{
  CurrentFileState, SnapshotFile, FileOperation, match_file, discard_path, discard_operations,
}
use check_po.Plan.Effect.{
  state_after, content, file_content, state_after-append, match_file-other, match_file-content,
}

-- The snapshot's file at a path has that path.
abbrev pub IsKeyed : Map SnapshotFile → Type 0
IsKeyed sm = (p : List ℕ) (file : SnapshotFile) → get p sm ≡ some file → file.path ≡ p

discard_path-other :
    (q p : List ℕ) (file : Option SnapshotFile) (current c : Option CurrentFileState)
    → ((f : SnapshotFile) → file ≡ some f → f.path ≡ q)
    → list_eq q p ≡ false
    → state_after (discard_path q file current) p c ≡ c
unfolding state_after
discard_path-other q p (some f) current c k h =
    match_file-other f current p c (ap (λ x. list_eq x p) (k f refl) ∙ h)
discard_path-other q p none (some x) c k h = rw h
discard_path-other q p none none c k h = refl

discard_path-content :
    (p : List ℕ) (file : Option SnapshotFile) (current c : Option CurrentFileState)
    → ((f : SnapshotFile) → file ≡ some f → f.path ≡ p)
    → (content c ≡ content current) ⊎ (content c ≡ file_content file)
    → content (state_after (discard_path p file current) p c) ≡ file_content file
unfolding state_after
discard_path-content p (some f) current c k h =
    subst (λ q. content (state_after (match_file f current) q c) ≡ file_content (some f)) (k f refl)
      (match_file-content f current c h)
discard_path-content p none (some x) c k h = rw (list_eq_refl p)
discard_path-content p none none c k (inl e) = e
discard_path-content p none none c k (inr e) = e

module _ {E : Type 0} (read : List ℕ → Bool → Result E (Option CurrentFileState))
    (current : List ℕ → Option CurrentFileState)
    (reads : (p : List ℕ) (b : Bool) → read p b ≡ ok (current p)) (sm : Map SnapshotFile)
    (keyed : IsKeyed sm) where
  unselected :
      (sel : List (List ℕ)) (ops : List FileOperation) (p : List ℕ) (c : Option CurrentFileState)
      → discard_operations read sm sel ≡ ok ops
      → mem p sel ≡ false
      → state_after ops p c ≡ c
  unfolding discard_operations mem
  unselected [] ops p c h m =
      let none_there : [] ≡ ops = cc h in
      subst (λ os. state_after os p c ≡ c) none_there (unfold state_after in refl)
  unselected (q ∷ sel) ops p c h m = elim (Bool-cases (list_eq q p)) [
    | inl e ↦ absurd (cc (rw e at m))
    | inr e ↦
        let (cur, e1, h1) = >>=-eq_ok (read q (is_some (get q sm))) _ h in
        let (rest, e2, h2) = >>=-eq_ok (discard_operations read sm sel) _ h1 in
        let form : discard_path q (get q sm) cur ++ rest ≡ ops = cc h2 in
        subst (λ os. state_after os p c ≡ c) form
          (state_after-append (discard_path q (get q sm) cur) rest p c
            ∙ ap (state_after rest p) (discard_path-other q p (get q sm) cur c (keyed q) e)
            ∙ unselected sel rest p c e2 (rw e at m))
  ]

  settled :
      (sel : List (List ℕ)) (ops : List FileOperation) (p : List ℕ) (c : Option CurrentFileState)
      → discard_operations read sm sel ≡ ok ops
      → content c ≡ file_content (get p sm)
      → content (state_after ops p c) ≡ file_content (get p sm)
  unfolding discard_operations
  settled [] ops p c h s =
      let none_there : [] ≡ ops = cc h in
      subst (λ os. content (state_after os p c) ≡ file_content (get p sm)) none_there
        (unfold state_after in s)
  settled (q ∷ sel) ops p c h s =
      let (cur, e1, h1) = >>=-eq_ok (read q (is_some (get q sm))) _ h in
      let (rest, e2, h2) = >>=-eq_ok (discard_operations read sm sel) _ h1 in
      let form : discard_path q (get q sm) cur ++ rest ≡ ops = cc h2 in
      subst (λ os. content (state_after os p c) ≡ file_content (get p sm)) form
        (ap content (state_after-append (discard_path q (get q sm) cur) rest p c)
          ∙ settled sel rest p _ e2 (round q cur))
    where
      round :
          (q : List ℕ) (cur : Option CurrentFileState)
          → content (state_after (discard_path q (get q sm) cur) p c) ≡ file_content (get p sm)
      round q cur = elim (Bool-cases (list_eq q p)) [
        | inl e ↦
            let same = list_eq→eq q p e in
            subst
              (λ x.
                content (state_after (discard_path x (get x sm) cur) p c) ≡ file_content (get p sm))
              (sym same) (discard_path-content p (get p sm) cur c (keyed p) (inr s))
        | inr e ↦ ap content (discard_path-other q p (get q sm) cur c (keyed q) e) ∙ s
      ]

  selected :
      (sel : List (List ℕ)) (ops : List FileOperation) (p : List ℕ)
      → discard_operations read sm sel ≡ ok ops
      → mem p sel ≡ true
      → content (state_after ops p (current p)) ≡ file_content (get p sm)
  unfolding discard_operations mem
  selected [] ops p h m = absurd (cc m)
  selected (q ∷ sel) ops p h m =
      let (cur, e1, h1) = >>=-eq_ok (read q (is_some (get q sm))) _ h in
      let (rest, e2, h2) = >>=-eq_ok (discard_operations read sm sel) _ h1 in
      let form : discard_path q (get q sm) cur ++ rest ≡ ops = cc h2 in
      let here : cur ≡ current q = cc (e1, reads q (is_some (get q sm))) in
      subst (λ os. content (state_after os p (current p)) ≡ file_content (get p sm)) form
        (ap content (state_after-append (discard_path q (get q sm) cur) rest p (current p))
          ∙ elim (Bool-cases (list_eq q p)) [
            | inl e ↦
                let same = list_eq→eq q p e in
                settled sel rest p _ e2 (
                  subst
                    (λ x.
                      content (state_after (discard_path x (get x sm) cur) p (current p))
                      ≡ file_content (get p sm))
                    (sym same)
                    (discard_path-content p (get p sm) cur (current p) (keyed p)
                      (inl (ap content (ap current (sym same) ∙ sym here)))))
            | inr e ↦
                ap content (
                  ap (state_after rest p)
                    (discard_path-other q p (get q sm) cur (current p) (keyed q) e))
                ∙ selected sel rest p e2 (rw e at m)
          ])

-- If reading a path gives its current file, and the snapshot's map has each file under its own
-- path, then the operations of a discard leave at every selected path the hash and the time that
-- the snapshot has there, or no file when it has none, and leave every other path as it is.
pub discard_operations-content :
    {E : Type 0} (read : List ℕ → Bool → Result E (Option CurrentFileState))
    (current : List ℕ → Option CurrentFileState) (sm : Map SnapshotFile) (sel : List (List ℕ))
    (ops : List FileOperation) (p : List ℕ)
    → ((q : List ℕ) (b : Bool) → read q b ≡ ok (current q))
    → IsKeyed sm
    → discard_operations read sm sel ≡ ok ops
    → content (state_after ops p (current p))
      ≡ (if mem p sel then file_content (get p sm) else content (current p))
discard_operations-content read current sm sel ops p reads keyed h = elim (Bool-cases (mem p sel)) [
  | inl e ↦ rw e (selected read current reads sm keyed sel ops p h e)
  | inr e ↦ rw e (ap content (unselected read current reads sm keyed sel ops p (current p) h e))
]
