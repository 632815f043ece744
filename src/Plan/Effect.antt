-- ===== src/Plan/Effect.antt =====
-- What operations do to the file at a path: what a plan promises, without the journal and the
-- file system that carry it out.
use check_po.Prelude.{
  ℕ, ◌≡◌, refl, ◌∙◌, ◌⊎◌, inl, inr, false, Option, none, some, List, [], ◌∷◌, ◌++◌, list_eq,
  list_eq→eq, list_eq_refl, Bool-cases, if◌then◌else◌,
}
use check_po.Plan.{
  CurrentFileState, SnapshotFile, FileOperationType, restore, replace, delete, set_metadata,
  FileOperation, match_file,
}

-- The file that an operation writes.
abbrev pub written : Option (List ℕ) → Option ℕ → Option (List ℕ) → Option CurrentFileState
written (some hash) (some size) (some modified) =
    some (record { hash = hash; size_bytes = size; modified_at_utc = modified })
written _ _ _ = none

-- Only the time changes.
abbrev pub touched : Option (List ℕ) → Option CurrentFileState → Option CurrentFileState
touched (some modified) (some current) = some (record current { modified_at_utc = modified })
touched _ current = current

abbrev pub performed :
    FileOperationType → FileOperation → Option CurrentFileState → Option CurrentFileState
performed restore o current = written o.after_hash o.after_size_bytes o.after_modified_at_utc
performed replace o current = written o.after_hash o.after_size_bytes o.after_modified_at_utc
performed delete o current = none
performed set_metadata o current = touched o.after_modified_at_utc current

-- The file at a path after all of the operations.
unfoldable pub state_after :
    List FileOperation → List ℕ → Option CurrentFileState → Option CurrentFileState
state_after [] p current = current
state_after (o ∷ os) p current =
    state_after os p (if list_eq o.path p then performed o.operation_type o current else current)

-- The hash and the time of a file.
abbrev pub content : Option CurrentFileState → Option (List ℕ × List ℕ)
content none = none
content (some current) = some (current.hash, current.modified_at_utc)

abbrev pub file_content : Option SnapshotFile → Option (List ℕ × List ℕ)
file_content none = none
file_content (some file) = some (file.content_hash, file.modified_at_utc)

pub state_after-append :
    (os os' : List FileOperation) (p : List ℕ) (c : Option CurrentFileState)
    → state_after (os ++ os') p c ≡ state_after os' p (state_after os p c)
unfolding state_after
state_after-append [] os' p c = refl
state_after-append (o ∷ os) os' p c = state_after-append os os' p _

-- No operation is on the path.
pub match_file-other :
    (file : SnapshotFile) (current : Option CurrentFileState) (p : List ℕ)
    (c : Option CurrentFileState)
    → list_eq file.path p ≡ false
    → state_after (match_file file current) p c ≡ c
unfolding match_file state_after
match_file-other file none p c h = rw h
match_file-other file (some current) p c h =
    elim (Bool-cases (list_eq current.hash file.content_hash)) [
      | inr e ↦ rw (e, h)
      | inl e ↦ elim (Bool-cases (list_eq current.modified_at_utc file.modified_at_utc)) [
        | inl e' ↦ rw (e, e')
        | inr e' ↦ rw (e, e', h)
      ]
    ]

-- The operations on a file of the snapshot bring it to the snapshot's hash and time, also when
-- they are performed again.
pub match_file-content :
    (file : SnapshotFile) (current : Option CurrentFileState) (c : Option CurrentFileState)
    → (content c ≡ content current) ⊎ (content c ≡ file_content (some file))
    → content (state_after (match_file file current) file.path c) ≡ file_content (some file)
unfolding match_file state_after
match_file-content file none c h = rw (list_eq_refl file.path)
match_file-content file (some current) c h =
    elim (Bool-cases (list_eq current.hash file.content_hash)) [
      | inr e ↦ rw (e, list_eq_refl file.path)
      | inl e ↦ elim (Bool-cases (list_eq current.modified_at_utc file.modified_at_utc)) [
        | inl e' ↦ rw (e, e') (same c h (list_eq→eq _ _ e) (list_eq→eq _ _ e'))
        | inr e' ↦ rw (e, e', list_eq_refl file.path) (timed c h (list_eq→eq _ _ e))
      ]
    ]
  where
    same :
        (c : Option CurrentFileState)
        → (content c ≡ content (some current)) ⊎ (content c ≡ file_content (some file))
        → current.hash ≡ file.content_hash
        → current.modified_at_utc ≡ file.modified_at_utc
        → content c ≡ file_content (some file)
    same c (inl e) a b = e ∙ rw (a, b)
    same c (inr e) a b = e

    timed :
        (c : Option CurrentFileState)
        → (content c ≡ content (some current)) ⊎ (content c ≡ file_content (some file))
        → current.hash ≡ file.content_hash
        → content (touched (some file.modified_at_utc) c) ≡ file_content (some file)
    timed none (inl e) a = absurd (cc e)
    timed none (inr e) a = absurd (cc e)
    timed (some x) (inl e) a = let h : x.hash ≡ file.content_hash = cc (e, a) in rw h
    timed (some x) (inr e) a = let h : x.hash ≡ file.content_hash = cc e in rw h
