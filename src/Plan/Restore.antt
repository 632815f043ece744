-- ===== src/Plan/Restore.antt =====
-- A restore and a discard bring the files to the snapshot.
use check_po.Prelude.{
  ℕ, ◌≡◌, refl, ap, subst, ◌∙◌, inl, inr, true, false, Option, none, some, List, [], ◌∷◌, list_eq,
  list_eq→eq, Bool-cases, Option-cases,
}
use check_po.Prelude.Map.{Map, get, collect, keys, mem, is_some, mem-keys}
use check_po.Prelude.Map.Collect.{IsDistinct, get-collect}
use check_po.Plan.{
  CurrentFileState, SnapshotFile, by_path, match_file, restore_files, delete_others,
  restore_operations,
}
use check_po.Plan.Effect.{
  state_after, content, file_content, state_after-append, match_file-other, match_file-content,
}

restore_files-other :
    (w : Map CurrentFileState) (files : List SnapshotFile) (p : List ℕ)
    (c : Option CurrentFileState)
    → mem p (keys (by_path files)) ≡ false
    → state_after (restore_files w files) p c ≡ c
unfolding restore_files mem keys
restore_files-other w [] p c h = unfold state_after in refl
restore_files-other w (f ∷ files) p c h = elim (Bool-cases (list_eq f.path p)) [
  | inl e ↦ absurd (cc (rw e at h))
  | inr e ↦
      state_after-append (match_file f (get f.path w)) (restore_files w files) p c
      ∙ ap (state_after (restore_files w files) p) (match_file-other f (get f.path w) p c e)
      ∙ restore_files-other w files p c (rw e at h)
]

restore_files-head :
    (w : Map CurrentFileState) (f : SnapshotFile) (files : List SnapshotFile)
    → mem f.path (keys (by_path files)) ≡ false
    → content (state_after (restore_files w (f ∷ files)) f.path (get f.path w))
      ≡ file_content (some f)
unfolding restore_files
restore_files-head w f files d =
    ap content (
      state_after-append (match_file f (get f.path w)) (restore_files w files) f.path (get f.path w)
      ∙ restore_files-other w files f.path _ d)
    ∙ match_file-content f (get f.path w) (get f.path w) (inl refl)

restore_files-content :
    (w : Map CurrentFileState) (files : List SnapshotFile) (p : List ℕ) (file : SnapshotFile)
    → IsDistinct (keys (by_path files))
    → get p (by_path files) ≡ some file
    → content (state_after (restore_files w files) p (get p w)) ≡ file_content (some file)
unfolding restore_files get keys
restore_files-content w [] p file d h = absurd (cc h)
restore_files-content w (f ∷ files) p file d h = elim (Bool-cases (list_eq f.path p)) [
  | inl e ↦
      let here : f.path ≡ p = list_eq→eq f.path p e in
      let same : f ≡ file = cc (rw e at h) in
      subst
        (λ q.
          content (state_after (restore_files w (f ∷ files)) q (get q w)) ≡ file_content (some f))
        here (restore_files-head w f files d.0)
      ∙ ap (λ x. file_content (some x)) same
  | inr e ↦
      ap content (
        state_after-append (match_file f (get f.path w)) (restore_files w files) p (get p w)
        ∙ ap (state_after (restore_files w files) p)
            (match_file-other f (get f.path w) p (get p w) e))
      ∙ restore_files-content w files p file d.1 (rw e at h)
]

delete_others-kept :
    (sm : Map SnapshotFile) (m : Map CurrentFileState) (p : List ℕ) (c : Option CurrentFileState)
    → is_some (get p sm) ≡ true
    → state_after (delete_others sm m) p c ≡ c
unfolding delete_others state_after
delete_others-kept sm [] p c h = refl
delete_others-kept sm ((k, x) ∷ m) p c h = elim (Bool-cases (is_some (get k sm))) [
  | inl e ↦ rw e (delete_others-kept sm m p c h)
  | inr e ↦ elim (Bool-cases (list_eq k p)) [
    | inl e' ↦ absurd (cc (rw (list_eq→eq k p e') at e, h))
    | inr e' ↦ rw (e, e') (delete_others-kept sm m p c h)
  ]
]

delete_others-none :
    (sm : Map SnapshotFile) (m : Map CurrentFileState) (p : List ℕ)
    → state_after (delete_others sm m) p none ≡ none
unfolding delete_others state_after
delete_others-none sm [] p = refl
delete_others-none sm ((k, x) ∷ m) p = elim (Bool-cases (is_some (get k sm))) [
  | inl e ↦ rw e (delete_others-none sm m p)
  | inr e ↦ elim (Bool-cases (list_eq k p)) [
    | inl e' ↦ rw (e, e') (delete_others-none sm m p)
    | inr e' ↦ rw (e, e') (delete_others-none sm m p)
  ]
]

-- A file that the snapshot does not have goes.
delete_others-gone :
    (sm : Map SnapshotFile) (m : Map CurrentFileState) (p : List ℕ)
    → is_some (get p sm) ≡ false
    → state_after (delete_others sm m) p (get p m) ≡ none
unfolding delete_others state_after get
delete_others-gone sm [] p h = refl
delete_others-gone sm ((k, x) ∷ m) p h = elim (Bool-cases (list_eq k p)) [
  | inl e ↦
      let gone : is_some (get k sm) ≡ false = ap (λ q. is_some (get q sm)) (list_eq→eq k p e) ∙ h in
      rw (gone, e) (delete_others-none sm m p)
  | inr e ↦ elim (Bool-cases (is_some (get k sm))) [
    | inl e' ↦ rw (e', e) (delete_others-gone sm m p h)
    | inr e' ↦ rw (e', e) (delete_others-gone sm m p h)
  ]
]

-- What the operations of a restore do, in the order in which they are found.
pub restore_operations-content :
    (files : List SnapshotFile) (working : Map CurrentFileState) (p : List ℕ)
    → IsDistinct (keys (by_path files))
    → content (state_after (restore_operations files working) p (get p (collect [] working)))
      ≡ file_content (get p (by_path files))
unfolding restore_operations
restore_operations-content files working p d =
    ap content (state_after-append (restore_files w files) (delete_others sm w) p (get p w))
    ∙ elim (Option-cases (get p (by_path files))) [
      | inl none_there ↦
          let absent : is_some (get p sm) ≡ false =
            rw (get-collect p [] (by_path files) d, none_there) (unfold get in refl) in
          rw none_there (
            ap content (
              ap (state_after (delete_others sm w) p)
                (restore_files-other w files p (get p w) (not_listed none_there))
              ∙ delete_others-gone sm w p absent))
      | inr (file, there) ↦
          let kept : is_some (get p sm) ≡ true = rw (get-collect p [] (by_path files) d, there) in
          rw (delete_others-kept sm w p _ kept, there)
            (restore_files-content w files p file d there)
    ]
  where
    w : Map CurrentFileState
    w = collect [] working

    sm : Map SnapshotFile
    sm = collect [] (by_path files)

    not_listed : get p (by_path files) ≡ none → mem p (keys (by_path files)) ≡ false
    not_listed e = mem-keys p (by_path files) ∙ ap is_some e
