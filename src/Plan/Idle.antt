-- ===== src/Plan/Idle.antt =====
-- When the files are those of the snapshot, a restore has nothing to do.
use check_po.Prelude.{
  ℕ, ◌≡◌, refl, sym, ap, ◌∙◌, inl, inr, true, false, Option, none, some, List, [], ◌∷◌, arith,
  list_eq, list_eq→eq, list_eq_refl, Bool-cases,
}
use check_po.Prelude.Map.{Map, get, collect, keys, mem, is_some, mem-keys}
use check_po.Prelude.Map.Collect.{IsDistinct, or_else, get-collect}
use check_po.Plan.{
  CurrentFileState, SnapshotFile, by_path, match_file, restore_files, delete_others,
  restore_operations,
}
use check_po.Plan.Effect.{content, file_content}

match_file-idle :
    (f : SnapshotFile) (current : Option CurrentFileState)
    → content current ≡ file_content (some f)
    → match_file f current ≡ []
unfolding match_file
match_file-idle f none h = absurd (cc h)
match_file-idle f (some x) h =
    let a : x.hash ≡ f.content_hash = cc h in
    let b : x.modified_at_utc ≡ f.modified_at_utc = cc h in
    rw (a, b, list_eq_refl f.content_hash, list_eq_refl f.modified_at_utc)

restore_files-idle :
    (w : Map CurrentFileState) (files : List SnapshotFile)
    → IsDistinct (keys (by_path files))
    → ((p : List ℕ) (f : SnapshotFile)
        → get p (by_path files) ≡ some f
        → content (get p w) ≡ file_content (some f))
    → restore_files w files ≡ []
unfolding restore_files get keys
restore_files-idle w [] d h = refl
restore_files-idle w (f ∷ files) d h = rw (
  match_file-idle f (get f.path w) (h f.path f (rw (list_eq_refl f.path))),
  restore_files-idle w files d.1 λ p g e. h p g (rw (other p g e) e),
)
  where
    -- A later file has another path.
    other :
        (p : List ℕ) (g : SnapshotFile) → get p (by_path files) ≡ some g → list_eq f.path p ≡ false
    other p g e = elim (Bool-cases (list_eq f.path p)) [
      | inr x ↦ x
      | inl x ↦
          let there : mem p (keys (by_path files)) ≡ true =
            mem-keys p (by_path files) ∙ ap is_some e in
          let not_there : mem p (keys (by_path files)) ≡ false =
            sym (ap (λ q. mem q (keys (by_path files))) (list_eq→eq f.path p x)) ∙ d.0 in
          absurd (cc (there, not_there))
    ]

delete_others-idle :
    (sm : Map SnapshotFile) (m : Map CurrentFileState)
    → ((p : List ℕ) → mem p (keys m) ≡ true → is_some (get p sm) ≡ true)
    → delete_others sm m ≡ []
unfolding delete_others mem keys
delete_others-idle sm [] h = refl
delete_others-idle sm ((k, x) ∷ m) h =
    rw (h k (rw (list_eq_refl k)), delete_others-idle sm m λ p e. h p (rw e (ground arith)))

is_some-content :
    (o : Option CurrentFileState) (f : Option SnapshotFile)
    → content o ≡ file_content f
    → is_some o ≡ is_some f
is_some-content none none h = refl
is_some-content none (some f) h = absurd (cc h)
is_some-content (some x) none h = absurd (cc h)
is_some-content (some x) (some f) h = refl

nothing_more :
    (p : List ℕ) (o : Option SnapshotFile)
    → is_some (or_else o (get {V = SnapshotFile} p [])) ≡ is_some o
unfolding get
nothing_more p none = refl
nothing_more p (some f) = refl

-- If the snapshot's files have different paths, and the scanned files have at every path the hash
-- and the time of the snapshot's file, or are missing where the snapshot has none, then a restore
-- finds no operation: this is what `verify_full_restore_target` checks after a restore.
pub restore_operations-idle :
    (files : List SnapshotFile) (working : Map CurrentFileState)
    → IsDistinct (keys (by_path files))
    → ((p : List ℕ) → content (get p (collect [] working)) ≡ file_content (get p (by_path files)))
    → restore_operations files working ≡ []
unfolding restore_operations
restore_operations-idle files working d h = rw (
  restore_files-idle (collect [] working) files d λ p f e. h p ∙ ap file_content e,
  delete_others-idle (collect [] (by_path files)) (collect [] working) λ p e.
      in_snapshot p ∙ sym (is_some-content _ _ (h p)) ∙ sym (mem-keys p (collect [] working)) ∙ e,
)
  where
    in_snapshot :
        (p : List ℕ)
        → is_some (get p (collect [] (by_path files))) ≡ is_some (get p (by_path files))
    in_snapshot p =
        ap is_some (get-collect p [] (by_path files) d) ∙ nothing_more p (get p (by_path files))
