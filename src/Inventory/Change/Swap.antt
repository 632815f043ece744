-- ===== src/Inventory/Change/Swap.antt =====
-- The compare and swap of the head.
use check_po.Prelude.{
  ℕ, ◌≡◌, ◌≢◌, refl, sym, ap, subst, ◌∙◌, Bool, true, false, not, Option, some, List, list_eq,
  list_eq→eq, list_eq_refl, Bool-cases, inl, inr,
}
use check_po.Prelude.Result.{ok, err, reject_if}
use check_po.Prelude.Map.{get, insert, get-insert_same, get-insert_other}
use check_po.Codec.{Digest32}
use check_po.Path.Id.{encode_lower_hex}
use check_po.Inventory.{
  InventoryResult, InventoryOperation, InventoryState, encode_state, corruption,
  working_tree_changed,
}
use check_po.Inventory.Store.{
  Files, then_run, ◌>>=◌, ◌>>◌, lift, inventory_head_path, inventory_state_path, inventory_head,
  InventoryHead, parse_id, load_state, store_state, state_id, write_head,
}
use check_po.Inventory.Store.Heads.{head_bytes}
use check_po.Inventory.Store.Loaded.{load_state-StateAt}
use check_po.Inventory.Change.{
  swap, commit, state_eq, next_state, change_from, transition_inventory,
}
use check_po.Path.{is_nil}
use check_po.Inventory.Change.Preserves.{
  Preserves-lift, HeadIs, inventory_head-Preserves, load_state-Preserves, mutate_set-Preserves,
  state_path-ne-head,
}
use check_po.Inventory.Change.Leads.{Leads, Leads-bind}
use check_po.Inventory.Change.Outcome.{
  IsNext, Made, Confirmed, Outcome, unchanged, replayed, lost, swapped,
}

module _ (hash : List ℕ → Digest32) (others : Files → Files) (project_id : List ℕ)
    (op : InventoryOperation) (snapshot_id : Digest32) (operation_id : List ℕ)
    (expected_id : Digest32) (head : Option (List ℕ)) where
  abbrev Ends : InventoryResult (List ℕ) × Files → Type 0
  Ends = Outcome hash others project_id op snapshot_id operation_id expected_id head

  abbrev Next : InventoryState → Type 0
  Next = IsNext hash others project_id op snapshot_id operation_id expected_id head

  abbrev id_of : InventoryState → Digest32
  id_of state = state_id hash (encode_state state)

  -- A head that is read differs from the expected one when the test says so.
  read_differs :
      {r : InventoryResult InventoryHead × Files} (files files1 : Files)
      (again other : InventoryHead)
      → r ≡ (ok again, files)
      → r ≡ (ok other, files1)
      → list_eq again.id expected_id ≡ false
      → other.id ≢ expected_id
  read_differs files files1 again other read h e same =
      let one : again ≡ other = cc (read, h) in
      absurd (cc (e, list_eq_refl expected_id, same, ap (λ (x : InventoryHead). x.id) one))

  read_same :
      (files : Files) (r : InventoryResult InventoryHead × Files)
      → inventory_head hash project_id files ≡ r
      → r.1 ≡ files
  read_same files r read =
      subst (λ (x : InventoryResult InventoryHead × Files). x.1 ≡ files) read
        ((inventory_head-Preserves hash {P = λ f. f ≡ files} project_id).at files refl)

  -- The last read, of the files that the head was written to.
  Confirmed-last :
      (new : Digest32) (final : Files) (r : InventoryResult InventoryHead × Files)
      → inventory_head hash project_id final ≡ r
      → r.1 ≡ final
      → let run = then_run r λ last.
        lift (
          reject_if
            (not (list_eq last.id new))
            (corruption "snapshot inventory head commit did not persist"))
        >> lift (ok (encode_lower_hex new)) in
        (run.1 ≡ final)
        × Confirmed hash others project_id op snapshot_id operation_id expected_id head new run
  Confirmed-last new final (err e, files) read same = (same, λ text h. absurd (cc h))
  Confirmed-last new final (ok last, files) read same = elim (Bool-cases (list_eq last.id new)) [
    | inr e ↦ rw e (same, λ text h. absurd (cc h))
    | inl e ↦ rw e (
      same,
      λ text h.
          (cc h, (last, ap (inventory_head hash project_id) same ∙ read, list_eq→eq last.id new e)),
    )
  ]

  swap-Outcome :
      (before : Files) (state : InventoryState)
      → Made hash others project_id op snapshot_id operation_id expected_id head before state
      → (r : InventoryResult InventoryHead × Files)
      → inventory_head hash project_id (others before) ≡ r
      → r.1 ≡ others before
      → Ends (then_run r (swap hash project_id (id_of state) expected_id))
  unfolding write_head
  swap-Outcome before state made (err e, files) read same =
      lost before state e made (λ again h. absurd (cc (h, read)))
        (ap (λ (f : Files). (err e, f)) same)
  swap-Outcome before state made (ok again, files) read same =
      elim (Bool-cases (list_eq again.id expected_id)) [
        | inr e ↦ rw e (
            lost before state _ made
              (λ other h. read_differs files (others before) again other read h e)
              (ap (λ (f : Files). (err working_tree_changed, f)) same))
        | inl e ↦
            let new = id_of state in
            let final = insert inventory_head_path (head_bytes new) files in
            let (kept, confirmed) =
              Confirmed-last new final (inventory_head hash project_id final) refl
                (read_same final (inventory_head hash project_id final) refl) in
            rw e (
              swapped before state again made (read ∙ ap (λ (f : Files). (ok again, f)) same)
                (list_eq→eq again.id expected_id e)
                (kept ∙ ap (insert inventory_head_path (head_bytes new)) same) confirmed)
      ]

  -- From the head that was read: a replay, or the swap.
  commit-replayed :
      (state : InventoryState) (current : InventoryHead) (files : Files)
      → Next state
      → HeadIs hash head files
      → inventory_head hash project_id files ≡ (ok current, files)
      → current.id ≡ id_of state
      → Ends (commit hash others project_id state expected_id current true files)
  commit-replayed state current files next h read same = by (state_eq current.state state)
    where
      by :
          (b : Bool)
          → Ends (
              then_run
                (
                  reject_if
                      (not b)
                      (corruption "snapshot inventory replay state does not match its operation"),
                  files,
                )
                (λ u. lift (ok (encode_lower_hex (id_of state)))))
      by true = replayed state current next read same refl h
      by false = unchanged _ refl h

  commit-swapped :
      (state : InventoryState) (current : InventoryHead) (files : Files)
      → Next state
      → HeadIs hash head files
      → Ends (commit hash others project_id state expected_id current false files)
  unfolding store_state
  commit-swapped state current files next h = by (list_eq current.id expected_id)
    where
      by :
          (b : Bool)
          → Ends (
              then_run
                (reject_if (not b) working_tree_changed, files)
                (λ u. store_state hash state >>= λ stored.
                  (λ files. (ok tt, others files))
                  >> (inventory_head hash project_id >>= swap hash project_id stored expected_id)))
      by true =
          let path = inventory_state_path (id_of state) in
          let before = insert path (encode_state state) files in
          swap-Outcome before state
            (record {
              next = next;
              stored = get-insert_same path (encode_state state) files;
              unwritten =
                  get-insert_other inventory_head_path path (encode_state state) files
                    (state_path-ne-head (id_of state))
                  ∙ h;
            })
            (inventory_head hash project_id (others before)) refl
            (read_same (others before) (inventory_head hash project_id (others before)) refl)
      by false = unchanged _ refl h

  commit-Outcome :
      (state : InventoryState) (files : Files)
      → Next state
      → HeadIs hash head files
      → (r : InventoryResult InventoryHead × Files) → inventory_head hash project_id files ≡ r
      → r.1 ≡ files
      → Ends (
          then_run r λ current.
            commit hash others project_id state expected_id current
              (list_eq current.id (id_of state)))
  commit-Outcome state files next h (err e, files1) read same =
      unchanged e refl (ap (get inventory_head_path) same ∙ h)
  commit-Outcome state files next h (ok current, files1) read same =
      let h1 = ap (get inventory_head_path) same ∙ h in
      elim (Bool-cases (list_eq current.id (id_of state))) [
        | inl e ↦ rw e (
            commit-replayed state current files1 next h1
              (ap (inventory_head hash project_id) same ∙ read)
              (list_eq→eq current.id (id_of state) e))
        | inr e ↦ rw e (commit-swapped state current files1 next h1)
      ]

  change_from-Leads :
      (expected : InventoryHead)
      → expected.id ≡ expected_id
      → Leads
          (HeadIs hash head)
          Ends
          (change_from hash others project_id op snapshot_id operation_id expected)
  unfolding change_from
  change_from-Leads expected same =
      Leads-bind _ _ (λ e files p. unchanged e refl p)
        (mutate_set-Preserves hash project_id expected.state op snapshot_id)
        λ changed.
          Leads-bind _ _ (λ e files p. unchanged e refl p) (Preserves-lift _)
            λ generation. record {
              at = λ files p.
                  let state =
                    next_state hash project_id op snapshot_id operation_id expected changed
                      generation in
                  let next : Next state = record {
                    project = refl;
                    operation = refl;
                    parent = ap some same;
                    snapshot = refl;
                    named = refl;
                  } in
                  subst
                    (λ i. Ends (
                      then_run (inventory_head hash project_id files) λ current.
                        commit hash others project_id state i current
                          (list_eq current.id (id_of state))))
                    (sym same)
                    (commit-Outcome state files next p (inventory_head hash project_id files) refl
                      (read_same files (inventory_head hash project_id files) refl));
            }

  loaded-Outcome :
      (files : Files) (r : InventoryResult InventoryHead × Files)
      → load_state hash expected_id project_id files ≡ r
      → HeadIs hash head r.1
      → Ends (then_run r (change_from hash others project_id op snapshot_id operation_id))
  loaded-Outcome files (err e, files1) h p = unchanged e refl p
  loaded-Outcome files (ok expected, files1) h p =
      (change_from-Leads expected
          (load_state-StateAt hash files files1 expected_id project_id expected h).2).at
        files1 p

-- If the expected head id is an identifier, then a change of the inventory, whatever the hash is and
-- whatever other processes do to the files once the next state is stored, ends in one of four ways.
-- It fails and the head is as it was. It returns the name of the next state, which the head, as it
-- was, names already. It fails after it stored the next state, and leaves the files as the others
-- left them, where no head is read or one that is not the expected state. Or it leaves the files as
-- the others left them, where the head was read and is the expected state, with the head replaced by
-- the name of the next state that it stored; if it then succeeds, it returns that name, and the head
-- that is read at the end has it. The next state has the project, the operation, the snapshot and
-- the digest of the operation id that were given, and the expected state as its parent.
pub transition_inventory-Outcome :
    (hash : List ℕ → Digest32) (others : Files → Files) (project_id : List ℕ)
    (op : InventoryOperation) (snapshot_id : Digest32) (expected_head_id operation_id : List ℕ)
    (expected_id : Digest32) (files : Files)
    → parse_id expected_head_id "snapshot inventory expected head id is invalid" ≡ ok expected_id
    → Outcome hash others project_id op snapshot_id operation_id expected_id
        (get inventory_head_path files)
        (transition_inventory hash others project_id op snapshot_id expected_head_id operation_id
          files)
unfolding transition_inventory
transition_inventory-Outcome hash others project_id op snapshot_id expected_head_id operation_id
      expected_id files parsed =
    by (is_nil operation_id)
  where
    by :
        (empty : Bool)
        → Outcome hash others project_id op snapshot_id operation_id expected_id
            (get inventory_head_path files)
            (then_run
              (reject_if empty (corruption "snapshot inventory operation id is empty"), files)
              (λ u.
                lift (parse_id expected_head_id "snapshot inventory expected head id is invalid")
                >>= λ i.
                    load_state hash i project_id
                    >>= change_from hash others project_id op snapshot_id operation_id))
    by true = unchanged _ refl refl
    by false = rw parsed (
        loaded-Outcome hash others project_id op snapshot_id operation_id expected_id
          (get inventory_head_path files) files (load_state hash expected_id project_id files) refl
          ((load_state-Preserves hash {P = HeadIs hash (get inventory_head_path files)} expected_id
              project_id).at
            files refl))
