-- ===== src/Inventory/Removal/Survivor.antt =====
-- The walk through the older states finds an identifier that remains.
use check_po.Prelude.{
  ℕ, zero, suc, ◌≡◌, refl, subst, Bool, true, false, not, ◌||◌, inl, inr, Option, none, some, List,
  [], ◌∷◌, list_eq, list_eq→eq, Bool-cases,
}
use check_po.Prelude.Result.{ok, reject_if}
use check_po.Prelude.Map.{mem}
use check_po.Codec.{Digest32, checked_add_u64}
use check_po.Inventory.{InventoryError, InventoryOperation, initialize, add, remove, corruption}
use check_po.Inventory.Store.{Files, M, InventoryHead, load_state}
use check_po.Inventory.Store.Loaded.{run-eq_ok, lift-eq_ok, last-eq_ok}
use check_po.Inventory.Removal.{
  without, is_generation, if_remains, surviving_candidate, to_parent, found_or_parent, round,
  survivor_from,
}

if_remains-mem :
    (candidate : Digest32) (remaining : List Digest32) (c : Digest32)
    → if_remains candidate remaining ≡ some c
    → mem c remaining ≡ true
if_remains-mem candidate remaining c h = elim (Bool-cases (mem candidate remaining)) [
  | inl e ↦
      let same : some candidate ≡ some c = rw e at h in
      let eq : candidate ≡ c = cc same in subst (λ x. mem x remaining ≡ true) eq e
  | inr e ↦ absurd (cc (rw e at h))
]

surviving_candidate-mem :
    (op : InventoryOperation) (id : Option Digest32) (remaining : List Digest32) (c : Digest32)
    → surviving_candidate op id remaining ≡ ok (some c)
    → mem c remaining ≡ true
surviving_candidate-mem add (some candidate) remaining c h =
    let e : if_remains candidate remaining ≡ some c = cc h in if_remains-mem candidate remaining c e
surviving_candidate-mem add none remaining c h = cc h
surviving_candidate-mem remove id remaining c h = cc h
surviving_candidate-mem initialize id remaining c h = cc h

or_right : (a b : Bool) → b ≡ true → (a || b) ≡ true
or_right true b h = refl
or_right false b h = h

pub mem-without :
    (l removed : Digest32) (ids : List Digest32)
    → mem l (without removed ids) ≡ true
    → (list_eq l removed ≡ false) × (mem l ids ≡ true)
unfolding mem
mem-without l removed [] h = cc h
mem-without l removed (x ∷ ids) h = elim (Bool-cases (list_eq x removed)) [
  | inl e ↦
      let (apart, there) = mem-without l removed ids (rw e at h) in
      (apart, or_right (list_eq x l) (mem l ids) there)
  | inr e ↦
      let h' : (list_eq x l || mem l (without removed ids)) ≡ true = rw e at h in
      elim (Bool-cases (list_eq x l)) [
        | inl t ↦ (subst (λ y. list_eq y removed ≡ false) (list_eq→eq x l t) e, rw t refl)
        | inr t ↦
            let (apart, there) = mem-without l removed ids (rw t at h') in
            (apart, or_right (list_eq x l) (mem l ids) there)
      ]
]

module _ (hash : List ℕ → Digest32) (project_id : List ℕ) where
  round-mem :
      (remaining visited : List Digest32) (next : InventoryHead → M Digest32)
      (cursor : InventoryHead) (files files' : Files) (l : Digest32)
      → ((p : InventoryHead) (fs : Files) → next p fs ≡ (ok l, files') → mem l remaining ≡ true)
      → round hash project_id remaining visited next cursor files ≡ (ok l, files')
      → mem l remaining ≡ true
  unfolding round
  round-mem remaining visited next cursor files files' l rest h =
      let e = corruption "snapshot inventory state chain contains a cycle" in
      let (u, g1, h1) = lift-eq_ok (reject_if (mem cursor.id visited) e) files _ h in
      let (c, g2, h2) =
        lift-eq_ok (surviving_candidate cursor.state.operation cursor.state.snapshot_id remaining)
          files _ h1 in
      by c g2 h2
    where
      wrong : InventoryError
      wrong = corruption "snapshot inventory state generations are not contiguous"

      parent :
          (o : Option Digest32)
          → to_parent hash project_id next cursor.state.generation o files ≡ (ok l, files')
          → mem l remaining ≡ true
      parent none h = cc h
      parent (some id) h =
          let (p, files1, g1, h1) = run-eq_ok (load_state hash id project_id files) _ h in
          let (u, g2, h2) =
            lift-eq_ok
              (reject_if
                (not (is_generation (checked_add_u64 p.state.generation 1) cursor.state.generation))
                wrong)
              files1 _ h1 in
          rest p files1 h2

      by :
          (c : Option Digest32)
          → surviving_candidate cursor.state.operation cursor.state.snapshot_id remaining ≡ ok c
          → found_or_parent hash project_id next cursor c files ≡ (ok l, files')
          → mem l remaining ≡ true
      by none g h = parent cursor.state.parent h
      by (some c) g h =
          subst (λ x. mem x remaining ≡ true) (last-eq_ok c l files files' h).0
            (surviving_candidate-mem cursor.state.operation cursor.state.snapshot_id remaining c g)

  pub survivor_from-mem :
      (g : ℕ) (remaining visited : List Digest32) (cursor : InventoryHead) (files files' : Files)
      (l : Digest32)
      → survivor_from hash project_id g remaining visited cursor files ≡ (ok l, files')
      → mem l remaining ≡ true
  unfolding survivor_from
  survivor_from-mem zero remaining visited cursor files files' l h =
      round-mem remaining visited _ cursor files files' l (λ p fs k. cc k) h
  survivor_from-mem (suc g) remaining visited cursor files files' l h =
      round-mem remaining visited _ cursor files files' l
        (λ p fs k. survivor_from-mem g remaining (cursor.id ∷ visited) p fs files' l k) h
