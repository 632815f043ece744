-- ===== src/Plan/Totals/Ordered.antt =====
-- Sorted operations are the same operations, in the order of their paths.
use mathlib.Core.List.{Perm}
use mathlib.Core.List.Perm
use check_po.Prelude.{◌≡◌, refl, ◌≢◌, List, [], ◌∷◌}
use check_po.Prelude.Map.{Comparison, less, equal, greater, compare_text, compare_text_refl}
use check_po.Prelude.Map.Order.{greater_trans}
use check_po.Plan.{FileOperation, insert_operation, sort_operations, place}
use check_po.Plan.Totals.{IsByPath}

insert_operation-Perm :
    (o : FileOperation) (os : List FileOperation) → Perm (insert_operation o os) (o ∷ os)
unfolding insert_operation
insert_operation-Perm o [] = Perm.refl (o ∷ [])
insert_operation-Perm o (x ∷ os) = by (insert_operation-Perm o os) (compare_text o.path x.path)
  where
    by :
        Perm (insert_operation o os) (o ∷ os)
        → (k : Comparison) → Perm (place k o (x ∷ os) (x ∷ insert_operation o os)) (o ∷ x ∷ os)
    by ih less = Perm.refl _
    by ih equal = Perm.refl _
    by ih greater = Perm.trans (Perm.cons x ih) (Perm.swap o x os)

pub sort_operations-Perm : (os : List FileOperation) → Perm (sort_operations os) os
unfolding sort_operations
sort_operations-Perm [] = Perm.refl []
sort_operations-Perm (o ∷ os) =
    Perm.trans (insert_operation-Perm o (sort_operations os))
      (Perm.cons o (sort_operations-Perm os))

-- What is under `x` and not under `o` stays when `o` is inserted.
IsByPath-under :
    (x o : FileOperation) (os : List FileOperation)
    → compare_text x.path o.path ≢ greater
    → IsByPath (x ∷ os)
    → IsByPath (insert_operation o os)
    → IsByPath (x ∷ insert_operation o os)
unfolding insert_operation
IsByPath-under x o [] h sorted rest = (h, tt)
IsByPath-under x o (y ∷ os) h sorted rest = by (compare_text o.path y.path) rest
  where
    by :
        (k : Comparison)
        → IsByPath (place k o (y ∷ os) (y ∷ insert_operation o os))
        → IsByPath (x ∷ place k o (y ∷ os) (y ∷ insert_operation o os))
    by less rest = (h, rest)
    by equal rest = (h, rest)
    by greater rest = (sorted.0, rest)

IsByPath-tail : (x : FileOperation) (os : List FileOperation) → IsByPath (x ∷ os) → IsByPath os
IsByPath-tail x [] h = tt
IsByPath-tail x (y ∷ os) h = h.1

insert_operation-IsByPath :
    (o : FileOperation) (os : List FileOperation) → IsByPath os → IsByPath (insert_operation o os)
unfolding insert_operation
insert_operation-IsByPath o [] h = tt
insert_operation-IsByPath o (x ∷ os) h =
    by (insert_operation-IsByPath o os (IsByPath-tail x os h)) (compare_text o.path x.path) refl
  where
    by :
        IsByPath (insert_operation o os)
        → (k : Comparison) → compare_text o.path x.path ≡ k
        → IsByPath (place k o (x ∷ os) (x ∷ insert_operation o os))
    by ih less e = (λ g. absurd (cc (e, g)), h)
    by ih equal e = (λ g. absurd (cc (e, g)), h)
    by ih greater e =
        IsByPath-under x o os
          (λ g. cc (compare_text_refl o.path, greater_trans o.path x.path o.path e g)) h ih

pub sort_operations-IsByPath : (os : List FileOperation) → IsByPath (sort_operations os)
unfolding sort_operations
sort_operations-IsByPath [] = tt
sort_operations-IsByPath (o ∷ os) =
    insert_operation-IsByPath o (sort_operations os) (sort_operations-IsByPath os)
