-- ===== src/Inventory/Change/Leads.antt =====
-- Steps of the inventory that lead from a condition on the files to one on the result and the files.
use check_po.Prelude.Result.{ok, err}
use check_po.Inventory.{InventoryError, InventoryResult}
use check_po.Inventory.Store.{Files, M, then_run, ◌>>=◌}
use check_po.Inventory.Change.Preserves.{Preserves}

-- A step from files with `P` ends with `Q`, also when it fails.
pub record Leads {A : Type 0} (P : Files → Type 0) (Q : InventoryResult A × Files → Type 0)
    (m : M A) : Type 0 where
  pub at : (files : Files) → P files → Q (m files)

module _ {A B : Type 0} {P : Files → Type 0} {Q : InventoryResult B × Files → Type 0} where
  pub then_run-leads :
      (r : InventoryResult A × Files) (f : A → M B)
      → ((e : InventoryError) (files : Files) → P files → Q (err e, files))
      → ((a : A) → Leads P Q (f a))
      → P r.1
      → Q (then_run r f)
  then_run-leads (ok a, files) f stop h p = (h a).at files p
  then_run-leads (err e, files) f stop h p = stop e files p

  pub Leads-bind :
      (m : M A) (f : A → M B)
      → ((e : InventoryError) (files : Files) → P files → Q (err e, files))
      → Preserves P m
      → ((a : A) → Leads P Q (f a))
      → Leads P Q (m >>= f)
  Leads-bind m f stop h k = record {
    at = λ files p. then_run-leads (m files) f stop k (h.at files p);
  }
