-- ===== src/Api/Meta.antt =====
-- Object metadata and names of the Kubernetes API, with the fields that this program reads or sets.
use restic_backup_operator.Base.{ℕ, String, Bool, Option, List, ℤ, is_some}

-- `types.NamespacedName`
pub record NamespacedName : Type 0 where
  pub name : String
  pub namespace : String

-- `metav1.ObjectMeta`; an owner is given by its kind and name.
pub record ObjectMeta : Type 0 where
  pub name : String
  pub namespace : String
  pub generation : ℤ
  pub deletion_timestamp : Option ℕ
  pub finalizers : List String
  pub labels : List (String × String)
  pub owner_references : List (String × String)

-- `!obj.DeletionTimestamp.IsZero()`
abbrev pub is_deleted : ObjectMeta → Bool
is_deleted m = is_some m.deletion_timestamp

-- The JSON text of a Kubernetes value that the program passes on and never looks into.
abbrev pub Raw : Type 0
Raw = String
