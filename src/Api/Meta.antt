-- ===== src/Api/Meta.antt =====
-- The parts of `metav1.ObjectMeta` and `metav1.Condition` that the source reads or sets. An instant,
-- `metav1.Time`, is its count of nanoseconds; a pointer to one may be missing.
use kube_nas.Base.{ℕ, String, Bool, Option, List}

pub record OwnerReference : Type 0 where
  pub api_version : String
  pub kind : String
  pub name : String
  pub uid : String
  pub controller : Bool
  pub block_owner_deletion : Bool

pub record ObjectMeta : Type 0 where
  pub name : String
  pub namespace : String
  pub uid : String
  pub resource_version : String
  pub labels : List (String × String)
  pub annotations : Option (List (String × String))
  pub finalizers : List String
  pub owner_references : List OwnerReference
  pub deletion_timestamp : Option ℕ

-- `types.NamespacedName`.
pub record Key : Type 0 where
  pub name : String
  pub namespace : String

pub record Condition : Type 0 where
  pub type : String
  pub status : Bool  -- ConditionTrue or ConditionFalse
  pub reason : String
  pub message : String
  pub last_transition_time : ℕ
