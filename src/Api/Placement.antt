-- ===== src/Api/Placement.antt =====
-- The PlacementPolicy of api/v1alpha1/other_types.go.
use kube_nas.Base.{String, Option}
use kube_nas.Api.Meta.{ObjectMeta}

-- `other` is any text that the strategies below do not have.
pub data PlacementStrategy : Type 0 where
  balanced least_used fill_first tiered other : PlacementStrategy

pub record PlacementWeights (F : Type 0) : Type 0 where
  pub free_space : F
  pub load : F
  pub health : F

pub record PlacementPolicySpec (F : Type 0) : Type 0 where
  pub strategy : PlacementStrategy
  pub weights : Option (PlacementWeights F)
  pub min_free_space : String

pub record PlacementPolicy (F : Type 0) : Type 0 where
  pub meta : ObjectMeta
  pub spec : PlacementPolicySpec F
