-- ===== src/Api/Pool.antt =====
-- api/v1alpha1/pool_types.go.
use kube_nas.Base.{String, Bool, Option, List}
use kube_nas.Base.Int.{ℤ}
use kube_nas.Api.Meta.{ObjectMeta, Condition}

pub record MergerfsConfig : Type 0 where
  pub category_create : String
  pub min_free_space : String
  pub extra_options : String

pub record PoolSpec : Type 0 where
  pub array_ref : String
  pub mount_point : String
  pub mergerfs : Option MergerfsConfig

pub record PoolStatus : Type 0 where
  pub phase : String
  pub mounted : Bool
  pub total_bytes : ℤ
  pub available_bytes : ℤ
  pub member_disks : List String
  pub conditions : List Condition

pub record Pool : Type 0 where
  pub meta : ObjectMeta
  pub spec : PoolSpec
  pub status : PoolStatus
