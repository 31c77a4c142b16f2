-- ===== src/Api/Cache.antt =====
-- The CachePool of api/v1alpha1/other_types.go.
use kube_nas.Base.{String, Option, List}
use kube_nas.Base.Int.{ℤ}
use kube_nas.Api.Meta.{ObjectMeta}

pub data CacheMode : Type 0 where
  write_back write_through : CacheMode

pub record FlushPolicy : Type 0 where
  pub max_dirty_age : String
  pub high_watermark_percent : ℤ

pub record CachePoolSpec : Type 0 where
  pub pool_ref : String
  pub cache_disks : List String
  pub mode : CacheMode
  pub flush_policy : Option FlushPolicy

pub record CachePoolStatus (F : Type 0) : Type 0 where
  pub phase : String
  pub cache_used_bytes : ℤ
  pub cache_capacity_bytes : ℤ
  pub dirty_percent : F

pub record CachePool (F : Type 0) : Type 0 where
  pub meta : ObjectMeta
  pub spec : CachePoolSpec
  pub status : CachePoolStatus F
