-- ===== src/Api/Share.antt =====
-- api/v1alpha1/share_types.go.
use kube_nas.Base.{ℕ, String, Bool, Option, List}
use kube_nas.Api.Meta.{ObjectMeta, Condition}

pub data ShareProtocol : Type 0 where
  smb nfs : ShareProtocol

pub data SharePermission : Type 0 where
  read write admin : SharePermission

pub data ShareSubjectKind : Type 0 where
  user group : ShareSubjectKind

pub record ShareSubject : Type 0 where
  pub kind : ShareSubjectKind
  pub name : String
  pub permissions : List SharePermission

pub record ShareAuthz : Type 0 where
  pub mode : String
  pub subjects : List ShareSubject

pub record SmbConfig : Type 0 where
  pub browseable : Bool
  pub read_only : Bool
  pub guest_ok : Bool

pub record NfsConfig : Type 0 where
  pub allowed_cidrs : List String
  pub read_only : Bool
  pub squash_mode : String
  pub anon_uid : ℕ
  pub anon_gid : ℕ

pub record ShareSpec : Type 0 where
  pub pool_ref : String
  pub path : String
  pub protocol : ShareProtocol
  pub authz : Option ShareAuthz
  pub smb : Option SmbConfig
  pub nfs : Option NfsConfig

pub record ShareStatus : Type 0 where
  pub phase : String
  pub published : Bool
  pub effective_subjects : List String
  pub pod_name : String
  pub service_name : String
  pub conditions : List Condition

pub record Share : Type 0 where
  pub meta : ObjectMeta
  pub spec : ShareSpec
  pub status : ShareStatus

unfoldable pub protocol_text : ShareProtocol → String
protocol_text smb = "SMB"
protocol_text nfs = "NFS"
