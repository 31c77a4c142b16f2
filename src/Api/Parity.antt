-- ===== src/Api/Parity.antt =====
-- The ParitySchedule of api/v1alpha1/other_types.go.
use kube_nas.Base.{ℕ, String, Option}
use kube_nas.Base.Int.{ℤ}
use kube_nas.Api.Meta.{ObjectMeta}

pub record ParityScheduleSpec : Type 0 where
  pub array_ref : String
  pub sync_cron : String
  pub check_cron : String
  pub scrub_cron : String
  pub scrub_percentage : ℤ

pub record ParityScheduleStatus : Type 0 where
  pub last_sync_time : Option ℕ
  pub last_check_time : Option ℕ
  pub last_scrub_time : Option ℕ
  pub last_sync_result : String

pub record ParitySchedule : Type 0 where
  pub meta : ObjectMeta
  pub spec : ParityScheduleSpec
  pub status : ParityScheduleStatus
