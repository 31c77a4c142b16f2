-- ===== src/Node/Smart.antt =====
-- node-agent/pkg/smart/smart.go. `parse` is `json.Unmarshal` into `smartctlOutput`, of which the fields
-- that are read are here. An `int` of Go has 64 bits on the nodes.
pub mod Score
use kube_nas.Base.{
  String, ◌<>◌, Bool, true, false, Option, none, some, List, [], ◌∷◌, ◌++◌, not, ◌&&◌,
  if◌then◌else◌,
}
use kube_nas.Base.Int.{ℤ, pos, ltb_ℤ, eq_ℤ, add64, sub64}
use kube_nas.Base.Float.{Float64}
use kube_nas.Base.Text.{decimal_ℤ, is_empty, join}
use kube_nas.Base.Outcome.{Error, Result, ok, err, wrap}
use kube_nas.Cluster.{Action, pure, ◌>>=◌}
use kube_nas.Node.Host.{Host, run, look_path}

pub record DiskHealth (F : Type 0) : Type 0 where
  pub device_path : String
  pub model : String
  pub serial_number : String
  pub firmware_version : String
  pub overall_health : String
  pub temperature : ℤ
  pub power_on_hours : ℤ
  pub rotational : Bool
  pub smart_failed : Bool
  pub io_errors : ℤ
  pub reallocated_sectors : ℤ
  pub pending_sectors : ℤ
  pub uncorrectable_errors : ℤ
  pub spin_retry_count : ℤ
  pub command_timeout : ℤ
  pub nvme_available_spare_percent : ℤ
  pub nvme_percent_used : ℤ
  pub nvme_media_errors : ℤ
  pub health_score : F

-- A row of the attribute table.
pub record Attribute : Type 0 where
  pub id : ℤ
  pub raw_value : ℤ

pub record SmartctlOutput : Type 0 where
  pub model_name : String
  pub serial_number : String
  pub firmware_version : String
  pub rotation_rate : ℤ
  pub passed : Bool
  pub temperature : ℤ
  pub power_on_hours : ℤ
  pub table : List Attribute
  pub available_spare : ℤ
  pub percentage_used : ℤ
  pub media_errors : ℤ
  pub num_err_log_entries : ℤ

abbrev pub is_positive : ℤ → Bool
is_positive a = ltb_ℤ (pos 0) a

-- A part of the summary that stands there for a positive number.
abbrev pub part : String → ℤ → String → List String
part name n unit = if is_positive n then (name <> ("=" <> (decimal_ℤ n <> unit))) ∷ [] else []

module _ {F : Type 0} where
  -- One pass of the loop over the table. The identifiers of the switch differ, so their order is free.
  unfoldable pub add_attribute : DiskHealth F → Attribute → DiskHealth F
  add_attribute h a =
      if eq_ℤ a.id (pos 5)
      then record h { reallocated_sectors = a.raw_value }
      else if eq_ℤ a.id (pos 187)
      then record h { uncorrectable_errors = a.raw_value }
      else if eq_ℤ a.id (pos 197)
      then record h { pending_sectors = a.raw_value }
      else if eq_ℤ a.id (pos 198)
      then (if ltb_ℤ h.uncorrectable_errors a.raw_value
          then record h { uncorrectable_errors = a.raw_value }
          else h)
      else if eq_ℤ a.id (pos 10)
      then record h { spin_retry_count = a.raw_value }
      else if eq_ℤ a.id (pos 188)
      then record h { command_timeout = a.raw_value }
      else h

  unfoldable pub add_attributes : DiskHealth F → List Attribute → DiskHealth F
  add_attributes h [] = h
  add_attributes h (a ∷ table) = add_attributes (add_attribute h a) table

  unfoldable pub format_smart_summary : DiskHealth F → String
  format_smart_summary h =
      join
        (((((h.overall_health ∷ part "temp" h.temperature "°C")
                ++ part "reallocated" h.reallocated_sectors "")
              ++ part "pending" h.pending_sectors "")
            ++ part "uncorrectable" h.uncorrectable_errors "")
          ++ part "nvme-errors" h.nvme_media_errors "")
        " "

module _ {F : Type 0} (fl : Float64 F) where
  -- `score -= math.Min(most, float64(n)*each)` for a positive count.
  abbrev pub penalized : F → ℤ → F → F → F
  penalized score n most each =
      if is_positive n then fl.sub score (fl.min most (fl.mul (fl.of_int n) each)) else score

  unfoldable pub compute_health_score : DiskHealth F → F
  compute_health_score h =
      let start = fl.literal 1 0 in
      let failed = if h.smart_failed then fl.sub start (fl.literal 6 1) else start in
      let reallocated = penalized failed h.reallocated_sectors (fl.literal 3 1) (fl.literal 1 2) in
      let pending = penalized reallocated h.pending_sectors (fl.literal 4 1) (fl.literal 5 2) in
      let uncorrectable =
        penalized pending h.uncorrectable_errors (fl.literal 5 1) (fl.literal 1 1) in
      let hot =
        if h.rotational && ltb_ℤ (pos 55) h.temperature
        then fl.sub uncorrectable
            (fl.mul (fl.of_int (sub64 h.temperature (pos 55))) (fl.literal 2 2))
        else uncorrectable in
      let worn =
        if not h.rotational && is_positive h.nvme_percent_used
        then fl.sub hot (fl.mul (fl.of_int h.nvme_percent_used) (fl.literal 5 3))
        else hot in
      fl.max (fl.literal 0 0) (fl.min (fl.literal 1 0) worn)

  -- The record that is built from the output, before its score.
  unfoldable pub initial_health : String → SmartctlOutput → DiskHealth F
  initial_health device_path raw = record {
    device_path = device_path;
    model = raw.model_name;
    serial_number = raw.serial_number;
    firmware_version = raw.firmware_version;
    overall_health = if raw.passed then "PASSED" else "FAILED";
    temperature = raw.temperature;
    power_on_hours = raw.power_on_hours;
    rotational = is_positive raw.rotation_rate;
    smart_failed = not raw.passed;
    io_errors = pos 0;
    reallocated_sectors = pos 0;
    pending_sectors = pos 0;
    uncorrectable_errors = pos 0;
    spin_retry_count = pos 0;
    command_timeout = pos 0;
    nvme_available_spare_percent = pos 0;
    nvme_percent_used = pos 0;
    nvme_media_errors = pos 0;
    health_score = fl.literal 0 0;
  }

  unfoldable pub health_of : String → SmartctlOutput → DiskHealth F
  health_of device_path raw =
      let h = record (add_attributes (initial_health device_path raw) raw.table) {
        nvme_available_spare_percent = raw.available_spare;
        nvme_percent_used = raw.percentage_used;
        nvme_media_errors = add64 raw.media_errors raw.num_err_log_entries;
      } in
      record h { health_score = compute_health_score h }

  unfoldable pub read_health : String → Result SmartctlOutput → Result (DiskHealth F)
  read_health device_path (err x) = err (wrap ("parsing smartctl JSON for " <> device_path) x)
  read_health device_path (ok raw) = ok (health_of device_path raw)

  -- An error of the command counts only if nothing was printed.
  unfoldable pub queried :
      String → Option Error → Bool → Result SmartctlOutput → Result (DiskHealth F)
  queried device_path (some x) true parsed =
      err (wrap ("smartctl failed with no output for " <> device_path) x)
  queried device_path (some x) false parsed = read_health device_path parsed
  queried device_path none empty parsed = read_health device_path parsed

  unfoldable pub query_disk :
      Host F → (String → Result SmartctlOutput) → String → Action F (Result (DiskHealth F))
  query_disk H parse device_path = do
    e ← run H "smartctl" ("-a" ∷ "--json=c" ∷ device_path ∷ [])
    pure (queried device_path e.error (is_empty e.stdout) (parse e.stdout))

unfoldable pub is_smart_available : {F : Type 0} → Host F → Action F Bool
is_smart_available H = look_path H "smartctl"
