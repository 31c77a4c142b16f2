-- ===== src/Node/Loop/Quiet.antt =====
-- The reports and the checks of the node agent (`runDiscovery` and `runSmartChecks` of
-- node-agent/cmd/kubenas-node-agent/main.go) start no operation.
use kube_nas.Base.{
  String, false, Option, none, some, List, [], ◌∷◌, ◌⊎◌, inl, inr, Bool-cases, ◌≡◌, refl, arith,
  ◌∙◌,
}
use kube_nas.Base.Dict.{entry_or_empty, entry_or_empty-set_entry}
use kube_nas.Base.Outcome.{Error, Result, ok, err, Result-cases}
use kube_nas.Base.Float.{Float64}
use kube_nas.Cluster.{ConfigMap, Cluster, Trace, ◌>>=◌}
use kube_nas.Api.Meta.{Key}
use kube_nas.Node.Host.{Host}
use kube_nas.Node.Agent.{Json, NodeAgent, sanitize_key}
use kube_nas.Node.Disk.{
  listed, LsblkOutput, LsblkDevice, Device, is_skipped, device_of, devices_of, discover_devices,
}
use kube_nas.Node.Smart.{query_disk, is_smart_available}
use kube_nas.Node.Discovery.{
  disk_resource, health_of_device, available_on, status_data, upsert_config_map, upsert_disk_crs,
  run_discovery, degraded_devices, run_smart_checks,
}
use kube_nas.Node.Keys.{device_key-differs}
use kube_nas.Node.Starts.{
  Quiet, starts, start_step, scan_calls, is_running, discover_devices-Quiet, query_disk-Quiet,
  get_disk_usage-Quiet, is_smart_available-Quiet,
}

-- What a discovery finds is made of the entries that lsblk printed.
listed-cases :
    (e : Option Error) (r : Result LsblkOutput)
    → ((x : Error) × (listed e r ≡ err x))
      ⊎ ((ls : List LsblkDevice) × (listed e r ≡ ok (devices_of ls)))
unfolding listed
listed-cases (some x) r = inl (_, refl)
listed-cases none (err x) = inl (_, refl)
listed-cases none (ok out) = inr (_, refl)

module _ {F : Type 0} (id : String) (fl : Float64 F) (H : Host F) (json : Json F) where
  health_of_device-Quiet : (d : Device) → Quiet (start_step id) 0 (health_of_device fl H json d)
  unfolding health_of_device
  health_of_device-Quiet d t = elim (Bool-cases (is_smart_available H t).0) [
    | inl e ↦ ground (
      arith,
      e,
      is_smart_available-Quiet (start_step id) 0 H t,
      query_disk-Quiet (start_step id) 0 H fl json.read_smartctl d.device_path
          (is_smart_available H t).1,
    )
    | inr e ↦ ground (arith, e, is_smart_available-Quiet (start_step id) 0 H t)
  ]

  available_on-Quiet : (d : Device) → Quiet (start_step id) 0 (available_on H d)
  unfolding available_on
  available_on-Quiet d t = ground (arith, get_disk_usage-Quiet (start_step id) 0 H d.mount_point t)

  status_data-Quiet :
      (ds : List Device) (found : List (String × String))
      → Quiet (start_step id) 0 (status_data fl H json found ds)
  unfolding status_data
  status_data-Quiet [] found t = refl
  status_data-Quiet (d ∷ ds) found t =
      let t' = (health_of_device fl H json d t).1 in
      status_data-Quiet ds _ _ ∙ available_on-Quiet d t' ∙ health_of_device-Quiet d t

  degraded_devices-Quiet :
      (ds : List Device) → Quiet (start_step id) 0 (degraded_devices fl H json ds)
  unfolding degraded_devices
  degraded_devices-Quiet [] t = refl
  degraded_devices-Quiet (d ∷ ds) t =
      degraded_devices-Quiet ds (query_disk fl H json.read_smartctl d.device_path t).1
      ∙ query_disk-Quiet (start_step id) 0 H fl json.read_smartctl d.device_path t

  pub run_smart_checks-Quiet : Quiet (start_step id) 0 (run_smart_checks fl H json)
  unfolding run_smart_checks
  run_smart_checks-Quiet t =
      let t' = (is_smart_available H t).1 in
      elim (Bool-cases (is_smart_available H t).0) [
        | inl e ↦ elim (Result-cases (discover_devices H json.read_lsblk t').0) [
          | inl (x, e') ↦ ground (
            arith,
            e,
            e',
            is_smart_available-Quiet (start_step id) 0 H t,
            discover_devices-Quiet (start_step id) 0 H json.read_lsblk t',
          )
          | inr (ds, e') ↦ ground (
            arith,
            e,
            e',
            is_smart_available-Quiet (start_step id) 0 H t,
            discover_devices-Quiet (start_step id) 0 H json.read_lsblk t',
            degraded_devices-Quiet ds (discover_devices H json.read_lsblk t').1,
          )
        ]
        | inr e ↦ ground (arith, e, is_smart_available-Quiet (start_step id) 0 H t)
      ]

  -- The texts under the names of devices say nothing of a state.
  status_data-stateless :
      (ds : List LsblkDevice) (found : List (String × String)) (t : Trace F)
      → entry_or_empty found "status.state" ≡ ""
      → entry_or_empty (status_data fl H json found (devices_of ds) t).0 "status.state" ≡ ""
  unfolding status_data devices_of
  status_data-stateless [] found t h = h
  status_data-stateless (d ∷ ds) found t h = elim (Bool-cases (is_skipped d)) [
    | inl e ↦ rw e (status_data-stateless ds found t h)
    | inr e ↦ rw e (
        status_data-stateless ds _ _ (
          entry_or_empty-set_entry found (sanitize_key (device_of d).device_path) _ "status.state"
          ∙ rw (device_key-differs d) h))
  ]

  upsert_disk_crs-Quiet :
      (C : Cluster F) (ds : List Device) → Quiet (start_step id) 0 (upsert_disk_crs C ds)
  unfolding upsert_disk_crs scan_calls
  upsert_disk_crs-Quiet C [] t = refl
  upsert_disk_crs-Quiet C (d ∷ ds) t =
      let key : Key = record { name = (disk_resource d).meta.name; namespace = "" } in
      elim (Result-cases (C.disk_v1 t key)) [
        | inl (x, e) ↦ rw (e, ◌>>=◌) (upsert_disk_crs-Quiet C ds _)
        | inr (present, e) ↦ rw (e, ◌>>=◌) (upsert_disk_crs-Quiet C ds _)
      ]

  is_running-stateless :
      (cm : ConfigMap) → entry_or_empty cm.entries "status.state" ≡ "" → is_running id cm ≡ false
  unfolding is_running
  is_running-stateless cm h = rw h (ground arith)

  upsert_config_map-quiet :
      (C : Cluster F) (a : NodeAgent) (name : String) (entries : List (String × String))
      (t : Trace F)
      → entry_or_empty entries "status.state" ≡ ""
      → starts id (upsert_config_map C a name entries t).1 ≡ starts id t
  unfolding upsert_config_map scan_calls
  upsert_config_map-quiet C a name entries t h =
      let key : Key = record { name = name; namespace = a.namespace } in
      elim (Result-cases (C.config_map t key)) [
        | inl (x, e) ↦ ground (arith, e)
        | inr (cm, e) ↦ ground (arith, e, is_running-stateless (record cm { entries = entries }) h)
      ]

  discover_devices-cases :
      (t : Trace F)
      → ((x : Error) × ((discover_devices H json.read_lsblk t).0 ≡ err x))
        ⊎ ((ls : List LsblkDevice) × ((discover_devices H json.read_lsblk t).0
              ≡ ok (devices_of ls)))
  unfolding discover_devices
  discover_devices-cases t = listed-cases _ _

  pub run_discovery-Quiet :
      (C : Cluster F) (a : NodeAgent) → Quiet (start_step id) 0 (run_discovery fl H json C a)
  unfolding run_discovery discover_devices entry_or_empty scan_calls listed
  run_discovery-Quiet C a t =
      let t' = (discover_devices H json.read_lsblk t).1 in
      let quiet = discover_devices-Quiet (start_step id) 0 H json.read_lsblk t in
      elim (discover_devices-cases t) [
        | inl (x, e) ↦ rw e quiet
        | inr (ls, e) ↦
            rw (e, ◌>>=◌)
              (upsert_disk_crs-Quiet C (devices_of ls) _
                ∙ upsert_config_map-quiet C a _ _ _ (status_data-stateless ls [] t' refl)
                ∙ status_data-Quiet (devices_of ls) [] t'
                ∙ quiet)
      ]
