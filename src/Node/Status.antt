-- ===== src/Node/Status.antt =====
-- What the node agent reports of its disks (`runDiscovery`) and what the operator reads of it
-- (GetDiskStatus of controllers/kubernetes_agent_client.go).
use kube_nas.Base.{String, ◌<>◌, false, some, List, [], ◌∷◌, ◌≡◌, refl, ◌∙◌, str_eq, eq_iff}
use kube_nas.Base.Float.{Float64}
use kube_nas.Base.Dict.{entry, entry-set_entry}
use kube_nas.Base.Outcome.{ok}
use kube_nas.Cluster.{ConfigMap, Cluster, Trace, ◌>>=◌}
use kube_nas.AgentClient.{Codec, get_disk_status}
use kube_nas.Node.Host.{Host}
use kube_nas.Node.Agent.{Json, AgentDiskStatus, sanitize_key}
use kube_nas.Node.Disk.{Device}
use kube_nas.Node.Discovery.{status_data, health_of_device, available_on, encoded, status_of_device}
use kube_nas.Node.Keys.{sanitize_key-sanitize_device_path}

-- No device of the list is reported under the key.
abbrev pub Others : String → List Device → Type 0
Others key [] = Unit
Others key (d ∷ ds) = (str_eq (sanitize_key d.device_path) key ≡ false) × Others key ds

module _ {F : Type 0} (fl : Float64 F) (H : Host F) (json : Json F) where
  -- What is measured of a device when its turn comes.
  abbrev pub measured : Device → Trace F → AgentDiskStatus F
  measured d t =
      let (health, t') = health_of_device fl H json d t in
      status_of_device d health (available_on H d t').0

  -- The entry of a device stays while the devices after it, which have other keys, are reported.
  entry-status_data-Others :
      (ds : List Device) (key : String) (found : List (String × String)) (t : Trace F)
      → Others key ds
      → entry (status_data fl H json found ds t).0 key ≡ entry found key
  unfolding status_data
  entry-status_data-Others [] key found t h = refl
  entry-status_data-Others (d ∷ ds) key found t (differs, h) =
      entry-status_data-Others ds key _ _ h
      ∙ entry-set_entry found (sanitize_key d.device_path) _ key
      ∙ rw differs refl

  entry-status_data :
      (d : Device) (ds : List Device) (found : List (String × String)) (t : Trace F)
      → Others (sanitize_key d.device_path) ds
      → entry (status_data fl H json found (d ∷ ds) t).0 (sanitize_key d.device_path)
        ≡ some (encoded json (measured d t))
  unfolding status_data
  entry-status_data d ds found t h =
      entry-status_data-Others ds (sanitize_key d.device_path) _ _ h
      ∙ entry-set_entry found (sanitize_key d.device_path) _ (sanitize_key d.device_path)
      ∙ rw ((eq_iff (sanitize_key d.device_path) (sanitize_key d.device_path)).1 refl) refl

  -- Where the ConfigMap that the operator reads has the entries of a discovery, what it takes for the
  -- status of a device, under whose key no later device was reported, is what it reads of the text that
  -- the agent made of its measurements of this device.
  pub get_disk_status-status_data :
      (C : Cluster F) (codec : Codec F) (namespace node : String) (d : Device) (ds : List Device)
      (found : List (String × String)) (cm : ConfigMap) (t t' : Trace F)
      → Others (sanitize_key d.device_path) ds
      → cm.entries ≡ (status_data fl H json found (d ∷ ds) t).0
      → C.config_map t' (record { name = "kubenas-diskstatus-" <> node; namespace = namespace })
        ≡ ok cm
      → (get_disk_status C codec namespace fl node d.device_path t').0
        ≡ codec.read_status (encoded json (measured d t))
  unfolding get_disk_status
  get_disk_status-status_data C codec namespace node d ds found cm t t' h same read =
      rw
        (
          read,
          ◌>>=◌,
          same,
          ← sanitize_key-sanitize_device_path d.device_path,
          entry-status_data d ds found t h,
        )
        refl
