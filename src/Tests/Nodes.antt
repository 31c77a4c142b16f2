-- ===== src/Tests/Nodes.antt =====
-- The theorems on the node agent and on the controllers of api/v1 at concrete inputs.
use kube_nas.Base.{String, arith, ◌<>◌, ℕ, ◌≤◌, true, false, none, some, [], ◌∷◌, ◌≡◌, refl, ◌⊎◌}
use kube_nas.Base.Dict
use kube_nas.Base.Fields
use kube_nas.Base.Int
use kube_nas.Base.Int.{pos}
use kube_nas.Node.Parity
use kube_nas.Node.Parity.Counts
use kube_nas.Node.Parity.Scrub
use kube_nas.Base.ParseInt
use kube_nas.Base.Fields.Split as Lines
use kube_nas.Base.Text
use kube_nas.Base.Outcome.{Error, ok}
use kube_nas.Cluster.{Trace, ConfigMap, Call, Object}
use kube_nas.AgentClient
use kube_nas.Controllers.Failure.{new_meta}
use kube_nas.Node.Host.{Host}
use kube_nas.Node.Disk
use kube_nas.Node.Agent.{NodeAgent}
use kube_nas.Node.Discovery
use kube_nas.Node.Operations
use kube_nas.Node.Operations.Outcome
use kube_nas.Node.Operations.Conflict
use kube_nas.Node.Loop
use kube_nas.Node.Loop.Once
use kube_nas.Node.Starts.{starts, scan_calls}
use kube_nas.Node.Protocol
use kube_nas.Node.Protocol.Requests
use kube_nas.Node.Protocol.Parity as Unknown
use kube_nas.Node.Status
use kube_nas.Node.Sizes
use kube_nas.Node.Smart
use kube_nas.Node.Smart.Score
use kube_nas.Node.Disk.Once as FstabOnce
use kube_nas.Cluster.Host.{HostCall}
use kube_nas.Tests.Hosts.{
  calm_host, listed_device, one_mount, constant_json, new_node, posted_name, posted, answering,
  serving_cluster, serving_cluster-Serves, versioned_cluster, versioned_cluster-Versioned,
  failed_output, thousandths-MinMax,
}
use kube_nas.Tests.Samples.{
  thousandths, one_request, calm_cluster, cluster_with, mute_codec, healthy_status, idle_cluster,
}

run_agent-once_example :
    starts posted_name
      (Loop.run_agent thousandths calm_host constant_json
        (answering "mount")
        new_node
        (Loop.Event.operations_tick ∷ Loop.Event.smart_tick ∷ Loop.Event.operations_tick ∷ [])
        []).1
    ≤ 1
unfolding Once.left Operations.has_seen scan_calls
run_agent-once_example =
    Once.run_agent-once posted_name thousandths calm_host constant_json (answering "mount") new_node
      (Loop.Event.operations_tick ∷ Loop.Event.smart_tick ∷ Loop.Event.operations_tick ∷ []) []

execute_operation_lem_example :
    ((Operations.has_seen [] posted_name ≡ true)
      × (Operations.execute_operation calm_host constant_json
            (answering "mount")
            new_node
            (posted "mount")
            []
          ≡ (some new_node, [])))
    ⊎ ((Operations.has_seen [] posted_name ≡ false)
        × (((AgentClient.operation_map "nas" posted_name "node-a" "mount" "").entries ≡ [])
              × (Operations.execute_operation calm_host constant_json
                    (answering "mount")
                    new_node
                    (posted "mount")
                    []
                  ≡ (none, []))
            ⊎ ((a' : NodeAgent) × (t' : Trace ℕ) × (Operations.execute_operation calm_host
                    constant_json
                    (answering "mount")
                    new_node
                    (posted "mount")
                    []
                  ≡ (some a', t'))
                × Outcome.Answered calm_host constant_json
                    (answering "mount")
                    (posted "mount")
                    []
                    a'
                    t')))
unfolding Operations.operation_id Dict.entry_or_empty Dict.entry AgentClient.operation_map
    Text.is_empty
execute_operation_lem_example =
    Outcome.execute_operation_lem calm_host constant_json (answering "mount") new_node
      (posted "mount") []

wait_rounds-execute_operation_example :
    Protocol.TimesOut serving_cluster mute_codec "nas" calm_host constant_json new_node "7" "node-a"
      "mount" ""
      (AgentClient.Payload.mount one_mount)
      1
      []
unfolding Operations.has_seen AgentClient.operation_map Operations.running scan_calls Text.is_empty
wait_rounds-execute_operation_example =
    Protocol.wait_rounds-execute_operation serving_cluster mute_codec "nas" calm_host constant_json
      new_node "7" "node-a" "mount" "" (AgentClient.Payload.mount one_mount) 1 []
      versioned_cluster-Versioned serving_cluster-Serves (λ t'. refl) refl refl refl refl refl

execute_operation-Carries_example :
    Requests.Carries calm_cluster mute_codec "nas" calm_host constant_json new_node "7" "node-a" ""
      (Requests.Request.pool one_request)
      []
      []
unfolding Operations.has_seen
execute_operation-Carries_example =
    Requests.execute_operation-Carries calm_cluster mute_codec "nas" calm_host constant_json
      new_node "7" "node-a" "" (Requests.Request.pool one_request) [] [] refl refl refl refl

run_parity_operation-unknown_example :
    Unknown.FailsUnknown calm_cluster mute_codec "nas" calm_host constant_json new_node "7" "node-a"
      "sync" "" [] []
unfolding Operations.has_seen
run_parity_operation-unknown_example =
    Unknown.run_parity_operation-unknown calm_cluster mute_codec "nas" calm_host constant_json
      new_node "7" "node-a" "sync" "" [] [] refl refl refl

abbrev one_device : Disk.Device
one_device = Disk.device_of listed_device

-- An API that holds the report on one device, and a reader of reports.
abbrev reported_map : ConfigMap
reported_map = record {
  meta = new_meta "kubenas-diskstatus-node-a" "nas";
  entries = (Discovery.status_data thousandths calm_host constant_json [] (one_device ∷ []) []).0;
}

abbrev reading_codec : AgentClient.Codec ℕ
reading_codec = record mute_codec {
  read_status = λ s. ok (record healthy_status { device_path = s });
}

get_disk_status-status_data_example :
    (AgentClient.get_disk_status
      (cluster_with reported_map)
      reading_codec
      "nas"
      thousandths
      "node-a"
      one_device.device_path
      []).0
    ≡ ok (record healthy_status { device_path = "/dev/sda" })
unfolding Discovery.encoded Discovery.status_of_device Disk.device_of
get_disk_status-status_data_example =
    Status.get_disk_status-status_data thousandths calm_host constant_json
      (cluster_with reported_map) reading_codec "nas" "node-a" one_device [] [] reported_map [] []
      tt refl refl

abbrev listed_map : ConfigMap
listed_map = record (posted "unmount") {
  meta = record (new_meta posted_name "nas") { resource_version = "7" };
}

execute_operation-refused_example :
    (a' : NodeAgent) × (last : ConfigMap) × (t' : Trace ℕ) × (Operations.execute_operation calm_host
        constant_json versioned_cluster new_node listed_map []
      ≡ (some a', Call.update (Object.config_map last) ∷ t'))
    × (Operations.has_seen a'.processed_operations (Operations.operation_id listed_map) ≡ true)
    × ((x : Error) × (versioned_cluster.respond t' (Call.update (Object.config_map last)) ≡ some x))
unfolding Operations.has_seen AgentClient.operation_map Text.is_empty Operations.running scan_calls
execute_operation-refused_example =
    Conflict.execute_operation-refused calm_host constant_json versioned_cluster new_node listed_map
      [] _ _ versioned_cluster-Versioned refl refl refl refl

query_disk-InUnit_example :
    Score.InUnit thousandths (Smart.health_of thousandths "/dev/sda" failed_output).health_score
unfolding Smart.query_disk Smart.queried Smart.read_health
query_disk-InUnit_example =
    Score.query_disk-InUnit thousandths thousandths-MinMax calm_host (λ s. ok failed_output)
      "/dev/sda" (Smart.health_of thousandths "/dev/sda" failed_output) [] refl

-- A host on which /etc/fstab has the entry of a device.
abbrev mounted_host : Host ℕ
mounted_host = record calm_host {
  contents = λ t path. ok ("# fstab\n" <> Disk.fstab_entry "/dev/sda" "/mnt/a" "xfs" "defaults");
}

ensure_fstab_entry-once_example :
    Disk.ensure_fstab_entry mounted_host "/dev/sda" "/mnt/b" "ext4" "ro" []
    ≡ (none, Call.host (HostCall.read "/etc/fstab") ∷ [])
ensure_fstab_entry-once_example =
    FstabOnce.ensure_fstab_entry-once mounted_host "/dev/sda" "/mnt/a" "xfs" "defaults" "# fstab\n"
      "/mnt/b" "ext4" "ro" [] refl

error_count_test :
    Parity.parse_error_count "Scrubbing\nFound 3 errors\nfound 2 error\nFound no errors" ≡ pos 5
unfolding Parity.parse_error_count Parity.count_lines Parity.found_in Parity.scan_found Parity.after
    Parity.after_spaces Parity.skip_spaces Parity.number_then Parity.digits_then Parity.signed
    Fields.is_space Text.contains Text.lower Fields.split_lines Fields.split_onto Int.wrap64
    Int.◌+ℤ◌
error_count_test = refl

parse_error_count-total_example :
    Parity.parse_error_count "found 2 errors\nno errors here\nfound 40 errors" ≡ pos 42
unfolding Counts.found_line Lines.lacks Text.join Text.contains Text.decimal Text.lower
parse_error_count-total_example =
    Counts.parse_error_count-total (Counts.OutputLine.found 2)
      (Counts.OutputLine.other "no errors here" ∷ Counts.OutputLine.found 40 ∷ [])
      (tt, ((refl, refl), (tt, tt))) (omega arith)

scrub-IsPercentOf_example :
    (path : String) × (text : String) × ((Parity.scrub idle_cluster calm_host "" (pos 250) []).1
      ≡ Call.now
        ∷ Call.host (HostCall.run "snapraid" ("-c" ∷ path ∷ "scrub" ∷ "-p" ∷ text ∷ []))
        ∷ Call.now
        ∷ [])
    × Scrub.IsPercentOf (pos 250) (ParseInt.parse_int text)
scrub-IsPercentOf_example = Scrub.scrub-IsPercentOf idle_cluster calm_host "" (pos 250) []
