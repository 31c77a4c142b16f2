-- ===== src/AgentClient/Snapraid.antt =====
-- `renderSnapraidConf` of controllers/kubernetes_agent_client.go.
pub mod Lines
use kube_nas.Base.{String, ◌<>◌, List, [], ◌∷◌, ◌==◌, if◌then◌else◌}
use kube_nas.Base.Text.{decimal}
use kube_nas.Agent.{SnapraidConfig, SnapraidParityEntry, SnapraidDataEntry}

unfoldable pub parity_line : SnapraidParityEntry → String
parity_line p =
    (if p.index == 1 then "parity " else decimal p.index <> "-parity ")
    <> (p.mount_point <> "/snapraid.parity\n")

unfoldable pub data_line : SnapraidDataEntry → String
data_line d = "data " <> (d.label <> (" " <> (d.mount_point <> "\n")))

unfoldable pub content_line : String → String
content_line file = "content " <> (file <> "\n")

unfoldable pub exclude_line : String → String
exclude_line pattern = "exclude " <> (pattern <> "\n")

-- A loop that appends a line for each entry.
unfoldable pub append_lines {ℓ} : {A : Type ℓ} → (A → String) → String → List A → String
append_lines line conf [] = conf
append_lines line conf (a ∷ rest) = append_lines line (conf <> line a) rest

unfoldable pub render_snapraid_conf : SnapraidConfig → String
unfolding append_lines parity_line data_line content_line exclude_line
render_snapraid_conf cfg =
    let conf₁ = append_lines parity_line "# Generated by KubeNAS Operator\n\n" cfg.parity_entries in
    let conf₂ = append_lines content_line (conf₁ <> "\n") cfg.content_files in
    let conf₃ = append_lines data_line (conf₂ <> "\n") cfg.data_entries in
    append_lines exclude_line (conf₃ <> "\n") cfg.exclude_patterns
