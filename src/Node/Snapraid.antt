-- ===== src/Node/Snapraid.antt =====
-- node-agent/snapraid/snapraid.go: the commands of SnapRAID without their results.
use kube_nas.Base.{String, Option, none, some}
use kube_nas.Base.Int.{pos}
use kube_nas.Base.Outcome.{Error, Result, ok, err}
use kube_nas.Cluster.{Cluster, Action, pure, ◌>>=◌}
use kube_nas.Node.Host.{Host}
use kube_nas.Node.Parity

module _ {F : Type 0} (C : Cluster F) (H : Host F) where
  unfoldable pub sync : String → Action F (Option Error)
  sync config_path = do (r, e) ← Parity.sync C H config_path; pure e

  unfoldable pub scrub : String → Action F (Option Error)
  scrub config_path = do (r, e) ← Parity.scrub C H config_path (pos 100); pure e

  unfoldable pub fix : String → String → Action F (Option Error)
  fix config_path disk_label = do (r, e) ← Parity.fix C H config_path disk_label; pure e

  unfoldable pub status : String → Action F (Result String)
  status config_path = do
    (r, e) ← Parity.status C H config_path
    pure (elim e [ some x ↦ err x | none ↦ ok r.stdout ])
