-- ===== src/Tests/Protocol.antt =====
-- The theorems on the agent client at concrete inputs.
use kube_nas.Base.Dict
use kube_nas.Base.{ℕ, inl, inr, arith, [], ◌∷◌, ◌≡◌, refl, ◌≤◌, length}
use kube_nas.Base.Outcome.{ok}
use kube_nas.Cluster.{Call, Cluster}
use kube_nas.Agent.Laws.{KeepsObjects}
use kube_nas.AgentClient
use kube_nas.AgentClient.Waiting
use kube_nas.AgentClient.Waiting.Ends
use kube_nas.AgentClient.Keeps
use kube_nas.AgentClient.Acknowledged
use kube_nas.Tests.Samples.{thousandths, operation_in, calm_cluster, idle_cluster, mute_codec}

wait_for_operation_state_bounded_example :
    length (AgentClient.wait_for_operation_state idle_cluster "nas" "op" []).1 ≤ 48
wait_for_operation_state_bounded_example =
    Waiting.wait_for_operation_state_bounded idle_cluster "nas" "op" []

kubernetes_agent_client-KeepsObjects_example :
    KeepsObjects (AgentClient.kubernetes_agent_client idle_cluster mute_codec "nas" thousandths)
kubernetes_agent_client-KeepsObjects_example =
    Keeps.kubernetes_agent_client-KeepsObjects idle_cluster mute_codec "nas" thousandths

-- An API in which an operation runs at the first read and has ended at each later one.
abbrev ending_cluster : Cluster ℕ
ending_cluster = record calm_cluster {
  config_map =
      λ t key. elim t [ [] ↦ ok (operation_in "Running") | _ ∷ _ ↦ ok (operation_in "Success") ];
}

wait_for_operation_state-Ends_example :
    AgentClient.wait_for_operation_state ending_cluster "nas" "op" [] ≡ (
      ok (record { operation_id = "op"; state = "Success"; message = "" }),
      Waiting.read_map ending_cluster "nas" "op"
          ∷ Call.sleep 2
          ∷ Waiting.read_map ending_cluster "nas" "op"
          ∷ [],
    )
unfolding Dict.entry_or_empty Dict.entry
wait_for_operation_state-Ends_example =
    Ends.wait_for_operation_state-Ends ending_cluster "nas" "op" 1 23 [] _ _ (omega arith)
      (inr (operation_in "Running", refl, refl, refl), refl, tt)
      (inl (omega arith, Ends.Ends.succeeded (operation_in "Success") refl refl refl refl))
