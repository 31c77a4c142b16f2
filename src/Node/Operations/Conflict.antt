-- ===== src/Node/Operations/Conflict.antt =====
-- The two writes of an operation's ConfigMap by `executeOperation` of
-- node-agent/cmd/kubenas-node-agent/main.go, at an API with optimistic concurrency.
use kube_nas.Base.{
  ◌≤◌, String, Bool, true, false, ◌&&◌, Option, none, some, List, ◌∷◌, ◌≡◌, sym, ap, ◌∙◌, arith,
  str_eq, eq_iff, subst,
}
use kube_nas.Base.Dict.{entry_or_empty}
use kube_nas.Base.Text.{is_empty}
use kube_nas.Base.Outcome.{Error}
use kube_nas.Api.Meta.{ObjectMeta}
use kube_nas.Cluster.{ConfigMap, Object, Call, Cluster, Trace}
use kube_nas.Node.Host.{Host}
use kube_nas.Node.Agent.{Json, NodeAgent}
use kube_nas.Node.Operations.{
  has_seen, operation_id, running, ended, execute_new, execute_operation,
}
use kube_nas.Node.Operations.Outcome.{performed, execute_operation-new, meta-ended-running}
use kube_nas.Node.Starts.{tally, tally_step, scan_calls, perform-Quiet}

-- Whether a ConfigMap has the name, the namespace and the resource version.
unfoldable pub same_version : ObjectMeta → ConfigMap → Bool
same_version m cm =
    str_eq cm.meta.name m.name
    && (str_eq cm.meta.namespace m.namespace && str_eq cm.meta.resource_version m.resource_version)

abbrev pub is_none : Option Error → Bool
is_none none = true
is_none (some x) = false

-- Whether the API took the write of a ConfigMap with this version.
abbrev pub took : {F : Type 0} → Cluster F → ObjectMeta → Trace F → ConfigMap → Bool
took C m t cm = same_version m cm && is_none (C.respond t (Call.update (Object.config_map cm)))

-- What the Kubernetes API promises of updates: when one that carries a resource version was taken, each
-- later one of this object with the same version is refused, since the object has a new one.
abbrev pub Versioned : {F : Type 0} → Cluster F → Type 0
Versioned {F} C =
    (t : Trace F) (cm : ConfigMap)
    → is_empty cm.meta.resource_version ≡ false
    → 1 ≤ tally (took C cm.meta) t
    → (x : Error) × (C.respond t (Call.update (Object.config_map cm)) ≡ some x)

same_version_refl : (cm : ConfigMap) → same_version cm.meta cm ≡ true
unfolding same_version
same_version_refl cm = ground (
  arith,
  eq_iff cm.meta.name cm.meta.name,
  eq_iff cm.meta.namespace cm.meta.namespace,
  eq_iff cm.meta.resource_version cm.meta.resource_version,
)

module _ {F : Type 0} (H : Host F) (json : Json F) (C : Cluster F) where
  took-running :
      (cm : ConfigMap) (t : Trace F)
      → C.respond t (Call.update (Object.config_map (running cm))) ≡ none
      → took C (running cm).meta t (running cm) ≡ true
  took-running cm t h = ground (arith, h, same_version_refl (running cm))

  performed-tally :
      (cm : ConfigMap) (t : Trace F)
      → C.respond t (Call.update (Object.config_map (running cm))) ≡ none
      → 1 ≤ tally (took C (running cm).meta) (Call.now ∷ (performed H json cm t).1)
  unfolding scan_calls
  performed-tally cm t h = ground (
    arith,
    took-running cm t h,
    perform-Quiet (tally_step (took C (running cm).meta)) 0 H json
        (entry_or_empty cm.entries "operation") (entry_or_empty (running cm).entries "payload")
        (Call.update (Object.config_map (running cm)) ∷ t),
  )

  -- The write of the result is refused.
  pub ended-refused :
      (cm : ConfigMap) (t : Trace F)
      → Versioned C
      → is_empty cm.meta.resource_version ≡ false
      → C.respond t (Call.update (Object.config_map (running cm))) ≡ none
      → let (r, t₂) = performed H json cm t in
        (x : Error) × (C.respond
            (Call.now ∷ t₂)
            (Call.update (Object.config_map (ended r (running cm))))
          ≡ some x)
  unfolding running
  ended-refused cm t promise version first =
      let (r, t₂) = performed H json cm t in
      let last = ended r (running cm) in
      let same : last.meta ≡ cm.meta = meta-ended-running r cm in
      promise (Call.now ∷ t₂) last (ap (λ m. is_empty m.resource_version) same ∙ version) (
        subst (λ (m : ObjectMeta). 1 ≤ tally (took C m) (Call.now ∷ t₂)) (sym same)
          (performed-tally cm t first))

  -- At an API that keeps this promise, an operation that is new to the agent, and whose ConfigMap was
  -- listed with a resource version, ends with a write that is refused, if the write of the state
  -- Running was taken: its result is not stored, and yet the operation counts as processed.
  pub execute_operation-refused :
      (a : NodeAgent) (cm : ConfigMap) (t : Trace F) (e : String × String)
      (es : List (String × String))
      → Versioned C
      → has_seen a.processed_operations (operation_id cm) ≡ false
      → cm.entries ≡ e ∷ es
      → is_empty cm.meta.resource_version ≡ false
      → C.respond t (Call.update (Object.config_map (running cm))) ≡ none
      → (a' : NodeAgent) × (last : ConfigMap) × (t' : Trace F) × (execute_operation H json C a cm t
          ≡ (some a', Call.update (Object.config_map last) ∷ t'))
        × (has_seen a'.processed_operations (operation_id cm) ≡ true)
        × ((x : Error) × (C.respond t' (Call.update (Object.config_map last)) ≡ some x))
  unfolding execute_new running has_seen
  execute_operation-refused a cm t e es promise new full version first =
      let (r, t₂) = performed H json cm t in
      (
        (execute_new H json C a cm t).0,
        ended r (running cm),
        Call.now ∷ t₂,
        execute_operation-new H json C a cm t e es new full,
        ground (arith, eq_iff (operation_id cm) (operation_id cm)),
        ended-refused cm t promise version first,
      )
