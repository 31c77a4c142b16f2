-- ===== src/Node/Starts.antt =====
-- The writes of ConfigMaps in the calls of a node agent, and among them the starts of an operation:
-- those with the state Running. What the agent asks of its host is none.
use kube_nas.Base.{
  ◌≤◌, Option, ℕ, suc, String, Bool, false, ◌&&◌, List, [], ◌∷◌, ◌∙◌, Option-cases, none, some,
  true, inl, inr, Bool-cases, ◌≡◌, refl, arith, str_eq, ◌∙◌, if◌then◌else◌,
}
use kube_nas.Base.Dict.{entry_or_empty}
use kube_nas.Base.Outcome.{Error, err, ok, Result}
use kube_nas.Base.Float.{Float64}
use kube_nas.Cluster.Host.{HostCall}
use kube_nas.Cluster.{ConfigMap, Object, Call, Trace, Action, ◌>>=◌}
use kube_nas.Node.Host.{Host, make_dirs}
use kube_nas.Node.Disk.{
  run_or_fail, LsblkOutput, discover_devices, is_mounted, mount_device, unmount_device,
  get_disk_usage, mount_mergerfs, add_fstab_entry, ensure_fstab_entry,
}
use kube_nas.Node.Agent.{Json, MountRequest}
use kube_nas.Node.Operations.{perform_mount, perform, with_payload}
use kube_nas.Node.Smart.{SmartctlOutput, query_disk, is_smart_available}
use kube_nas.Node.Operations.{operation_id}

-- Whether a ConfigMap has the state Running and belongs to the operation.
unfoldable pub is_running : String → ConfigMap → Bool
is_running id cm =
    str_eq (operation_id cm) id && str_eq (entry_or_empty cm.entries "status.state") "Running"

-- The ConfigMap that a call updates.
abbrev pub map_of : {F : Type 0} → Call F → Option ConfigMap
map_of (Call.update (Object.config_map cm)) = some cm
map_of _ = none

abbrev is_host : {F : Type 0} → Call F → Bool
is_host (Call.host c) = true
is_host _ = false

-- What the calls add up to, the oldest first, but for what is asked of the host. A step may look at the
-- calls before its own.
unfoldable pub scan_calls : {F A : Type 0} → (Trace F → Call F → A → A) → A → Trace F → A
scan_calls step start [] = start
scan_calls step start (c ∷ t) =
    let rest = scan_calls step start t in if is_host c then rest else step t c rest

abbrev pub tally_step : {F : Type 0} → (Trace F → ConfigMap → Bool) → Trace F → Call F → ℕ → ℕ
tally_step passes t c n = elim (map_of c) [ none ↦ n | some cm ↦ if passes t cm then suc n else n ]

-- How many updates of ConfigMaps pass a test, which may look at the calls before.
abbrev pub tally : {F : Type 0} → (Trace F → ConfigMap → Bool) → Trace F → ℕ
tally passes = scan_calls (tally_step passes) 0

pub tally_mono :
    {F : Type 0} (p q : Trace F → ConfigMap → Bool)
    → ((t : Trace F) (cm : ConfigMap) → p t cm ≡ true → q t cm ≡ true)
    → (t : Trace F) → tally p t ≤ tally q t
unfolding scan_calls
tally_mono p q h [] = omega arith
tally_mono p q h (c ∷ t) = elim (Bool-cases (is_host c)) [
  | inl own ↦ ground (arith, own, tally_mono p q h t)
  | inr other ↦ elim (Option-cases (map_of c)) [
    | inl e ↦ ground (arith, other, e, tally_mono p q h t)
    | inr (cm, e) ↦ ground (arith, other, e, h t cm, tally_mono p q h t)
  ]
]

abbrev pub start_step : {F : Type 0} → String → Trace F → Call F → ℕ → ℕ
start_step id = tally_step (λ t cm. is_running id cm)

abbrev pub starts : {F : Type 0} → String → Trace F → ℕ
starts id = tally (λ t cm. is_running id cm)

module _ {F S : Type 0} (step : Trace F → Call F → S → S) (start : S) where
  -- An action whose calls add nothing.
  abbrev pub Quiet : {A : Type 0} → Action F A → Type 0
  Quiet m = (t : Trace F) → scan_calls step start (m t).1 ≡ scan_calls step start t

  pub >>=-Quiet :
      {A B : Type 0} (m : Action F A) (k : A → Action F B)
      → Quiet m
      → ((a : A) → Quiet (k a))
      → Quiet (m >>= k)
  >>=-Quiet m k hm hk t = hk (m t).0 (m t).1 ∙ hm t

  module _ (H : Host F) where
    run_or_fail-Quiet :
        (name : String) (args : List String) (prefix : String)
        → Quiet (run_or_fail H name args prefix)
    unfolding scan_calls
    run_or_fail-Quiet name args prefix t = refl

    make_dirs-Quiet : (path : String) → Quiet (make_dirs H path)
    unfolding scan_calls
    make_dirs-Quiet path t = refl

    pub discover_devices-Quiet :
        (parse : String → Result LsblkOutput) → Quiet (discover_devices H parse)
    unfolding discover_devices scan_calls
    discover_devices-Quiet parse t = refl

    pub is_mounted-Quiet : (path : String) → Quiet (is_mounted H path)
    unfolding is_mounted scan_calls
    is_mounted-Quiet path t = ground arith

    pub mount_device-Quiet : (device path fs : String) → Quiet (mount_device H device path fs)
    unfolding mount_device scan_calls
    mount_device-Quiet device path fs t =
        let t' = Call.host (HostCall.make_dirs path) ∷ t in
        elim (Bool-cases (is_mounted H path t').0) [
          | inl e ↦ ground (arith, e, is_mounted-Quiet path t')
          | inr e ↦ ground (arith, e, is_mounted-Quiet path t')
        ]

    pub unmount_device-Quiet : (path : String) → Quiet (unmount_device H path)
    unfolding unmount_device scan_calls
    unmount_device-Quiet path t = elim (Bool-cases (is_mounted H path t).0) [
      | inl e ↦ ground (arith, e, is_mounted-Quiet path t)
      | inr e ↦ rw (e, ◌>>=◌) (is_mounted-Quiet path t)
    ]

    pub mount_mergerfs-Quiet :
        (branches : List String) (path create free extra : String)
        → Quiet (mount_mergerfs H branches path create free extra)
    unfolding mount_mergerfs scan_calls
    mount_mergerfs-Quiet branches path create free extra t =
        let t' = Call.host (HostCall.make_dirs path) ∷ t in
        elim (Bool-cases (is_mounted H path t').0) [
          | inl e ↦ ground (
            arith,
            e,
            is_mounted-Quiet path t',
            unmount_device-Quiet path (is_mounted H path t').1,
          )
          | inr e ↦ ground (arith, e, is_mounted-Quiet path t')
        ]

    pub ensure_fstab_entry-Quiet :
        (device path fs options : String) → Quiet (ensure_fstab_entry H device path fs options)
    unfolding ensure_fstab_entry add_fstab_entry scan_calls
    ensure_fstab_entry-Quiet device path fs options t = ground arith

    pub get_disk_usage-Quiet : (path : String) → Quiet (get_disk_usage H path)
    unfolding get_disk_usage scan_calls
    get_disk_usage-Quiet path t = refl

    pub is_smart_available-Quiet : Quiet (is_smart_available H)
    unfolding is_smart_available scan_calls
    is_smart_available-Quiet t = refl

    pub query_disk-Quiet :
        (fl : Float64 F) (parse : String → Result SmartctlOutput) (path : String)
        → Quiet (query_disk fl H parse path)
    unfolding query_disk scan_calls
    query_disk-Quiet fl parse path t = refl

    perform_mount-Quiet : (q : MountRequest) → Quiet (perform_mount H q)
    unfolding perform_mount
    perform_mount-Quiet q t =
        elim (Option-cases (mount_device H q.device_path q.mount_point q.filesystem t).0) [
          | inl e ↦
              rw (e, ◌>>=◌)
                (ensure_fstab_entry-Quiet q.device_path q.mount_point q.filesystem "defaults" _
                  ∙ mount_device-Quiet _ _ _ t)
          | inr (x, e) ↦ rw (e, ◌>>=◌) (mount_device-Quiet _ _ _ t)
        ]

    with_payload-Quiet :
        {A : Type 0} (r : Result A) (act : A → Action F (Option Error))
        → ((a : A) → Quiet (act a))
        → Quiet (with_payload r act)
    with_payload-Quiet (err x) act h t = refl
    with_payload-Quiet (ok a) act h t = h a t

    pub perform-Quiet :
        (json : Json F) (op_type payload : String) → Quiet (perform H json op_type payload)
    unfolding perform
    perform-Quiet json op_type payload t = ground (
      arith,
      with_payload-Quiet (json.read_mount payload) (perform_mount H) perform_mount-Quiet t,
      with_payload-Quiet (json.read_unmount payload) (λ q. unmount_device H q.mount_point)
          (λ q. unmount_device-Quiet q.mount_point) t,
      with_payload-Quiet (json.read_mergerfs payload)
          (λ q.
            mount_mergerfs H q.branches q.mount_point q.category_create q.min_free_space
              q.extra_options)
          (λ q.
            mount_mergerfs-Quiet q.branches q.mount_point q.category_create q.min_free_space
              q.extra_options)
          t,
    )
