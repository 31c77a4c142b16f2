-- ===== src/Node/Smart/Score.antt =====
-- The range of the health score (ComputeHealthScore of node-agent/pkg/smart/smart.go).
use kube_nas.Base.{String, Bool, true, Option, none, some, false, ◌≡◌, ◌⊎◌, inl, inr, subst}
use kube_nas.Base.Float.{Float64}
use kube_nas.Base.Outcome.{Error, Result, ok, err}
use kube_nas.Cluster.{Trace}
use kube_nas.Node.Host.{Host}
use kube_nas.Node.Smart.{
  read_health, queried, DiskHealth, SmartctlOutput, compute_health_score, health_of, query_disk,
}

-- What Go's documentation says of `math.Min` and `math.Max`, where a comparison with NaN is false, and
-- the order of the two constants.
pub record MinMax {F : Type 0} (fl : Float64 F) : Type 0 where
  pub min_at_most : (a b : F) → fl.lt a (fl.min a b) ≡ false
  pub max_at_least : (a b : F) → fl.lt (fl.max a b) a ≡ false
  pub max_cases : (a b : F) → (fl.max a b ≡ a) ⊎ (fl.max a b ≡ b)
  pub zero_one : fl.lt (fl.literal 1 0) (fl.literal 0 0) ≡ false

-- A number that is neither below 0 nor above 1.
abbrev pub InUnit : {F : Type 0} → Float64 F → F → Type 0
InUnit fl x = (fl.lt x (fl.literal 0 0) ≡ false) × (fl.lt (fl.literal 1 0) x ≡ false)

module _ {F : Type 0} (fl : Float64 F) (laws : MinMax fl) where
  clamp-InUnit : (x : F) → InUnit fl (fl.max (fl.literal 0 0) (fl.min (fl.literal 1 0) x))
  clamp-InUnit x =
      let clamped = fl.min (fl.literal 1 0) x in
      (
        laws.max_at_least (fl.literal 0 0) clamped,
        elim (laws.max_cases (fl.literal 0 0) clamped) [
          | inl e ↦ rw e laws.zero_one
          | inr e ↦ rw e (laws.min_at_most (fl.literal 1 0) x)
        ],
      )

  compute_health_score-InUnit : (h : DiskHealth F) → InUnit fl (compute_health_score fl h)
  unfolding compute_health_score
  compute_health_score-InUnit h = clamp-InUnit _

  health_of-InUnit :
      (path : String) (raw : SmartctlOutput) → InUnit fl (health_of fl path raw).health_score
  unfolding health_of
  health_of-InUnit path raw = compute_health_score-InUnit _

  -- The statement on a result, where there is a health.
  abbrev Scored : Result (DiskHealth F) → Type 0
  Scored (ok h) = InUnit fl h.health_score
  Scored (err x) = Unit

  read_health-Scored : (path : String) (r : Result SmartctlOutput) → Scored (read_health fl path r)
  unfolding read_health
  read_health-Scored path (ok raw) = health_of-InUnit path raw
  read_health-Scored path (err x) = tt

  queried-Scored :
      (path : String) (e : Option Error) (empty : Bool) (r : Result SmartctlOutput)
      → Scored (queried fl path e empty r)
  unfolding queried
  queried-Scored path (some x) true r = tt
  queried-Scored path (some x) false r = read_health-Scored path r
  queried-Scored path none empty r = read_health-Scored path r

  -- Every health that a query of a disk returns has a score that is neither below 0 nor above 1.
  pub query_disk-InUnit :
      (H : Host F) (parse : String → Result SmartctlOutput) (path : String) (h : DiskHealth F)
      (t : Trace F)
      → (query_disk fl H parse path t).0 ≡ ok h
      → InUnit fl h.health_score
  unfolding query_disk
  query_disk-InUnit H parse path h t e = subst Scored e (queried-Scored _ _ _ _)
