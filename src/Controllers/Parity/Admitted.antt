-- ===== src/Controllers/Parity/Admitted.antt =====
-- The parity controller on an Array that the webhook admitted (api/v1alpha1/array_webhook.go).
use kube_nas.Base.{String, none, List, [], ◌∷◌, ◌≡◌, refl, arith, inl, inr}
use kube_nas.Base.Outcome.{Result, ok, err, Result-cases}
use kube_nas.Api.Meta.{Key}
use kube_nas.Api.Disk.{Disk}
use kube_nas.Api.Array.{Array}
use kube_nas.Api.Parity.{ParitySchedule}
use kube_nas.Api.Webhook.{validate_array}
use kube_nas.Cluster.{Kind, Call, Cluster, Trace}
use kube_nas.Controllers.Parity.{config_name_of, primary_config_name, resolve_snapraid_config_name}

module _ {F : Type 0} (C : Cluster F) where
  abbrev pub array_key : ParitySchedule → Key
  array_key ps = record { name = ps.spec.array_ref; namespace = ps.meta.namespace }

  -- The name that the answer to the read of the primary disk gives.
  abbrev pub of_primary : Result (Disk F) → Result String
  of_primary (err x) = err x
  of_primary (ok d) = config_name_of C d

  -- For an Array that the webhook admits, the configuration's name depends only on the read of the
  -- first data disk, which the Array has: the error that there are no data disks does not arise.
  pub resolve_snapraid_config_name_admitted :
      (ps : ParitySchedule) (a : Array F) (t : Trace F)
      → validate_array a ≡ none
      → C.array t (array_key ps) ≡ ok a
      → (name : String) × (names : List String) × (a.spec.data_disks ≡ name ∷ names)
        × ((resolve_snapraid_config_name C ps t).0
            ≡ of_primary (
                C.disk
                  (Call.read Kind.arrays (array_key ps) ∷ t)
                  (record { name = name; namespace = "" })))
  unfolding resolve_snapraid_config_name primary_config_name validate_array
  resolve_snapraid_config_name_admitted ps a t admitted found = split a.spec.data_disks refl
    where
      split :
          (disks : List String)
          → a.spec.data_disks ≡ disks
          → (name : String) × (names : List String) × (a.spec.data_disks ≡ name ∷ names)
            × ((resolve_snapraid_config_name C ps t).0
                ≡ of_primary (
                    C.disk
                      (Call.read Kind.arrays (array_key ps) ∷ t)
                      (record { name = name; namespace = "" })))
      split [] e = absurd (ground arith)
      split (name ∷ names) e = (
        name,
        names,
        e,
        elim (Result-cases (
            C.disk (Call.read Kind.arrays (array_key ps) ∷ t)
              (record { name = name; namespace = "" }))) [
                | inl (x, e') ↦ ground arith
                | inr (d, e') ↦ ground arith
              ],
      )
