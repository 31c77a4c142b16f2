-- ===== src/Controllers/Array/Config.antt =====
-- The SnapRAID configuration that an Array stands for (`buildSnapraidConfig`).
use mathlib.Core.Option
use kube_nas.Base.{
  ℕ, zero, suc, ◌+◌, ◌<>◌, true, false, List, [], ◌∷◌, ◌≡◌, refl, inr, arith, ◌⊎◌, is_nil,
  get_elem?,
}
use kube_nas.Base.Text.{decimal}
use kube_nas.Api.Disk.{Disk}
use kube_nas.Api.Array.{Array}
use kube_nas.Agent.{SnapraidParityEntry, SnapraidDataEntry}
use kube_nas.Controllers.Array.{parity_entries, data_entries, build_snapraid_config}

module _ {F : Type 0} where
  abbrev pub data_entry : ℕ → Disk F → SnapraidDataEntry
  data_entry i d = record {
    label = "d" <> decimal (i + 1);
    device_path = d.spec.device_path;
    mount_point = d.spec.mount_point;
  }

  abbrev pub parity_entry : ℕ → Disk F → SnapraidParityEntry
  parity_entry i d = record {
    index = i + 1;
    device_path = d.spec.device_path;
    mount_point = d.spec.mount_point;
  }

  get_elem?-data_entries :
      (disks : List (Disk F)) (n i k : ℕ)
      → k ≡ n + i
      → get_elem? (data_entries n disks) i ≡ Option.map (data_entry k) (get_elem? disks i)
  unfolding data_entries
  get_elem?-data_entries [] n i k e = refl
  get_elem?-data_entries (d ∷ disks) n zero k e = let same : n ≡ k = omega arith in rw same
  get_elem?-data_entries (d ∷ disks) n (suc i) k e =
      get_elem?-data_entries disks (suc n) i k (omega arith)

  get_elem?-parity_entries :
      (disks : List (Disk F)) (n i k : ℕ)
      → k ≡ n + i
      → get_elem? (parity_entries n disks) i ≡ Option.map (parity_entry k) (get_elem? disks i)
  unfolding parity_entries
  get_elem?-parity_entries [] n i k e = refl
  get_elem?-parity_entries (d ∷ disks) n zero k e = let same : n ≡ k = omega arith in rw same
  get_elem?-parity_entries (d ∷ disks) n (suc i) k e =
      get_elem?-parity_entries disks (suc n) i k (omega arith)

  -- The entry at position `i` of the configuration stands for the disk at position `i` of the Array,
  -- with the label `d` and the number `i + 1` for data and the index `i + 1` for parity, and there are
  -- no other entries. There is a content file as soon as there is a data disk.
  pub build_snapraid_config_lem :
      (a : Array F) (disks parity : List (Disk F)) (i : ℕ)
      → let cfg = build_snapraid_config a disks parity in
        (get_elem? cfg.data_entries i ≡ Option.map (data_entry i) (get_elem? disks i))
        × (get_elem? cfg.parity_entries i ≡ Option.map (parity_entry i) (get_elem? parity i))
        × ((is_nil cfg.content_files ≡ false) ⊎ (is_nil disks ≡ true))
  unfolding build_snapraid_config
  build_snapraid_config_lem a disks parity i = (
    get_elem?-data_entries disks 0 i i (omega arith),
    get_elem?-parity_entries parity 0 i i (omega arith),
    content a disks parity,
  )
    where
      content :
          (a : Array F) (disks parity : List (Disk F))
          → (is_nil (build_snapraid_config a disks parity).content_files ≡ false)
            ⊎ (is_nil disks ≡ true)
      content a [] parity = inr refl
      content a (d ∷ disks) parity = ground arith
