-- ===== src/Controllers/Pool/Members.antt =====
-- The disks that a Pool is made of: the loop of `Reconcile` against a comprehension over the answers.
use mathlib.Core.List.{append-nil, append_assoc}
use kube_nas.Base.{
  ℕ, ◌+◌, ◌<◌, ◌^◌, String, true, false, List, [], ◌∷◌, ◌++◌, map, ◌≡◌, refl, ◌∙◌, sym, arith, inl,
  inr, if◌then◌else◌, ap, is_nil,
}
use kube_nas.Base.Int.{ℤ, pos, add64, wrap64, ◌+ℤ◌}
use kube_nas.Base.Outcome.{ok, err, Result-cases}
use kube_nas.Api.Disk.{Disk}
use kube_nas.Cluster.{Kind, Call, Cluster, Trace}
use kube_nas.Controllers.Pool.{
  Branches, no_branches, disk_key, is_member, add_branch, collect_branches,
}

-- What the reads of the named disks answer, in order, without those that fail.
unfoldable pub answers : {F : Type 0} → Cluster F → List String → Trace F → List (String × Disk F)
answers C [] t = []
answers C (name ∷ names) t =
    let rest = answers C names (Call.read Kind.disks (disk_key name) ∷ t) in
    elim (C.disk t (disk_key name)) [ err x ↦ rest | ok d ↦ (name, d) ∷ rest ]

unfoldable pub members : {F : Type 0} → List (String × Disk F) → List (String × Disk F)
members [] = []
members ((name, d) ∷ found) =
    let rest = members found in if is_member d then (name, d) ∷ rest else rest

abbrev pub mount_points : {F : Type 0} → List (String × Disk F) → List String
mount_points = map (λ p. p.1.spec.mount_point)

abbrev pub names_of : {F : Type 0} → List (String × Disk F) → List String
names_of = map (λ p. p.0)

abbrev pub capacities : {F : Type 0} → List (String × Disk F) → List ℤ
capacities = map (λ p. p.1.status.capacity_bytes)

abbrev pub sum64 : ℤ → List ℤ → ℤ
sum64 total [] = total
sum64 total (c ∷ cs) = sum64 (add64 total c) cs

module _ {F : Type 0} (C : Cluster F) where
  pub collect_branches-fields :
      (names : List String) (b : Branches) (t : Trace F)
      → let got = members (answers C names t) in
        let r = (collect_branches C names b t).0 in
        (r.branches ≡ b.branches ++ mount_points got)
        × (r.disk_names ≡ b.disk_names ++ names_of got)
        × (r.total_bytes ≡ sum64 b.total_bytes (capacities got))
  unfolding collect_branches answers members add_branch
  collect_branches-fields [] b t =
      (sym (append-nil b.branches), sym (append-nil b.disk_names), refl)
  collect_branches-fields (name ∷ names) b t = elim (Result-cases (C.disk t (disk_key name))) [
    | inl (x, e) ↦ ground (arith, collect_branches-fields names b (read ∷ t))
    | inr (d, e) ↦ ground (
      arith,
      collect_branches-fields names b (read ∷ t),
      collect_branches-fields names (joined d) (read ∷ t),
      append_assoc b.branches (d.spec.mount_point ∷ []) (mount_points later),
      append_assoc b.disk_names (name ∷ []) (names_of later),
    )
  ]
    where
      read : Call F
      read = Call.read Kind.disks (disk_key name)

      joined : Disk F → Branches
      joined d = record {
        branches = b.branches ++ (d.spec.mount_point ∷ []);
        disk_names = b.disk_names ++ (name ∷ []);
        total_bytes = add64 b.total_bytes d.status.capacity_bytes;
        available_bytes = add64 b.available_bytes d.status.available_bytes;
      }

      later : List (String × Disk F)
      later = members (answers C names (read ∷ t))

pub mount_points_nonempty :
    {F : Type 0} (got : List (String × Disk F)) (branches : List String)
    → branches ≡ mount_points got
    → is_nil branches ≡ false
    → is_nil got ≡ false
mount_points_nonempty [] branches e h = rw e at h
mount_points_nonempty (d ∷ got) branches e h = refl

pub mount_points_empty :
    {F : Type 0} (got : List (String × Disk F)) (branches : List String)
    → branches ≡ mount_points got
    → is_nil branches ≡ true
    → is_nil got ≡ true
mount_points_empty [] branches e h = refl
mount_points_empty (d ∷ got) branches e h = rw e at h

abbrev pub sum : List ℕ → ℕ
sum [] = 0
sum (n ∷ ns) = n + sum ns

add64_pos : (a n : ℕ) → a + n < 2 ^ 63 → add64 (pos a) (pos n) ≡ pos (a + n)
unfolding wrap64 ◌+ℤ◌
add64_pos a n h = ground arith

-- Below 2 ^ 63 the sum of the loop does not wrap.
sum64_pos :
    (a : ℕ) (ns : List ℕ) → a + sum ns < 2 ^ 63 → sum64 (pos a) (map pos ns) ≡ pos (a + sum ns)
sum64_pos a [] h = ap pos (omega arith)
sum64_pos a (n ∷ ns) h =
    ap (λ z. sum64 z (map pos ns)) (add64_pos a n (omega arith))
    ∙ (sum64_pos (a + n) ns (omega arith) ∙ ap pos (omega arith))

module _ {F : Type 0} (C : Cluster F) where
  -- The loop over the data disks collects exactly the disks that are read as mounted and Ready, in
  -- order: their mount points are the branches, their names the members. If their capacities are `ns`
  -- and sum to less than 2 ^ 63, the total is that sum.
  pub collect_branches_lem :
      (names : List String) (t : Trace F) (ns : List ℕ)
      → capacities (members (answers C names t)) ≡ map pos ns
      → sum ns < 2 ^ 63
      → let got = members (answers C names t) in
        let r = (collect_branches C names no_branches t).0 in
        (r.branches ≡ mount_points got)
        × (r.disk_names ≡ names_of got)
        × (r.total_bytes ≡ pos (sum ns))
  collect_branches_lem names t ns sizes small =
      let f = collect_branches-fields C names no_branches t in
      (f.0, f.1, f.2 ∙ rw sizes (sum64_pos 0 ns (omega arith) ∙ ap pos (omega arith)))
