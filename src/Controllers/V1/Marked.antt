-- ===== src/Controllers/V1/Marked.antt =====
-- How often the controllers of controllers/new_arch_controllers.go write a resource.
use kube_nas.Base.{ℕ, String, ◌∷◌, ◌≡◌, arith, str_eq, eq_iff, inl, inr, ◌⊎◌, Bool-cases}
use kube_nas.Base.Dict.{entry_or_empty, entry-set_entry}
use kube_nas.Cluster.{Call, Cluster, Trace, finished}
use kube_nas.Controllers.V1.{
  ClientObject, annotations_of, reconcile_annotation, marked, reconcile_object,
}

module _ {F A : Type 0} (O : ClientObject F A) where
  -- The mark that a resource has, or the empty text.
  abbrev pub mark_of : A → String
  mark_of a = entry_or_empty (annotations_of (O.get_meta a)) reconcile_annotation

  mark_of-marked : (at : String) (a : A) → mark_of (marked O at a) ≡ at
  unfolding marked entry_or_empty
  mark_of-marked at a = rw O.get_meta-set_meta (
      ground (
        arith,
        entry-set_entry (annotations_of (O.get_meta a)) reconcile_annotation at
            reconcile_annotation,
        eq_iff reconcile_annotation reconcile_annotation,
      ))

module _ {F A : Type 0} (C : Cluster F) (format : ℕ → String) (O : ClientObject F A) where
  -- A reconciliation of a resource that has the mark of the second writes nothing, and else it writes
  -- the resource once, with this mark. A resource with this mark is not written while the time is
  -- formatted as the same text.
  pub reconcile_object-once :
      (a : A) (t t' : Trace F)
      → format (C.time t') ≡ format (C.time t)
      → (((mark_of O a ≡ format (C.time t))
            × (reconcile_object C format O a t ≡ (finished, Call.now ∷ t)))
          ⊎ ((reconcile_object C format O a t).1
              ≡ Call.update (O.object (marked O (format (C.time t)) a)) ∷ Call.now ∷ t))
        × (reconcile_object C format O (marked O (format (C.time t)) a) t'
            ≡ (finished, Call.now ∷ t'))
  unfolding reconcile_object
  reconcile_object-once a t t' same = (
    elim (Bool-cases (str_eq (mark_of O a) (format (C.time t)))) [
      | inl done ↦ inl ((eq_iff _ _).0 done, ground arith)
      | inr other ↦ inr (ground arith)
    ],
    ground (
      arith,
      mark_of-marked O (format (C.time t)) a,
      eq_iff (mark_of O (marked O (format (C.time t)) a)) (format (C.time t')),
    ),
  )
