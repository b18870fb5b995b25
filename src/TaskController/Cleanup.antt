-- ===== src/TaskController/Cleanup.antt =====
-- The calls of handleDeletion, against any server.
use kbrain.Prelude.{true, false, [], ◌∷◌, ◌≡◌, refl, ap, ◌⊎◌, inl, inr, Bool-cases}
use kbrain.Prelude.Text.{is_empty}
use kbrain.Api.{AgentTask, Pod}
use kbrain.Effects.{
  Libs, Result, Error, ok, err, Key, get_pod, delete_pod, update_task, done, Server, calls,
}
use kbrain.TaskController.Outcome.{finished, failure}
use kbrain.TaskController.Deletion.{task_finalizer, clean_up, drop_finalizer, handle_deletion}

-- The pod that the status names.
abbrev pub named_pod : AgentTask → Key
named_pod t = record { name = t.status.pod_name; namespace = t.namespace }

Result-cases : (r : Result Pod) → ((p : Pod) × (r ≡ ok p)) ⊎ ((e : Error) × (r ≡ err e))
Result-cases (ok p) = inl (p, refl)
Result-cases (err e) = inr (e, refl)

module _ {S : Type 0} (v : Server S) (libs : Libs) where
  drop_finalizer-calls :
      (t : AgentTask) (s : S)
      → calls v (drop_finalizer libs t) s
        ≡ update_task (libs.remove_finalizer t task_finalizer) ∷ []
  unfolding drop_finalizer calls
  drop_finalizer-calls t s =
      ap (◌∷◌ (update_task (libs.remove_finalizer t task_finalizer)))
        (last (v.answer (update_task (libs.remove_finalizer t task_finalizer)) s).0)
    where
      last :
          (r : Result AgentTask)
          → calls v
              (elim r [ ok t' ↦ done finished | err e ↦ done (failure e) ])
              (v.answer (update_task (libs.remove_finalizer t task_finalizer)) s).1
            ≡ []
      last (ok u) = refl
      last (err e) = refl

  -- The finalizer is removed on every path of handleDeletion, by its last call: if the status names
  -- no pod, that is the only call; else the pod is read, and deleted once if it is found, and neither
  -- a failure to read it nor a failure to delete it keeps the finalizer.
  pub handle_deletion-calls :
      (t : AgentTask) (s : S)
      → let removal = update_task (libs.remove_finalizer t task_finalizer) in
        ((is_empty t.status.pod_name ≡ true) × (calls v (handle_deletion libs t) s ≡ removal ∷ []))
        ⊎ (((is_empty t.status.pod_name ≡ false)
              × (p : Pod) × ((v.answer (get_pod (named_pod t)) s).0 ≡ ok p)
              × (calls v (handle_deletion libs t) s
                  ≡ get_pod (named_pod t) ∷ delete_pod p ∷ removal ∷ []))
            ⊎ ((is_empty t.status.pod_name ≡ false)
                × (e : Error) × ((v.answer (get_pod (named_pod t)) s).0 ≡ err e)
                × (calls v (handle_deletion libs t) s ≡ get_pod (named_pod t) ∷ removal ∷ [])))
  unfolding handle_deletion clean_up calls
  handle_deletion-calls t s = elim (Bool-cases (is_empty t.status.pod_name)) [
    | inl e ↦ inl (e, rw e (drop_finalizer-calls t s))
    | inr e ↦ inr (elim (Result-cases (v.answer (get_pod (named_pod t)) s).0) [
      | inl (p, h) ↦ inl (
        e,
        p,
        h,
        rw (e, h) (ap (λ l. get_pod (named_pod t) ∷ delete_pod p ∷ l) (drop_finalizer-calls t _)),
      )
      | inr (x, h) ↦
          inr (e, x, h, rw (e, h) (ap (λ l. get_pod (named_pod t) ∷ l) (drop_finalizer-calls t _)))
    ])
  ]
