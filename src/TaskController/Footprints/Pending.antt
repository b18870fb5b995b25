-- ===== src/TaskController/Footprints/Pending.antt =====
-- The footprint of handlePending.
use kbrain.Prelude.{false, Option, none, some, ◌≡◌, refl, ◌⊎◌, inl, inr}
use kbrain.Prelude.Text.{lit, is_empty, text_eq}
use kbrain.Api.{AgentTask, initializing, SecretKeyRef}
use kbrain.Effects.{
  Libs, Call, get_secret, update_task_status, now, Always, Always-if, Always-result, Anything,
  Always-call, Always-done, is_not_found,
}
use kbrain.TaskController.Pending.{handle_pending, check_secret, waits_for_slot}
use kbrain.TaskController.Writes.{moved, Fails, Always-set_phase, Always-set_failed}

-- The task passed validation and does not wait for a slot.
pub record Ready (t : AgentTask) : Type 0 where
  pub described : is_empty t.spec.description ≡ false
  pub has_repo : is_empty t.spec.git.repo_url ≡ false
  pub has_base : is_empty t.spec.git.base_branch ≡ false
  pub has_slot : waits_for_slot t ≡ false

abbrev pub PendingCall : AgentTask → Call → Type 0
PendingCall t (get_secret k) = k.namespace ≡ t.namespace
PendingCall t now = Unit
PendingCall t (update_task_status u) =
    (Ready t × (u ≡ moved t initializing (lit "Validated, creating agent pod"))) ⊎ Fails t u
PendingCall t _ = ⊥

module _ (libs : Libs) (t : AgentTask) where
  check_secret-calls :
      (ref : Option SecretKeyRef)
      → Ready t
      → Always (PendingCall t) Anything (check_secret libs t ref)
  unfolding check_secret
  check_secret-calls none h = Always-set_phase t _ _ (inl (h, refl))
  check_secret-calls (some ref) h =
      Always-if (text_eq t.spec.model_provider (lit "cloud"))
        (λ _. Always-call refl λ r.
          Always-result r (λ s _. Always-set_phase t _ _ (inl (h, refl)))
            (λ e _.
              Always-if (is_not_found e) (λ _. Always-set_failed t _ tt (λ u f. inr f))
                (λ _. Always-done tt)))
        (λ _. Always-set_phase t _ _ (inl (h, refl)))

  pub handle_pending-calls : Always (PendingCall t) Anything (handle_pending libs t)
  unfolding handle_pending
  handle_pending-calls =
      Always-if (is_empty t.spec.description) (λ _. Always-set_failed t _ tt (λ u f. inr f))
        λ a.
          Always-if (is_empty t.spec.git.repo_url) (λ _. Always-set_failed t _ tt (λ u f. inr f))
            λ b.
              Always-if (is_empty t.spec.git.base_branch)
                (λ _. Always-set_failed t _ tt (λ u f. inr f))
                λ c.
                  Always-if (waits_for_slot t) (λ _. Always-done tt)
                    λ d.
                      check_secret-calls t.spec.api_key_secret_ref
                        (record { described = a; has_repo = b; has_base = c; has_slot = d })
