-- ===== src/TaskController/Timeouts.antt =====
-- The timeout of a running task, against any server.
use kbrain.Prelude.{
  ℕ, Bool-cases, ◌+◌, ◌*◌, ◌-◌, ◌^◌, ◌<◌, ◌≤◌, ltb, ltb→lt, true, false, none, some, [], ◌∷◌, ◌++◌,
  ◌≡◌, ◌≢◌, refl, ap, sym, ◌∙◌, subst, arith, ◌⊎◌, inl, inr,
}
use kbrain.Prelude.Int.{ℤ, pos, negsuc, sub_ℕ, ltb_ℤ}
use kbrain.Prelude.Text.{lit, is_empty}
use mathlib.Core.List.{Memᴰ}
use kbrain.Api.{
  AgentTask, Pod, PodPhase, pod_pending, pod_running, pod_unknown, pod_succeeded, pod_failed, Time,
}
use kbrain.Effects.{
  Libs, Key, Call, ok, get_pod, now, delete_pod, update_task_status, Server, run, calls, Always,
  Anything, Always-weaken,
}
use kbrain.TaskController.Outcome.{requeue_in, second}
use kbrain.TaskController.Initializing.{adopt_pod, handle_initializing}
use kbrain.TaskController.Running.{
  check_timeout, time_out, timeout_of, is_late, since, clamp_duration, on_pod_phase, handle_running,
}
use kbrain.TaskController.Writes.{failed_at}
use kbrain.TaskController.Footprints.Initializing.{adopted}
use kbrain.TaskController.Footprints.Running.{RunningCall, handle_running-calls}
use kbrain.TaskController.Progress.{pod_key}
use kbrain.TaskController.StatusCalls.{set_phase-calls, set_failed-calls}

-- The task's timeout in nanoseconds: what spec.timeout parses to, or half an hour where it does not.
abbrev pub HasTimeout : Libs → AgentTask → ℕ → Type 0
HasTimeout libs t limit =
    (libs.parse_duration t.spec.timeout ≡ some (pos limit))
    ⊎ ((libs.parse_duration t.spec.timeout ≡ none) × (limit ≡ 1800 * second))

since-late :
    (limit start time m : ℕ)
    → limit < m
    → ltb_ℤ (pos limit) (sub_ℕ time start) ≡ ltb (start + limit) time
since-late limit start time m h = ground (arith, h)

clamp-late :
    (limit : ℕ) (d : ℤ)
    → limit < 2 ^ 63 - 1
    → ltb_ℤ (pos limit) (clamp_duration d) ≡ ltb_ℤ (pos limit) d
unfolding clamp_duration
clamp-late limit (pos n) h = ground (arith, h)
clamp-late limit (negsuc n) h = ground (arith, h)

timeout_of-HasTimeout :
    (libs : Libs) (t : AgentTask) (limit : ℕ)
    → HasTimeout libs t limit
    → timeout_of libs t ≡ pos limit
unfolding timeout_of
timeout_of-HasTimeout libs t limit (inl e) = rw (e, timeout_of) refl
timeout_of-HasTimeout libs t limit (inr (e, l)) = rw (e, timeout_of) (ap pos (sym l))

-- The test of the code, as an order of times.
is_late-HasTimeout :
    (libs : Libs) (t : AgentTask) (limit : ℕ) (time start : Time)
    → HasTimeout libs t limit
    → limit < 2 ^ 63 - 1
    → is_late libs t time start ≡ ltb (start + limit) time
unfolding is_late since
is_late-HasTimeout libs t limit time start h l =
    rw (timeout_of-HasTimeout libs t limit h)
      (clamp-late limit (sub_ℕ time start) l ∙ since-late limit start time (2 ^ 63 - 1) l)

-- A pod that is neither done nor failed is only looked at for the timeout.
on_pod_phase-unfinished :
    (libs : Libs) (ph : PodPhase) (t : AgentTask) (pod : Pod)
    → ph ≢ pod_succeeded
    → ph ≢ pod_failed
    → on_pod_phase libs ph t pod ≡ check_timeout libs t pod t.status.start_time
unfolding on_pod_phase
on_pod_phase-unfinished libs pod_succeeded t pod n m = absurd (n refl)
on_pod_phase-unfinished libs pod_failed t pod n m = absurd (m refl)
on_pod_phase-unfinished libs pod_pending t pod n m = refl
on_pod_phase-unfinished libs pod_running t pod n m = refl
on_pod_phase-unfinished libs pod_unknown t pod n m = refl

-- The key of the task's recorded pod.
abbrev pub own_pod : AgentTask → Key
own_pod t = record { name = t.status.pod_name; namespace = t.namespace }

module _ {S : Type 0} (v : Server S) where
  late-calls :
      (libs : Libs) (t : AgentTask) (pod : Pod) (start : Time) (s : S)
      → is_late libs t (v.answer now s).0 start ≡ true
      → (ended : Time) × (calls v (check_timeout libs t pod (some start)) s
          ≡ now
            ∷ delete_pod pod
            ∷ now
            ∷ update_task_status (
                failed_at t ended
                  (lit "task timed out after " ++ libs.show_duration (timeout_of libs t)))
            ∷ [])
  unfolding check_timeout time_out calls
  late-calls libs t pod start s e = (
    (v.answer now (v.answer (delete_pod pod) (v.answer now s).1).1).0,
    rw e (
        ap (λ l. now ∷ delete_pod pod ∷ l)
          (set_failed-calls v t
            (lit "task timed out after " ++ libs.show_duration (timeout_of libs t))
            (v.answer (delete_pod pod) (v.answer now s).1).1)),
  )

  early-calls :
      (libs : Libs) (t : AgentTask) (pod : Pod) (start : Time) (s : S)
      → is_late libs t (v.answer now s).0 start ≡ false
      → (calls v (check_timeout libs t pod (some start)) s ≡ now ∷ [])
        × ((run v (check_timeout libs t pod (some start)) s).0 ≡ some (requeue_in (15 * second)))
  unfolding check_timeout calls run
  early-calls libs t pod start s e = (rw e, rw (e, run))

  -- The run of handleRunning on a pod that is there and unfinished is that of the timeout check.
  unfinished-calls :
      (libs : Libs) (t : AgentTask) (pod : Pod) (start : Time) (s s1 : S)
      → is_empty t.status.pod_name ≡ false
      → t.status.start_time ≡ some start
      → v.answer (get_pod (own_pod t)) s ≡ (ok pod, s1)
      → pod.status.phase ≢ pod_succeeded
      → pod.status.phase ≢ pod_failed
      → (calls v (handle_running libs t) s
          ≡ get_pod (own_pod t) ∷ calls v (check_timeout libs t pod (some start)) s1)
        × ((run v (handle_running libs t) s).0
            ≡ (run v (check_timeout libs t pod (some start)) s1).0)
  unfolding handle_running calls run
  unfinished-calls libs t pod start s s1 n b a p q =
      let e =
        on_pod_phase-unfinished libs pod.status.phase t pod p q ∙ ap (check_timeout libs t pod) b in
      rw (n, a, e) (refl, refl)

  -- A task whose start time is set, whose timeout is not negative and shorter than the longest
  -- time.Duration, and whose recorded pod is found neither done nor failed: handleRunning reads the pod
  -- and then the clock. If the clock shows more than the timeout after the start time, the pod is
  -- deleted and the task is marked as failed with the timeout in its message, whether or not the
  -- deletion works; if not, nothing is written and the task is looked at again in 15 seconds. Where
  -- spec.timeout does not parse, the timeout is half an hour.
  pub handle_running-times_out :
      (libs : Libs) (t : AgentTask) (pod : Pod) (start : Time) (limit : ℕ) (s s1 : S)
      → is_empty t.status.pod_name ≡ false
      → t.status.start_time ≡ some start
      → HasTimeout libs t limit
      → limit < 2 ^ 63 - 1
      → v.answer (get_pod (own_pod t)) s ≡ (ok pod, s1)
      → pod.status.phase ≢ pod_succeeded
      → pod.status.phase ≢ pod_failed
      → ((start + limit < (v.answer now s1).0)
          × (ended : Time) × (calls v (handle_running libs t) s
              ≡ get_pod (own_pod t)
                ∷ now
                ∷ delete_pod pod
                ∷ now
                ∷ update_task_status (
                    failed_at t ended
                      (lit "task timed out after " ++ libs.show_duration (pos limit)))
                ∷ []))
        ⊎ (((v.answer now s1).0 ≤ start + limit)
            × (calls v (handle_running libs t) s ≡ get_pod (own_pod t) ∷ now ∷ [])
            × ((run v (handle_running libs t) s).0 ≡ some (requeue_in (15 * second))))
  handle_running-times_out libs t pod start limit s s1 n b h l a p q =
      let (c, r) = unfinished-calls libs t pod start s s1 n b a p q in
      let time = (v.answer now s1).0 in
      let late = is_late-HasTimeout libs t limit time start h l in
      let message = timeout_of-HasTimeout libs t limit h in
      elim (Bool-cases (ltb (start + limit) time)) [
        | inl e ↦
            let (ended, d) = late-calls libs t pod start s1 (late ∙ e) in
            inl (
              ltb→lt (start + limit) time e,
              ended,
              c
                  ∙ ap (◌∷◌ (get_pod (own_pod t))) (
                      subst
                        (λ z.
                          calls v (check_timeout libs t pod (some start)) s1
                          ≡ now
                            ∷ delete_pod pod
                            ∷ now
                            ∷ update_task_status (
                                failed_at t ended
                                  (lit "task timed out after " ++ libs.show_duration z))
                            ∷ [])
                        message d),
            )
        | inr e ↦
            let (d, f) = early-calls libs t pod start s1 (late ∙ e) in
            inr (ground (arith, e), c ∙ ap (◌∷◌ (get_pod (own_pod t))) d, r ∙ f)
      ]

-- No pod is deleted.
abbrev pub KeepsPods : Call → Type 0
KeepsPods (delete_pod p) = ⊥
KeepsPods _ = Unit

module _ {S : Type 0} (v : Server S) where
  pub adopted-calls :
      (libs : Libs) (t : AgentTask) (found : Pod) (s s1 : S)
      → v.answer (get_pod (pod_key t)) s ≡ (ok found, s1)
      → calls v (handle_initializing libs t) s
        ≡ get_pod (pod_key t) ∷ update_task_status (adopted t) ∷ []
  unfolding handle_initializing adopt_pod calls
  adopted-calls libs t found s s1 a =
      rw a (ap (◌∷◌ (get_pod (pod_key t))) (set_phase-calls v _ _ _ s1))

  only-write :
      (t u w : AgentTask)
      → Memᴰ (update_task_status u) (get_pod (pod_key t) ∷ update_task_status w ∷ [])
      → u ≡ w
  only-write t u w (Memᴰ.head e) = cc e
  only-write t u w (Memᴰ.tail (Memᴰ.head e)) = cc e
  only-write t u w (Memᴰ.tail (Memᴰ.tail m)) = elim m [ ]

  RunningCall-KeepsPods :
      (u : AgentTask) → u.status.start_time ≡ none → (c : Call) → RunningCall u c → KeepsPods c
  RunningCall-KeepsPods u n (delete_pod p) h = h n
  RunningCall-KeepsPods u n _ h = tt

  -- A task without a start time whose pod handleInitializing finds in place never times out: whatever
  -- status handleInitializing then writes, on no path of handleRunning on a task with that status is a
  -- pod deleted, however late it is.
  pub adopted_never_times_out :
      (libs : Libs) (t u : AgentTask) (found : Pod) (s s1 : S)
      → t.status.start_time ≡ none
      → v.answer (get_pod (pod_key t)) s ≡ (ok found, s1)
      → Memᴰ (update_task_status u) (calls v (handle_initializing libs t) s)
      → Always KeepsPods Anything (handle_running libs u)
  adopted_never_times_out libs t u found s s1 n a m =
      let e =
        only-write t u (adopted t)
          (subst (Memᴰ (update_task_status u)) (adopted-calls libs t found s s1 a) m) in
      Always-weaken (RunningCall-KeepsPods u (ap (λ x. x.status.start_time) e ∙ n)) (λ _ _. tt)
        (handle_running-calls libs u)
