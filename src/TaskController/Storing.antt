-- ===== src/TaskController/Storing.antt =====
-- The stored task after a run, on a cluster that stores what is written.
use kbrain.Prelude.{List, [], ◌∷◌, ◌++◌, ◌≡◌, refl, sym, ap, ◌∙◌}
use kbrain.Api.{AgentTask}
use kbrain.Effects.{
  Libs, Key, ok, Call, get_task, update_task, update_task_status, Program, done, call, panic,
  Server, run, calls, Paths, Always, Anything,
}
use kbrain.TaskController.Status.{with_status}
use kbrain.TaskController.Settled.{IsSettledIn}
use kbrain.TaskController.Reconcile.{dispatch, step, reconcile_task, reconcile}

-- Any call but a write of a task.
abbrev pub NoTaskWrite : Call → Type 0
NoTaskWrite (update_task_status u) = ⊥
NoTaskWrite (update_task u) = ⊥
NoTaskWrite _ = Unit

-- The server holds one task: reads answer it, a status write stores the status, an update everything
-- else, and no other call changes it.
pub record Stores {S : Type 0} (v : Server S) (task_of : S → AgentTask) : Type 0 where
  pub reads : (k : Key) (s : S) → v.answer (get_task k) s ≡ (ok (task_of s), s)
  pub writes :
      (u : AgentTask) (s : S)
      → task_of (v.answer (update_task_status u) s).1 ≡ with_status (task_of s) u.status
  pub updates :
      (u : AgentTask) (s : S)
      → task_of (v.answer (update_task u) s).1 ≡ with_status u (task_of s).status
  pub keeps : (c : Call) (s : S) → NoTaskWrite c → task_of (v.answer c s).1 ≡ task_of s

-- The task after the calls.
unfoldable pub written : AgentTask → List Call → AgentTask
written t [] = t
written t (update_task_status u ∷ cs) = written (with_status t u.status) cs
written t (update_task u ∷ cs) = written (with_status u t.status) cs
written t (_ ∷ cs) = written t cs

-- The first call, and then the others.
written-cons :
    (t : AgentTask) (c : Call) (cs : List Call)
    → written t (c ∷ cs) ≡ written (written t (c ∷ [])) cs
unfolding written
written-cons t (update_task_status u) cs = refl
written-cons t (update_task u) cs = refl
written-cons t _ cs = refl

pub written-append :
    (t : AgentTask) (cs ds : List Call) → written t (cs ++ ds) ≡ written (written t cs) ds
unfolding written
written-append t [] ds = refl
written-append t (c ∷ cs) ds =
    written-cons t c (cs ++ ds)
    ∙ written-append (written t (c ∷ [])) cs ds
    ∙ ap (λ u. written u ds) (sym (written-cons t c cs))

skipped :
    (t : AgentTask) (c : Call) (cs : List Call) → NoTaskWrite c → written t (c ∷ cs) ≡ written t cs
unfolding written
skipped t (update_task_status u) cs h = absurd h
skipped t (update_task u) cs h = absurd h
skipped t _ cs h = refl

quiet-written :
    {A S : Type 0} (v : Server S) (t : AgentTask) (m : Program A) (s : S)
    → Paths NoTaskWrite Anything m
    → written t (calls v m s) ≡ t
unfolding written calls
quiet-written v t (done a) s h = refl
quiet-written v t (call c k) s h =
    skipped t c _ h.0
    ∙ quiet-written v t (k (v.answer c s).0) (v.answer c s).1 (h.1 (v.answer c s).0)
quiet-written v t panic s h = refl

-- A program that writes no task leaves it.
pub calls-written :
    {A S : Type 0} (v : Server S) (t : AgentTask) (m : Program A) (s : S)
    → Always NoTaskWrite Anything m
    → written t (calls v m s) ≡ t
calls-written v t m s h = quiet-written v t m s h.paths

module _ {S : Type 0} (v : Server S) (task_of : S → AgentTask) (stores : Stores v task_of) where
  answer-written : (c : Call) (s : S) → task_of (v.answer c s).1 ≡ written (task_of s) (c ∷ [])
  unfolding written
  answer-written (update_task_status u) s = stores.writes u s
  answer-written (update_task u) s = stores.updates u s
  answer-written c s = stores.keeps c s tt

  -- After a run, the stored task is what the calls have written.
  pub run-written :
      {A : Type 0} (m : Program A) (s : S)
      → task_of (run v m s).1 ≡ written (task_of s) (calls v m s)
  unfolding run calls written
  run-written (done a) s = refl
  run-written (call c k) s =
      run-written (k (v.answer c s).0) (v.answer c s).1
      ∙ ap (λ u. written u (calls v (k (v.answer c s).0) (v.answer c s).1)) (answer-written c s)
      ∙ sym (written-cons (task_of s) c _)
  run-written panic s = refl

  -- A run of Reconcile on a task that lives and has its finalizer is that of its phase's handler.
  pub reconcile-dispatch :
      (libs : Libs) (k : Key) (s : S)
      → IsSettledIn libs (task_of s)
      → run v (reconcile libs k) s ≡ run v (dispatch libs (task_of s).status.phase (task_of s)) s
  unfolding reconcile reconcile_task step run
  reconcile-dispatch libs k s h = rw (stores.reads k s, h.lives, h.finalized) refl
