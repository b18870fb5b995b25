-- ===== src/Manager/Boot.antt =====
-- A start-up is a tree of calls, each of which fails or not, and the ways in which it can end.
use kbrain.Prelude.{ℕ, Option, none, some, List, [], ◌∷◌}
use kbrain.Prelude.Text.{Text}
use kbrain.Effects.{Error}
use kbrain.Manager.Registration.{SchemeBuilder}
use kbrain.Manager.Tls.{CertWatcher}
use kbrain.Manager.Options.{ManagerOptions, ControllerSetup}

pub data SchemeGroup : Type 0 where
  client_go : SchemeGroup
  -- the types of this repository
  agents_v1alpha1 : SchemeBuilder → SchemeGroup

pub data BootCall : Type 0 where
  add_to_scheme : SchemeGroup → BootCall
  -- `certwatcher.New`, which reads the files
  new_cert_watcher : CertWatcher → BootCall
  -- `ctrl.GetConfigOrDie`, which ends the process itself if it fails
  get_config : BootCall
  new_manager : ManagerOptions → BootCall
  set_up_with_manager : ControllerSetup → BootCall
  add_watcher : CertWatcher → BootCall
  add_healthz_check add_readyz_check : Text → BootCall
  -- `mgr.Start`, which returns when the manager has stopped
  start_manager : BootCall

pub data Boot {ℓ} (A : Type ℓ) : Type ℓ where
  done : A → Boot A
  call : BootCall → (Option Error → Boot A) → Boot A
  -- `os.Exit`
  exit : ℕ → Boot A
  panic : Boot A

infixl 5 ◌>>=◌ ◌>>◌
abbrev pub ◌>>=◌ {ℓ κ} : {A : Type ℓ} {B : Type κ} → Boot A → (A → Boot B) → Boot B
done a >>= f = f a
call c k >>= f = call c (λ r. k r >>= f)
exit n >>= f = exit n
panic >>= f = panic

abbrev pub ◌>>◌ {ℓ κ} : {A : Type ℓ} {B : Type κ} → Boot A → Boot B → Boot B
m >> n = m >>= λ _. n

-- An error is logged, and ends the process with status 1.
abbrev pub or_exit : BootCall → Boot (Unit {0})
or_exit c = call c λ r. elim r [ none ↦ done tt | some e ↦ exit 1 ]

-- `utilruntime.Must`.
abbrev pub must : BootCall → Boot (Unit {0})
must c = call c λ r. elim r [ none ↦ done tt | some e ↦ panic ]

-- How a start-up ends.
pub data Ending : Type 0 where
  returned panicked : Ending
  exited : ℕ → Ending

-- What answers the calls, from a state of its own.
pub record Host (S : Type 0) : Type 0 where
  pub answer : BootCall → S → Option Error × S

-- The calls with their answers, in order, and the end.
unfoldable pub trace {ℓ} :
    {A : Type ℓ} {S : Type 0} → Host S → Boot A → S → List (BootCall × Option Error) × Ending
trace h (done a) s = ([], returned)
trace h (call c k) s =
    let (r, s') = h.answer c s in let (cs, e) = trace h (k r) s' in ((c, r) ∷ cs, e)
trace h (exit n) s = ([], exited n)
trace h panic s = ([], panicked)
