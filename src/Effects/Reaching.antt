-- ===== src/Effects/Reaching.antt =====
-- The calls that a program makes on some path.
use kbrain.Prelude.{◌≡◌, ◌⊎◌, inl, inr, subst, sym}
use mathlib.Core.List.{Memᴰ}
use kbrain.Effects.Calls.{Call, Answer}
use kbrain.Effects.Programs.{Program, done, call, panic, Paths, Always}
use kbrain.Effects.Servers.{Server, calls}

-- Some path of the program makes the call.
abbrev pub MayCall {ℓ} : {A : Type ℓ} → Call → Program A → Type 0
MayCall c (done a) = ⊥
MayCall c (call d k) = (c ≡ d) ⊎ ((r : Answer d) × MayCall c (k r))
MayCall c panic = ⊥

module _ {ℓ} {A : Type ℓ} where
  Paths-MayCall :
      (P : Call → Type 0) (Q : A → Type 0) (m : Program A) (c : Call)
      → Paths P Q m
      → MayCall c m
      → P c
  Paths-MayCall P Q (done a) c h r = absurd r
  Paths-MayCall P Q (call d k) c h (inl e) = subst P (sym e) h.0
  Paths-MayCall P Q (call d k) c h (inr (a, r)) = Paths-MayCall P Q (k a) c (h.1 a) r
  Paths-MayCall P Q panic c h r = absurd r

  -- What holds of every call on every path holds of each call that may be made.
  pub Always-MayCall :
      (P : Call → Type 0) {Q : A → Type 0} {m : Program A} (c : Call)
      → Always P Q m
      → MayCall c m
      → P c
  Always-MayCall P {Q} {m} c h r = Paths-MayCall P Q m c h.paths r

  -- A call that is made against some server may be made.
  pub MayCall-calls :
      {S : Type 0} (v : Server S) (m : Program A) (s : S) (c : Call)
      → Memᴰ c (calls v m s)
      → MayCall c m
  unfolding calls
  MayCall-calls v (done a) s c h = elim h [ ]
  MayCall-calls v (call d k) s c (Memᴰ.head e) = inl e
  MayCall-calls v (call d k) s c (Memᴰ.tail r) =
      inr ((v.answer d s).0, MayCall-calls v (k (v.answer d s).0) (v.answer d s).1 c r)
  MayCall-calls v panic s c h = elim h [ ]
