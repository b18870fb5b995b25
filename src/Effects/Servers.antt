-- ===== src/Effects/Servers.antt =====
-- A server answers the calls from a state of its own; a program runs against it.
use kbrain.Prelude.{Option, none, some, List, [], ◌∷◌, ◌++◌, ◌≡◌, ap}
use kbrain.Effects.Calls.{Call, Answer}
use kbrain.Effects.Programs.{Program, done, call, panic, ◌>>=◌}

pub record Server (S : Type 0) : Type 0 where
  pub answer : (c : Call) → S → Answer c × S

-- The result, or none for a panic, and the state of the server at the end.
unfoldable pub run {ℓ} : {A : Type ℓ} {S : Type 0} → Server S → Program A → S → Option A × S
run v (done a) s = (some a, s)
run v (call c k) s = let (r, s') = v.answer c s in run v (k r) s'
run v panic s = (none, s)

-- The calls that a program makes, in order.
unfoldable pub calls {ℓ} : {A : Type ℓ} {S : Type 0} → Server S → Program A → S → List Call
calls v (done a) s = []
calls v (call c k) s = let (r, s') = v.answer c s in c ∷ calls v (k r) s'
calls v panic s = []

module _ {ℓ κ} {A : Type ℓ} {B : Type κ} {S : Type 0} (v : Server S) where
  -- A program that continues another makes the calls of the first, and then its own.
  pub calls-bind :
      (m : Program A) (f : A → Program B) (s : S) (a : A) (s' : S)
      → run v m s ≡ (some a, s')
      → calls v (m >>= f) s ≡ calls v m s ++ calls v (f a) s'
  unfolding calls run
  calls-bind (done b) f s a s' h = cc
  calls-bind (call c k) f s a s' h =
      let (r, s1) = v.answer c s in ap (◌∷◌ c) (calls-bind (k r) f s1 a s' h)
  calls-bind panic f s a s' h = cc
