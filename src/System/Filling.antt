-- ===== src/System/Filling.antt =====
-- A run of the pool controller whose updates are all stored leaves no slot unused.
use mathlib.Core.List.{Memᴰ}
use kbrain.Prelude.{List, [], ◌∷◌, ◌≡◌, ◌⊎◌}
use kbrain.Api.{AgentTask}
use kbrain.PoolController.Slots.{grant}

-- Each task that is chosen is granted a slot, and the others stay.
abbrev pub GrantedEach : List AgentTask → List AgentTask → List AgentTask → Type 0
GrantedEach C [] [] = Unit
GrantedEach C [] (u ∷ us) = ⊥
GrantedEach C (t ∷ ts) [] = ⊥
GrantedEach C (t ∷ ts) (u ∷ us) =
    ((Memᴰ t C × (u ≡ grant t)) ⊎ (¬ Memᴰ t C × (u ≡ t))) × GrantedEach C ts us
