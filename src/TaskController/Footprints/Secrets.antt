-- ===== src/TaskController/Footprints/Secrets.antt =====
-- The footprint of resolveSecretValue.
use kbrain.Prelude.{ℕ, Option, none, some, ◌≡◌, refl}
use kbrain.Prelude.Text.{Text, is_empty}
use kbrain.Api.{SecretKeyRef}
use kbrain.Effects.{
  Libs, Key, Call, get_secret, range_start, Always, Anything, Always-call, Always-done, Always-if,
  Always-result,
}
use kbrain.TaskController.CreatingMr.{resolve_secret_value}

-- It reads a secret of the namespace, and where a range over a map begins.
pub resolve_secret_value-calls :
    (libs : Libs) (P : Call → Type 0) (namespace : Text) (ref : Option SecretKeyRef)
    → ((k : Key) → k.namespace ≡ namespace → P (get_secret k))
    → ((n : ℕ) → P (range_start n))
    → Always P Anything (resolve_secret_value libs namespace ref)
unfolding resolve_secret_value
resolve_secret_value-calls libs P namespace none h g = Always-done tt
resolve_secret_value-calls libs P namespace (some ref) h g =
    Always-call (h (record { name = ref.name; namespace = namespace }) refl) λ r.
      Always-result r
        (λ s _.
          Always-if (is_empty ref.key) (λ _. Always-call (g _) λ n. Always-done tt)
            (λ _. Always-done tt))
        (λ e _. Always-done tt)
