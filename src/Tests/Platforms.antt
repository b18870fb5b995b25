-- ===== src/Tests/Platforms.antt =====
-- An instance of the theorem on platforms that are not supported.
use kbrain.Prelude.{refl}
use kbrain.Prelude.Text.{lit, text_eq, is_empty}
use kbrain.Api.{AgentTask, creating_mr}
use kbrain.Effects.{Always, Anything}
use kbrain.TaskController.CreatingMr.{handle_creating_mr, platform_of}
use kbrain.TaskController.Platforms.{OnlyFails, unsupported_platform_fails}
use kbrain.Tests.Samples.{sample_libs, in_phase, sample_spec, sample_git}

abbrev on_bitbucket : AgentTask
on_bitbucket = record (in_phase creating_mr) {
  spec = record sample_spec { git = record sample_git { platform = lit "bitbucket" } };
}

unsupported_platform_fails_example :
    Always (OnlyFails on_bitbucket) Anything (handle_creating_mr sample_libs on_bitbucket)
unsupported_platform_fails_example =
    unsupported_platform_fails sample_libs on_bitbucket
      (unfold platform_of is_empty text_eq lit in refl)
      (unfold platform_of is_empty text_eq lit in refl)
