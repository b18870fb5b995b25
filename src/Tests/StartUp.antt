-- ===== src/Tests/StartUp.antt =====
-- Instances of the theorems on the start-up, with a certificate for the webhooks, on a host where all
-- calls succeed and on one that cannot create a manager.
use kbrain.Prelude.{Option, none, some, ◌≡◌, refl, ◌++◌, All}
use kbrain.Prelude.Text.{lit, is_empty}
use kbrain.Effects.{Error, errorf}
use kbrain.Manager.Flags.{BootLibs}
use kbrain.Manager.Boot.{BootCall, new_manager, Host, trace, exited}
use kbrain.Manager.Main.{main}
use kbrain.Manager.Plan.{UpToFailure, plan, parsed, main_follows_plan}
use kbrain.Manager.Servers.{
  calls, Http2Guarded, OwnCertificates, main_guards_http2, main_separates_certificates,
}

abbrev boot_libs : BootLibs
boot_libs = record {
  parse_flags = λ f. record f { webhook_cert_path = lit "/certs" };
  join_path = λ a b. a ++ (lit "/" ++ b);
}

abbrev good_host : Host (Unit {0})
good_host = record { answer = λ c s. (none, s) }

abbrev bad_answer : BootCall → Unit {0} → Option Error × Unit {0}
bad_answer (new_manager o) s = (some (errorf (lit "no cluster")), s)
bad_answer _ s = (none, s)

abbrev bad_host : Host (Unit {0})
bad_host = record { answer = bad_answer }

bad_host_exits : (trace bad_host (main boot_libs) tt).1 ≡ exited 1
unfolding trace main is_empty lit
bad_host_exits = refl

main_follows_plan_example :
    UpToFailure (plan boot_libs (parsed boot_libs)) (trace bad_host (main boot_libs) tt)
main_follows_plan_example = main_follows_plan bad_host boot_libs tt

main_guards_http2_example : All (Http2Guarded (parsed boot_libs)) (calls good_host boot_libs tt)
main_guards_http2_example = main_guards_http2 good_host boot_libs tt

main_separates_certificates_example :
    All (OwnCertificates boot_libs (parsed boot_libs)) (calls good_host boot_libs tt)
main_separates_certificates_example = main_separates_certificates good_host boot_libs tt
