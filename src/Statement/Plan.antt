-- ===== src/Statement/Plan.antt =====
-- internal/provider/resource_flink_statement.go: what a plan is checked for.
use terraform_provider_confl.Base.{Bool, not, ◌&&◌, Option, none, some, if◌then◌else◌}
use terraform_provider_confl.Statement.Settings.{not_empty}
use terraform_provider_confl.Statement.Gateway.{FlinkData}
use terraform_provider_confl.Statement.Handlers.{FlinkChanges, differ}

pub data FlinkPlanError : Type 0 where
  principal_with_stop compute_pool_with_stop principal_without_resume compute_pool_without_resume :
      FlinkPlanError

abbrev pub first_of : Bool → Bool → FlinkPlanError → FlinkPlanError → Option FlinkPlanError
first_of a b e f = if a then some e else if b then some f else none

unfoldable pub resource_flink_statement_diff : FlinkChanges → FlinkData → Option FlinkPlanError
resource_flink_statement_diff changes d =
    if not (not_empty d.id)
    then none
    else if not d.old_stopped && d.stopped
    then first_of changes.principal changes.compute_pool principal_with_stop compute_pool_with_stop
    else if not (differ d.old_stopped d.stopped)
    then first_of changes.principal changes.compute_pool principal_without_resume
        compute_pool_without_resume
    else none
