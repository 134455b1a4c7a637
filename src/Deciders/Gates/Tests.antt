-- ===== src/Deciders/Gates/Tests.antt =====
-- A management request of a principal that may write.
use aios_tools.Prelude.{true, ◌≡◌, ◌↔◌}
use aios_tools.Deciders.Gates.{allow, CiRequest, evaluate_ci_mcp_authority}
use aios_tools.Deciders.Gates.Allowed.{IsAllowed, evaluate_ci_mcp_authority-IsAllowed}

abbrev request : CiRequest
request = record {
  capability_class = "manage";
  principal_class = "scoped_write";
  mutation_expected = true;
  effect_receipt_present = true;
  verified_schema_revision = "r1";
  observed_schema_revision = "r1";
}

evaluate_ci_mcp_authority-IsAllowed_example :
    ((evaluate_ci_mcp_authority request).verdict ≡ allow) ↔ IsAllowed request
evaluate_ci_mcp_authority-IsAllowed_example = evaluate_ci_mcp_authority-IsAllowed request
