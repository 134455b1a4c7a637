-- ===== src/Deciders/Gates/Allowed.antt =====
-- When the gate on the MCP of a build allows a request.
use aios_tools.Prelude.{true, ◌≡◌, ◌≢◌, ◌↔◌, ◌⊎◌, arith, string_eq, eq_iff}
use aios_tools.Deciders.Gates.{allow, CiRequest, evaluate_ci_mcp_authority}

-- The schema is the verified one, both classes are known, a principal that manages may write, and a
-- mutation has its receipt.
pub record IsAllowed (r : CiRequest) : Type 0 where
  pub revised : r.verified_schema_revision ≢ ""
  pub same_revision : r.verified_schema_revision ≡ r.observed_schema_revision
  pub classes :
      ((r.capability_class ≡ "investigate") × (r.principal_class ≡ "read_only"))
      ⊎ ((r.capability_class ≡ "investigate") × (r.principal_class ≡ "scoped_write"))
      ⊎ ((r.capability_class ≡ "manage") × (r.principal_class ≡ "scoped_write"))
  pub receipted : r.mutation_expected ≡ true → r.effect_receipt_present ≡ true

-- The gate allows just the requests on the verified schema, by a principal that may only read and
-- investigates, or by one that may write and investigates or manages, with a receipt of the effect
-- if a mutation is expected.
pub evaluate_ci_mcp_authority-IsAllowed :
    (r : CiRequest) → ((evaluate_ci_mcp_authority r).verdict ≡ allow) ↔ IsAllowed r
unfolding evaluate_ci_mcp_authority
evaluate_ci_mcp_authority-IsAllowed r = (
  λ h. record {
    revised = λ e. absurd (ground (arith, eq_iff r.verified_schema_revision ""));
    same_revision = ground (arith, eq_iff r.verified_schema_revision r.observed_schema_revision);
    classes = ground (
      arith,
      eq_iff r.capability_class "investigate",
      eq_iff r.capability_class "manage",
      eq_iff r.principal_class "read_only",
      eq_iff r.principal_class "scoped_write",
    );
    receipted = λ m. ground arith;
  },
  λ a. ground (
    arith,
    a.revised,
    a.same_revision,
    a.classes,
    a.receipted,
    eq_iff r.verified_schema_revision "",
    eq_iff r.observed_schema_revision "",
    eq_iff r.verified_schema_revision r.observed_schema_revision,
    eq_iff r.capability_class "investigate",
    eq_iff r.capability_class "manage",
    eq_iff r.principal_class "read_only",
    eq_iff r.principal_class "scoped_write",
    eq_iff "investigate" "manage",
    eq_iff "read_only" "scoped_write",
  ),
)
