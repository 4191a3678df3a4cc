-- ===== src/Zanzibar/Engine/Check.antt =====
-- crates/zanzibar/src/engine/mod.rs: single checks, and batches over one cache and one budget.
use hub_rs.Prelude.{Bool, List, [], ◌∷◌}
use hub_rs.Text.{Text}
use hub_rs.Identity.{Did}
use hub_rs.Zanzibar.Engine.State.{
  NodeId, M, Outcome, ◌>>=◌, pure, CheckCache, new_cache, max_evaluation_depth,
}
use hub_rs.Zanzibar.Engine.Evaluate.{PermissionEngine, Eval, evaluate_node, evaluate_expr_inner}

-- `PermissionCheckRequest`.
pub record PermissionCheckRequest : Type 0 where
  pub policy_id : Text
  pub resource : Text
  pub object_id : Text
  pub relation : Text
  pub subject : Did

abbrev pub node_of : PermissionCheckRequest → NodeId
node_of r = record { resource = r.resource; object_id = r.object_id; relation = r.relation }

-- `PermissionEngine::check_with_cache`: the root node is on its own trail.
unfoldable pub check_with_cache : PermissionEngine → PermissionCheckRequest → M Bool
check_with_cache engine r =
    evaluate_node engine r.policy_id r.subject
      (evaluate_expr_inner engine r.policy_id r.subject max_evaluation_depth) (node_of r)
      (node_of r ∷ [])
    >>= λ (e : Eval). pure e.0

-- `PermissionEngine::check`.
unfoldable pub check : PermissionEngine → PermissionCheckRequest → Outcome Bool
unfolding check_with_cache
check engine r = (check_with_cache engine r new_cache).0

-- The loop of `check_many`.
unfoldable pub check_each :
    PermissionEngine → List PermissionCheckRequest → CheckCache → List (Outcome Bool) × CheckCache
unfolding check_with_cache
check_each engine [] cache = ([], cache)
check_each engine (r ∷ rs) cache =
    let (result, cache') = check_with_cache engine r cache in
    let (results, last) = check_each engine rs cache' in (result ∷ results, last)

-- `PermissionEngine::check_many`.
unfoldable pub check_many : PermissionEngine → List PermissionCheckRequest → List (Outcome Bool)
unfolding check_each
check_many engine rs = (check_each engine rs new_cache).0
