-- ===== src/Zanzibar/Engine/Answers.antt =====
-- The answers of `check` and `check_many` in mod.rs, against the semantics.
use hub_rs.Prelude.{
  ℕ, Bool, true, false, List, [], ◌∷◌, ◌≡◌, ◌↔◌, refl, arith, ◌≢◌, ◌≤◌, ◌⊎◌, inl, inr, ◌&&◌, subst,
}
use hub_rs.Text.{Text}
use hub_rs.Identity.{Did}
use hub_rs.Prelude.Map.{get}
use hub_rs.Zanzibar.Expression.{RelationExpression}
use hub_rs.Zanzibar.Engine.State.{
  NodeId, NodeTrail, key_eq, CheckCache, new_cache, Outcome, ok, err, out_of_fuel,
  max_evaluation_depth, max_evaluation_steps,
}
use hub_rs.Zanzibar.Engine.Evaluate.{PermissionEngine, Eval, evaluate_expr_inner}
use hub_rs.Zanzibar.Engine.Check.{
  PermissionCheckRequest, node_of, check_with_cache, check, check_each, check_many,
}
use hub_rs.Zanzibar.Engine.Semantics.{Value, NodeValue}
use hub_rs.Zanzibar.Engine.LoopFree.{Fresh-Within}
use hub_rs.Zanzibar.Engine.Levels.{NodeValue-Within}
use hub_rs.Zanzibar.Engine.Ensures.{IsTrue, Post, Ensures, Ensures-pure, Ensures-bind}
use hub_rs.Zanzibar.Engine.Verdict.{Judged, ValueAt, NodeAt, Ensures-evaluate_node}
use hub_rs.Zanzibar.Engine.Budget.{check_with_cache-Spends}
use hub_rs.Zanzibar.Engine.Exact.{Ensures-evaluate_expr_inner}

-- The stored tuples and loaded expressions grant the request.
abbrev pub Granted : PermissionEngine → PermissionCheckRequest → Type 0
Granted engine r = NodeValue engine r.policy_id r.subject (node_of r) true

-- A value answers the request by whether it is granted; `out_of_fuel` answers nothing.
abbrev pub Answers : PermissionEngine → PermissionCheckRequest → Outcome Bool → Type 0
Answers engine r (ok b) = (b ≡ true) ↔ Granted engine r
Answers engine r (err e) = Unit
Answers engine r out_of_fuel = ⊥

root-Judged :
    (engine : PermissionEngine) (r : PermissionCheckRequest) (x : Eval)
    → Judged (NodeAt engine r.policy_id r.subject (node_of r) []) x
    → (x.0 ≡ true) ↔ Granted engine r
root-Judged engine r (true, t) (v, p) = ((λ _. v), (λ _. refl))
root-Judged engine r (false, t) j = ((λ e. cc), (λ v. absurd (blocked t j v)))
  where
    blocked :
        (t : Bool)
        → Judged (NodeAt engine r.policy_id r.subject (node_of r) []) (false, t)
        → ¬ Granted engine r
    blocked true b v =
        let (k, w) = NodeValue-Within engine r.policy_id r.subject v in
        b k (Fresh-Within engine r.policy_id r.subject k (node_of r) w)
    blocked false (d, b) v =
        let (k, w) = NodeValue-Within engine r.policy_id r.subject v in
        b k (Fresh-Within engine r.policy_id r.subject k (node_of r) w)

Ensures-check_with_cache :
    (engine : PermissionEngine) (r : PermissionCheckRequest)
    → Ensures engine (λ (b : Bool). (b ≡ true) ↔ Granted engine r) (check_with_cache engine r)
unfolding check_with_cache
Ensures-check_with_cache engine r =
    Ensures-bind engine _ _
      (Ensures-evaluate_node engine r.policy_id r.subject _
        (Ensures-evaluate_expr_inner engine r.policy_id r.subject max_evaluation_depth) (node_of r)
        [])
      (λ x j. Ensures-pure engine _ _ (root-Judged engine r x j))

Post-Answers :
    (engine : PermissionEngine) (r : PermissionCheckRequest) (o : Outcome Bool)
    → o ≢ out_of_fuel
    → Post engine (λ (b : Bool). (b ≡ true) ↔ Granted engine r) o
    → Answers engine r o
Post-Answers engine r (ok c) n p = p
Post-Answers engine r (err x) n p = tt
Post-Answers engine r out_of_fuel n p = n refl

pub IsTrue-new : (engine : PermissionEngine) → IsTrue engine new_cache.results
unfolding get
IsTrue-new engine = record { at_key = λ k b e. cc }

Answers-check :
    (engine : PermissionEngine) (r : PermissionCheckRequest) → Answers engine r (check engine r)
unfolding check
Answers-check engine r =
    Post-Answers engine r _ (check_with_cache-Spends engine r new_cache refl (omega arith)).0
      ((Ensures-check_with_cache engine r).at new_cache (IsTrue-new engine)).1

-- When a check returns a value, the value is true exactly if the stored tuples and the loaded
-- expressions grant the request: the cut of cycles, the exclusions and the memo table change no
-- answer.
pub check_exact :
    (engine : PermissionEngine) (r : PermissionCheckRequest) (b : Bool)
    → check engine r ≡ ok b
    → (b ≡ true) ↔ Granted engine r
check_exact engine r b h = subst (Answers engine r) h (Answers-check engine r)

-- Each result of a list answers its request.
abbrev pub AllAnswer : PermissionEngine → List PermissionCheckRequest → List (Outcome Bool) → Type 0
AllAnswer engine [] [] = Unit
AllAnswer engine (r ∷ rs) (o ∷ os) = Answers engine r o × AllAnswer engine rs os
AllAnswer engine _ _ = ⊥

-- A batch has one result for each request, in order; each is an error of the code or a value, and a
-- value is true exactly if its own request is granted, whatever the earlier requests of the batch
-- left in the shared memo table and budget.
pub check_many-AllAnswer :
    (engine : PermissionEngine) (rs : List PermissionCheckRequest)
    → AllAnswer engine rs (check_many engine rs)
unfolding check_many
check_many-AllAnswer engine rs = go rs new_cache refl (omega arith) (IsTrue-new engine)
  where
    go :
        (rs : List PermissionCheckRequest) (s : CheckCache)
        → s.depth ≡ 0
        → s.steps ≤ max_evaluation_steps
        → IsTrue engine s.results
        → AllAnswer engine rs (check_each engine rs s).0
    go [] s d m c = tt
    go (r ∷ rs) s d m c =
        let (c', p) = (Ensures-check_with_cache engine r).at s c in
        let (total, depth, grows, capped) = check_with_cache-Spends engine r s d m in
        (Post-Answers engine r _ total p, go rs (check_with_cache engine r s).1 depth capped c')

Judged-evaluation :
    (engine : PermissionEngine) (policy_id : Text) (subject : Did) (n : NodeId)
    (e : RelationExpression) (trail : NodeTrail) (b t : Bool)
    → Judged (ValueAt engine policy_id subject n e trail) (b, t)
    → ((b && t) ≡ false) × ((t ≡ true) ⊎ Value engine policy_id subject n e b)
Judged-evaluation engine policy_id subject n e trail true t (v, p) = (p, inr v)
Judged-evaluation engine policy_id subject n e trail false true j = (refl, inl refl)
Judged-evaluation engine policy_id subject n e trail false false (d, b) = (refl, inr d)

-- What an evaluation of an expression returns, on any trail and over a memo table of true values: a
-- grant is never tainted, and an untainted value is the value of the semantics, whatever the trail.
pub untainted_evaluation :
    (engine : PermissionEngine) (policy_id : Text) (subject : Did) (fuel : ℕ) (n : NodeId)
    (e : RelationExpression) (trail : NodeTrail) (s : CheckCache) (b t : Bool)
    → IsTrue engine s.results
    → (evaluate_expr_inner engine policy_id subject fuel n e trail s).0 ≡ ok (b, t)
    → ((b && t) ≡ false) × ((t ≡ true) ⊎ Value engine policy_id subject n e b)
untainted_evaluation engine policy_id subject fuel n e trail s b t c h =
    Judged-evaluation engine policy_id subject n e trail b t (
      subst (Post engine (Judged (ValueAt engine policy_id subject n e trail))) h
        ((Ensures-evaluate_expr_inner engine policy_id subject fuel n e trail).at s c).1)
