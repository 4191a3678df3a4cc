-- ===== src/Zanzibar/Engine/State.antt =====
-- crates/zanzibar/src/engine/limits.rs and cache.rs: the work budget, the memo table and the trail
-- of one traversal. The traversal awaits one future at a time, so its steps run in sequence over
-- the state `CheckCache`; what was charged or memoized before an error stays.
use hub_rs.Prelude.{
  ℕ, ◌+◌, ◌-◌, Bool, true, false, Option, List, [], ◌∷◌, ◌≡◌, ◌↔◌, arith, Eq, ◌==◌, nat_eq, list_eq,
  ◌&&◌, ◌||◌, ltb, leb, if◌then◌else◌,
}
use hub_rs.Prelude.Map.{Map, get, insert}
use hub_rs.Text.{Text}
use hub_rs.Identity.{Did, did_beq, did_beq_iff}
use hub_rs.Zanzibar.Error
use hub_rs.Zanzibar.Error.{Error, Result, evaluation_limit_exceeded, Limit, steps, depth}

-- `NodeId(resource, object_id, relation)`.
pub record NodeId : Type 0 where
  pub resource : Text
  pub object_id : Text
  pub relation : Text

unfoldable pub node_beq : NodeId → NodeId → Bool
node_beq a b = a.resource == b.resource && a.object_id == b.object_id && a.relation == b.relation

pub node_beq_iff : (a b : NodeId) → (node_beq a b ≡ true) ↔ (a ≡ b)
unfolding node_beq
node_beq_iff a b = ground (
  arith,
  (list_eq {A = ℕ}).beq_iff a.resource b.resource,
  (list_eq {A = ℕ}).beq_iff a.object_id b.object_id,
  (list_eq {A = ℕ}).beq_iff a.relation b.relation,
)

-- `NodeTrail`, a set of nodes.
abbrev pub NodeTrail : Type 0
NodeTrail = List NodeId

unfoldable pub trail_contains : NodeTrail → NodeId → Bool
trail_contains [] node = false
trail_contains (n ∷ trail) node = node_beq n node || trail_contains trail node

abbrev pub with_node : NodeTrail → NodeId → NodeTrail
with_node trail node = node ∷ trail

-- `CheckKey(policy, node, subject)`.
pub record CheckKey : Type 0 where
  pub policy : Text
  pub node : NodeId
  pub subject : Did

unfoldable pub key_beq : CheckKey → CheckKey → Bool
key_beq a b = a.policy == b.policy && node_beq a.node b.node && did_beq a.subject b.subject

pub key_beq_iff : (a b : CheckKey) → (key_beq a b ≡ true) ↔ (a ≡ b)
unfolding key_beq
key_beq_iff a b = ground (
  arith,
  (list_eq {A = ℕ}).beq_iff a.policy b.policy,
  node_beq_iff a.node b.node,
  did_beq_iff a.subject b.subject,
)

instance abbrev pub key_eq : Eq CheckKey
key_eq = record { beq = key_beq; beq_iff = key_beq_iff }

abbrev pub max_evaluation_depth : ℕ
max_evaluation_depth = 64

abbrev pub max_evaluation_steps : ℕ
max_evaluation_steps = 10_000

-- `CheckCache` with its `EvaluationBudget` flattened.
pub record CheckCache : Type 0 where
  pub steps : ℕ
  pub depth : ℕ
  pub results : Map CheckKey Bool

abbrev pub new_cache : CheckCache
new_cache = record { steps = 0; depth = 0; results = [] }

-- `out_of_fuel` is of the model: the recursion of the evaluator is on fuel.
pub data Outcome {ℓ} (A : Type ℓ) : Type ℓ where
  ok : A → Outcome A
  err : Error → Outcome A
  out_of_fuel : Outcome A

abbrev pub M : Type 0 → Type 0
M A = CheckCache → Outcome A × CheckCache

module _ {A B : Type 0} where
  abbrev pub continue : Outcome A → (A → M B) → M B
  continue (ok a) f s = f a s
  continue (err e) f s = (err e, s)
  continue out_of_fuel f s = (out_of_fuel, s)

  infixl 5 ◌>>=◌ ◌>>◌
  unfoldable pub ◌>>=◌ : M A → (A → M B) → M B
  ◌>>=◌ m f s = let (r, s') = m s in continue r f s'

  abbrev pub ◌>>◌ : M A → M B → M B
  m >> k = m >>= λ _. k

module _ {A : Type 0} where
  unfoldable pub pure : A → M A
  pure a s = (ok a, s)

  abbrev outcome : Result A → Outcome A
  outcome (Error.ok a) = ok a
  outcome (Error.err e) = err e

  -- `?` on a result that does not touch the traversal's state.
  unfoldable pub lift : Result A → M A
  lift r s = (outcome r, s)

-- `EvaluationBudget::charge`.
unfoldable pub charge : M (Unit {0})
charge s =
    if ltb s.steps max_evaluation_steps
    then (ok tt, record s { steps = s.steps + 1 })
    else (err (evaluation_limit_exceeded Limit.steps), s)

-- The second half of `EvaluationBudget::enter`: what was added is taken off again on failure.
unfoldable pub enter_depth : M (Unit {0})
enter_depth s =
    if leb max_evaluation_depth s.depth
    then (err (evaluation_limit_exceeded Limit.depth), s)
    else (ok tt, record s { depth = s.depth + 1 })

unfoldable pub enter : M (Unit {0})
unfolding ◌>>=◌ charge enter_depth
enter = charge >> enter_depth

-- Dropping the `EvaluationGuard`.
unfoldable pub leave : CheckCache → CheckCache
leave s = record s { depth = s.depth - 1 }

-- A body under the guard, which is dropped on every way out.
unfoldable pub guarded : {A : Type 0} → M A → M A
unfolding enter leave
guarded body = enter >> λ s. let (r, s') = body s in (r, leave s')

-- `CheckCache::get`.
unfoldable pub cached : CheckKey → M (Option Bool)
cached key s = (ok (get key s.results), s)

-- `CheckCache::set`.
unfoldable pub memoize : CheckKey → Bool → M (Unit {0})
memoize key value s = (ok tt, record s { results = insert key value s.results })
