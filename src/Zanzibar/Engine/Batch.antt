-- ===== src/Zanzibar/Engine/Batch.antt =====
-- The work budget over a batch of checks: `check_many` of engine/mod.rs.
use hub_rs.Prelude.{ℕ, ◌+◌, ◌-◌, ◌≤◌, ◌≡◌, refl, List, [], ◌∷◌, Bool, arith}
use hub_rs.Zanzibar.Engine.State.{CheckCache, Outcome, max_evaluation_steps}
use hub_rs.Zanzibar.Engine.Evaluate.{PermissionEngine}
use hub_rs.Zanzibar.Engine.Check.{PermissionCheckRequest, check_with_cache, check_each}
use hub_rs.Zanzibar.Engine.Budget.{check_with_cache-Spends}

-- From a cache, the requests have these outcomes and take these numbers of steps, each on the cache
-- that the one before it left, and they leave the last cache.
pub data Spent (engine : PermissionEngine)
    : CheckCache
      → List PermissionCheckRequest
      → List (Outcome Bool)
      → List ℕ
      → CheckCache
      → Type 0 where
  spent_none : {s : CheckCache} → Spent engine s [] [] [] s
  spent_more :
      {s s' last : CheckCache} {r : PermissionCheckRequest} {rs : List PermissionCheckRequest}
      {outcome : Outcome Bool} {outcomes : List (Outcome Bool)} {cost : ℕ} {costs : List ℕ}
      → check_with_cache engine r s ≡ (outcome, s')
      → s.steps + cost ≡ s'.steps
      → Spent engine s' rs outcomes costs last
      → Spent engine s (r ∷ rs) (outcome ∷ outcomes) (cost ∷ costs) last

abbrev pub sum : List ℕ → ℕ
sum [] = 0
sum (cost ∷ costs) = cost + sum costs

-- The budget of a batch that starts on a cache whose depth counter is at zero, with at most 10,000
-- steps taken, is one for all its checks: each check runs on the cache that the one before it left;
-- the steps that the checks take add up to those of the last cache; with the steps taken before they
-- are 10,000 at most; and the depth counter is back at zero.
pub check_each-within :
    (engine : PermissionEngine) (rs : List PermissionCheckRequest) (s : CheckCache)
    → s.depth ≡ 0
    → s.steps ≤ max_evaluation_steps
    → let (outcomes, last) = check_each engine rs s in
      (costs : List ℕ) × Spent engine s rs outcomes costs last
      × (s.steps + sum costs ≡ last.steps)
      × (s.steps + sum costs ≤ max_evaluation_steps)
      × (last.depth ≡ 0)
unfolding check_each
check_each-within engine [] s d h = ([], spent_none, omega arith, omega (arith, h), d)
check_each-within engine (r ∷ rs) s d h =
    let s' = (check_with_cache engine r s).1 in
    let (fuelled, depth, grows, capped) = check_with_cache-Spends engine r s d h in
    let (costs, spent, added, within, zero_depth) = check_each-within engine rs s' depth capped in
    (
      (s'.steps - s.steps) ∷ costs,
      spent_more refl (omega (arith, grows)) spent,
      omega (arith, grows, added),
      omega (arith, grows, within),
      zero_depth,
    )
