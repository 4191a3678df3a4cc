-- ===== src/Zanzibar/Engine/Runs.antt =====
-- What one run of a step does to the budget of limits.rs, and a rule for each way to build a step.
use hub_rs.Prelude.{ℕ, suc, ◌+◌, ◌≤◌, ◌≡◌, ◌≢◌, Bool, List, [], ◌∷◌, arith, list_eq, nat_eq}
use hub_rs.Zanzibar.Error.{Result}
use hub_rs.Zanzibar.Error
use hub_rs.Zanzibar.Engine.State.{
  CheckKey, CheckCache, Outcome, ok, err, out_of_fuel, M, continue, ◌>>=◌, pure, lift, charge,
  guarded, cached, memoize, max_evaluation_depth, max_evaluation_steps,
}
use hub_rs.Zanzibar.Engine.Evaluate.{Eval, for_each}

-- What one run does to the budget: the depth is given back, the steps only grow and stay within
-- the limit, and with `n` levels of fuel for the depth that is left the fuel is not missed.
pub record Spends {A : Type 0} (n : ℕ) (s : CheckCache) (out : Outcome A × CheckCache)
    : Type 0 where
  pub depth : out.1.depth ≡ s.depth
  pub grows : s.steps ≤ out.1.steps
  pub capped : s.steps ≤ max_evaluation_steps → out.1.steps ≤ max_evaluation_steps
  pub fuelled : max_evaluation_depth ≤ s.depth + n → out.0 ≢ out_of_fuel

pub record Runs {A : Type 0} (n : ℕ) (m : M A) : Type 0 where
  pub at : (s : CheckCache) → Spends n s (m s)

module _ {A : Type 0} (n : ℕ) where
  pub Runs-pure : (a : A) → Runs n (pure a)
  unfolding pure
  Runs-pure a = record { at = λ s. ground arith }

  pub Runs-lift : (r : Result A) → Runs n (lift r)
  unfolding lift
  Runs-lift (Error.ok a) = record { at = λ s. ground arith }
  Runs-lift (Error.err e) = record { at = λ s. ground arith }

pub Runs-charge : (n : ℕ) → Runs n charge
unfolding charge
Runs-charge n = record { at = λ s. ground arith }

pub Runs-cached : (n : ℕ) (key : CheckKey) → Runs n (cached key)
unfolding cached
Runs-cached n key = record { at = λ s. ground arith }

pub Runs-memoize : (n : ℕ) (key : CheckKey) (value : Bool) → Runs n (memoize key value)
unfolding memoize
Runs-memoize n key value = record { at = λ s. ground arith }

module _ {A B : Type 0} (n : ℕ) where
  Spends-continue :
      (s : CheckCache) (r : Outcome A) (s' : CheckCache) (f : A → M B)
      → Spends n s (r, s')
      → ((a : A) → Runs n (f a))
      → Spends n s (continue r f s')
  Spends-continue s (ok a) s' f h k = ground (arith, (k a).at s')
  Spends-continue s (err e) s' f h k = ground arith
  Spends-continue s out_of_fuel s' f h k = ground arith

  pub Runs-bind : (m : M A) (f : A → M B) → Runs n m → ((a : A) → Runs n (f a)) → Runs n (m >>= f)
  unfolding ◌>>=◌
  Runs-bind m f hm hf = record {
    at = λ s. let (r, s') = m s in Spends-continue s r s' f (hm.at s) hf;
  }

pub Runs-guarded : {A : Type 0} (n : ℕ) (body : M A) → Runs n body → Runs (suc n) (guarded body)
unfolding guarded
Runs-guarded n body h = record {
  at = λ s. ground (arith, h.at (record s { steps = s.steps + 1; depth = s.depth + 1 }));
}

pub Runs-out_of_fuel : {A : Type 0} → Runs {A = A} 0 (guarded (λ s. (out_of_fuel, s)))
unfolding guarded
Runs-out_of_fuel = record { at = λ s. ground arith }

pub ruleset runs_rules = (Runs-pure, Runs-lift, Runs-charge, Runs-cached, Runs-memoize, Runs-bind)

module _ {A : Type 0} (n : ℕ) (step : A → Bool → (Bool → M Eval) → M Eval)
    (step_runs : (x : A) (t : Bool) (k : Bool → M Eval)
      → ((b : Bool) → Runs n (k b))
      → Runs n (step x t k))
    (finish : Bool → M Eval) (finish_runs : (t : Bool) → Runs n (finish t)) where
  pub Runs-for_each : (xs : List A) (t : Bool) → Runs n (for_each step xs t finish)
  unfolding for_each
  Runs-for_each [] t = finish_runs t
  Runs-for_each (x ∷ xs) t =
      Runs-bind n charge _ (Runs-charge n) (λ _. step_runs x t _ (λ b. Runs-for_each xs b))
