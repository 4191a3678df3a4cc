-- ===== src/Zanzibar/Engine/LoopVerdict.antt =====
-- The loops over stored tuples judge the edges that they run through.
use hub_rs.Prelude.{
  ℕ, zero, suc, Bool, true, false, List, [], ◌∷◌, map, ◌≡◌, refl, inl, inr, arith, Bool-cases, ◌||◌,
}
use hub_rs.Text.{Text}
use hub_rs.Identity.{Did}
use hub_rs.Zanzibar.Expression.{RelationExpression}
use hub_rs.Zanzibar.Engine.State.{NodeId, NodeTrail, trail_contains, M}
use hub_rs.Zanzibar.Engine.Evaluate.{
  PermissionEngine, Eval, Evaluator, for_each, denied, grant_or, follow,
}
use hub_rs.Zanzibar.Engine.Semantics.{
  Edge, grant, skip, to, granting, leading, later, done, skipping, denying,
}
use hub_rs.Zanzibar.Engine.Unfolding.{Fresh}
use hub_rs.Zanzibar.Engine.Ensures.{Ensures, Ensures-pure, Ensures-charge, Ensures-bind}
use hub_rs.Zanzibar.Engine.Ensures.{Ensures-weaken}
use hub_rs.Zanzibar.Engine.Verdict.{Verdict, Judged, ValueAt, NodeAt, LoopAt, Ensures-evaluate_node}

-- Nothing follows the loop.
abbrev pub nothing : Verdict
nothing = record { grants = ⊥; denies = Unit; blocked = Unit }

pub or_true : (t : Bool) → (t || true) ≡ false → ⊥
or_true t h = ground arith

pub or_false : (t : Bool) → (t || false) ≡ false → t ≡ false
or_false t h = ground arith

module _ (engine : PermissionEngine) (policy_id : Text) (subject : Did) where
  abbrev Loop : Bool → List Edge → NodeTrail → Verdict → Verdict
  Loop = LoopAt engine policy_id subject

  pub granted-Judged :
      (t : Bool) (es : List Edge) (trail : NodeTrail) (rest : Verdict)
      → Judged (Loop t (grant ∷ es) trail rest) (true, false)
  granted-Judged t es trail rest = (inl granting, refl)

  pub skip-Judged :
      (t : Bool) (es : List Edge) (trail : NodeTrail) (rest : Verdict) (y : Eval)
      → Judged (Loop t es trail rest) y
      → Judged (Loop t (skip ∷ es) trail rest) y
  skip-Judged t es trail rest (true, u) (inl h, p) = (inl (later h), p)
  skip-Judged t es trail rest (true, u) (inr r, p) = (inr r, p)
  skip-Judged t es trail rest (false, true) j = j
  skip-Judged t es trail rest (false, false) ((e, d, r), b) = ((e, skipping d, r), b)

  pub on_trail :
      (k : ℕ) (trail : NodeTrail) (n : NodeId)
      → trail_contains trail n ≡ true
      → ¬ Fresh engine policy_id subject k trail n
  on_trail zero trail n c h = h
  on_trail (suc k) trail n c h = cc (h.0)

  truncated-Judged :
      (t : Bool) (n : NodeId) (es : List Edge) (trail : NodeTrail) (rest : Verdict) (y : Eval)
      → trail_contains trail n ≡ true
      → Judged (Loop true es trail rest) y
      → Judged (Loop t (to n ∷ es) trail rest) y
  truncated-Judged t n es trail rest (true, u) c (inl h, p) = (inl (later h), p)
  truncated-Judged t n es trail rest (true, u) c (inr r, p) = (inr r, p)
  truncated-Judged t n es trail rest (false, true) c (f, r) =
      ((λ k. λ h. elim h [ inl g ↦ on_trail k trail n c g | inr g ↦ f k g ]), r)
  truncated-Judged t n es trail rest (false, false) c ((e, d, r), b) = cc

  denied-Judged :
      (t u : Bool) (n : NodeId) (es : List Edge) (trail : NodeTrail) (rest : Verdict) (y : Eval)
      → Judged (NodeAt engine policy_id subject n trail) (false, u)
      → Judged (Loop (t || u) es trail rest) y
      → Judged (Loop t (to n ∷ es) trail rest) y
  denied-Judged t u n es trail rest (true, v) j (inl h, p) = (inl (later h), p)
  denied-Judged t u n es trail rest (true, v) j (inr r, p) = (inr r, p)
  denied-Judged t true n es trail rest (false, true) j (f, r) =
      ((λ k. λ h. elim h [ inl g ↦ j k g | inr g ↦ f k g ]), r)
  denied-Judged t false n es trail rest (false, true) j (f, r) =
      ((λ k. λ h. elim h [ inl g ↦ j.1 k g | inr g ↦ f k g ]), r)
  denied-Judged t true n es trail rest (false, false) j ((e, d, r), b) = absurd (or_true t e)
  denied-Judged t false n es trail rest (false, false) j ((e, d, r), (f, s)) = (
    (or_false t e, denying j.0 d, r),
    ((λ k. λ h. elim h [ inl g ↦ j.1 k g | inr g ↦ f k g ]), s),
  )

  module _ (inner : Evaluator)
      (sound : (n : NodeId) (e : RelationExpression) (trail : NodeTrail)
        → Ensures engine
            (Judged (ValueAt engine policy_id subject n e trail))
            (inner n e trail)) where
    pub Ensures-follow :
        (n : NodeId) (t : Bool) (es : List Edge) (trail : NodeTrail) (rest : Verdict)
        (continue : Bool → M Eval)
        → ((b : Bool) → Ensures engine (Judged (Loop b es trail rest)) (continue b))
        → Ensures engine
            (Judged (Loop t (to n ∷ es) trail rest))
            (follow engine policy_id subject inner trail n t continue)
    unfolding follow
    Ensures-follow n t es trail rest continue h = elim (Bool-cases (trail_contains trail n)) [
      | inl c ↦
          rw c (Ensures-weaken engine _ (h true) (λ y j. truncated-Judged t n es trail rest y c j))
      | inr out ↦ rw out (
          Ensures-bind engine _ _
            (Ensures-evaluate_node engine policy_id subject inner sound n trail) after)
    ]
      where
        after :
            (x : Eval)
            → Judged (NodeAt engine policy_id subject n trail) x
            → Ensures engine
                (Judged (Loop t (to n ∷ es) trail rest))
                (grant_or engine policy_id subject t continue x)
        after (true, u) (v, p) = Ensures-pure engine _ _ (inl (leading v), p)
        after (false, u) j =
            Ensures-weaken engine _ (h (t || u)) (λ y. denied-Judged t u n es trail rest y j)

  pub Ensures-for_each :
      {A : Type 0} (edge : A → Edge) (trail : NodeTrail) (rest : Verdict)
      (step : A → Bool → (Bool → M Eval) → M Eval) (finish : Bool → M Eval)
      → ((x : A) (t : Bool) (es : List Edge) (k : Bool → M Eval)
          → ((b : Bool) → Ensures engine (Judged (Loop b es trail rest)) (k b))
          → Ensures engine (Judged (Loop t (edge x ∷ es) trail rest)) (step x t k))
      → ((t : Bool) → Ensures engine (Judged (Loop t [] trail rest)) (finish t))
      → (xs : List A) (t : Bool)
      → Ensures engine (Judged (Loop t (map edge xs) trail rest)) (for_each step xs t finish)
  unfolding for_each
  Ensures-for_each edge trail rest step finish each last [] t = last t
  Ensures-for_each edge trail rest step finish each last (x ∷ xs) t =
      Ensures-bind engine _ _ (Ensures-charge engine) λ _ _.
        each x t (map edge xs) _ (λ b. Ensures-for_each edge trail rest step finish each last xs b)

  pub Ensures-denied :
      (trail : NodeTrail) (t : Bool) → Ensures engine (Judged (Loop t [] trail nothing)) (denied t)
  Ensures-denied trail true = Ensures-pure engine _ _ ((λ k h. h), tt)
  Ensures-denied trail false = Ensures-pure engine _ _ ((refl, done, tt), ((λ k h. h), tt))
