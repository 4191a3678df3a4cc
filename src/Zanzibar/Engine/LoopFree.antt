-- ===== src/Zanzibar/Engine/LoopFree.antt =====
-- Derivations that visit no node twice on a branch.
use hub_rs.Prelude.{
  ℕ, zero, suc, ◌≤◌, true, List, [], ◌∷◌, map, ◌≡◌, ◌⊎◌, inl, inr, arith, subst, Bool-cases, sym,
}
use hub_rs.Text.{Text}
use hub_rs.Identity.{Did}
use hub_rs.Zanzibar.Expression.{
  RelationExpression, Expressions, this, computed_userset, tuple_to_userset, union, intersection,
  difference, nil, cons,
}
use hub_rs.Zanzibar.Engine.State.{NodeId, NodeTrail, trail_contains, node_beq, node_beq_iff}
use hub_rs.Zanzibar.Engine.Evaluate.{PermissionEngine}
use hub_rs.Zanzibar.Engine.Semantics.{Edge, grant, skip, to, this_edge, target_edge, subject_edge}
use hub_rs.Zanzibar.Engine.Unfolding.{AnyEdge, Holds, AnyHolds, AllHold, Within, Fresh}

module _ {G H : NodeId → Type 0} {C : Type 0} (f : (x : NodeId) → G x → H x ⊎ C) where
  AnyEdge-traverse : (es : List Edge) → AnyEdge G es → AnyEdge H es ⊎ C
  AnyEdge-traverse [] h = absurd h
  AnyEdge-traverse (grant ∷ es) h = inl tt
  AnyEdge-traverse (skip ∷ es) h = AnyEdge-traverse es h
  AnyEdge-traverse (to n ∷ es) (inl g) = elim (f n g) [ inl k ↦ inl (inl k) | inr c ↦ inr c ]
  AnyEdge-traverse (to n ∷ es) (inr h) = elim (AnyEdge-traverse es h) [
    | inl k ↦ inl (inr k)
    | inr c ↦ inr c
  ]

module _ (engine : PermissionEngine) (policy_id : Text) (subject : Did) where
  abbrev HoldsAt : (NodeId → Type 0) → NodeId → RelationExpression → Type 0
  HoldsAt = Holds engine policy_id subject

  module _ {G H : NodeId → Type 0} {C : Type 0} (f : (x : NodeId) → G x → H x ⊎ C) where
    mutual
      holds_traverse : (n : NodeId) (e : RelationExpression) → HoldsAt G n e → HoldsAt H n e ⊎ C
      holds_traverse n this (inl d) = inl (inl d)
      holds_traverse n this (inr (ss, p, h)) =
          elim (AnyEdge-traverse f (map (this_edge engine policy_id subject) ss) h) [
            | inl k ↦ inl (inr (ss, p, k))
            | inr c ↦ inr c
          ]
      holds_traverse n (computed_userset relation) h = f _ h
      holds_traverse n (tuple_to_userset tuple relation) (inl (ts, p, h)) =
          elim (AnyEdge-traverse f (map (target_edge relation) ts) h) [
            | inl k ↦ inl (inl (ts, p, k))
            | inr c ↦ inr c
          ]
      holds_traverse n (tuple_to_userset tuple relation) (inr (ss, p, h)) =
          elim (AnyEdge-traverse f (map (subject_edge relation) ss) h) [
            | inl k ↦ inl (inr (ss, p, k))
            | inr c ↦ inr c
          ]
      holds_traverse n (union es) h = any_traverse n es h
      holds_traverse n (intersection es) h = all_traverse n es h
      holds_traverse n (difference base subtract) (h, d) = elim (holds_traverse n base h) [
        | inl k ↦ inl (k, d)
        | inr c ↦ inr c
      ]

      any_traverse :
          (n : NodeId) (es : Expressions)
          → AnyHolds engine policy_id subject G n es
          → AnyHolds engine policy_id subject H n es ⊎ C
      any_traverse n nil h = absurd h
      any_traverse n (cons e es) (inl h) = elim (holds_traverse n e h) [
        | inl k ↦ inl (inl k)
        | inr c ↦ inr c
      ]
      any_traverse n (cons e es) (inr h) = elim (any_traverse n es h) [
        | inl k ↦ inl (inr k)
        | inr c ↦ inr c
      ]

      all_traverse :
          (n : NodeId) (es : Expressions)
          → AllHold engine policy_id subject G n es
          → AllHold engine policy_id subject H n es ⊎ C
      all_traverse n nil h = inl tt
      all_traverse n (cons e es) (h, hs) = elim (holds_traverse n e h) [
        | inl k ↦ elim (all_traverse n es hs) [ inl ks ↦ inl (k, ks) | inr c ↦ inr c ]
        | inr c ↦ inr c
      ]

  pub Holds-map :
      {G H : NodeId → Type 0} (f : (x : NodeId) → G x → H x) (n : NodeId) (e : RelationExpression)
      → HoldsAt G n e
      → HoldsAt H n e
  Holds-map f n e h = elim (holds_traverse {C = ⊥} (λ x g. inl (f x g)) n e h) [
    | inl k ↦ k
    | inr c ↦ absurd c
  ]

  pub AllHold-map :
      {G H : NodeId → Type 0} (f : (x : NodeId) → G x → H x) (n : NodeId) (es : Expressions)
      → AllHold engine policy_id subject G n es
      → AllHold engine policy_id subject H n es
  AllHold-map f n es h = elim (all_traverse {C = ⊥} (λ x g. inl (f x g)) n es h) [
    | inl k ↦ k
    | inr c ↦ absurd c
  ]

  pub Within-le :
      (j k : ℕ)
      → j ≤ k
      → (n : NodeId) → Within engine policy_id subject j n
      → Within engine policy_id subject k n
  Within-le zero k le n h = absurd h
  Within-le (suc j) zero le n h = elim le [ ]
  Within-le (suc j) (suc k) le n (e, p, h) = (e, p, Holds-map (Within-le j k (omega arith)) n e h)

  Fresh-suc :
      (k : ℕ) (trail : NodeTrail) (n : NodeId)
      → Fresh engine policy_id subject k trail n
      → Fresh engine policy_id subject (suc k) trail n
  Fresh-suc zero trail n h = absurd h
  Fresh-suc (suc k) trail n (out, e, p, h) = (out, e, p, Holds-map (Fresh-suc k (n ∷ trail)) n e h)

  -- A node of the trail that grants by at most `k` levels.
  abbrev Cycle : ℕ → NodeTrail → Type 0
  Cycle k trail =
      (t : NodeId) × (trail_contains trail t ≡ true) × Within engine policy_id subject k t

  Cycle-suc : (k : ℕ) (trail : NodeTrail) → Cycle k trail → Cycle (suc k) trail
  Cycle-suc k trail (t, c, h) = (t, c, Within-le k (suc k) (omega arith) t h)

  -- A grant avoids the trail, or runs through one of its nodes, which grants in as few levels.
  avoid :
      (k : ℕ) (trail : NodeTrail) (n : NodeId)
      → Within engine policy_id subject k n
      → Fresh engine policy_id subject k trail n ⊎ Cycle k trail
  unfolding trail_contains
  avoid zero trail n h = absurd h
  avoid (suc k) trail n (e, p, h) = elim (Bool-cases (trail_contains trail n)) [
    | inl c ↦ inr (n, c, (e, p, h))
    | inr out ↦ elim (holds_traverse (avoid k (n ∷ trail)) n e h) [
      | inl fresh ↦ inl (out, e, p, fresh)
      | inr (t, c, w) ↦ again t c w (avoid k trail n)
    ]
  ]
    where
      lower :
          Fresh engine policy_id subject k trail n ⊎ Cycle k trail
          → Fresh engine policy_id subject (suc k) trail n ⊎ Cycle (suc k) trail
      lower (inl fresh) = inl (Fresh-suc k trail n fresh)
      lower (inr c) = inr (Cycle-suc k trail c)

      again :
          (t : NodeId)
          → trail_contains (n ∷ trail) t ≡ true
          → Within engine policy_id subject k t
          → (Within engine policy_id subject k n
              → Fresh engine policy_id subject k trail n ⊎ Cycle k trail)
          → Fresh engine policy_id subject (suc k) trail n ⊎ Cycle (suc k) trail
      again t c w retry = elim (Bool-cases (node_beq n t)) [
        | inl same ↦
            lower (
              retry (subst (Within engine policy_id subject k) (sym ((node_beq_iff n t).0 same)) w))
        | inr other ↦ inr (Cycle-suc k trail (t, rw other at c, w))
      ]

  -- A node that grants does so with no node twice on a branch.
  pub Fresh-Within :
      (k : ℕ) (n : NodeId)
      → Within engine policy_id subject k n
      → Fresh engine policy_id subject k [] n
  unfolding trail_contains
  Fresh-Within k n h = elim (avoid k [] n h) [ inl fresh ↦ fresh | inr (t, c, w) ↦ cc ]
