-- ===== src/Zanzibar/Engine/Ensures.antt =====
-- Postconditions of the steps of a traversal, over memo tables that hold only true values; one rule
-- for each way to build a step.
use hub_rs.Prelude.{
  Bool, some, ◌≡◌, refl, Bool-cases, inl, inr, subst, sym, ◌∙◌, if◌then◌else◌, ltb, leb,
}
use hub_rs.Prelude.Map.{Map, get, get-insert}
use hub_rs.Zanzibar.Error.{Result}
use hub_rs.Zanzibar.Error
use hub_rs.Zanzibar.Engine.State.{
  CheckKey, key_eq, key_beq, key_beq_iff, CheckCache, Outcome, ok, err, out_of_fuel, M, continue,
  ◌>>=◌, pure, lift, charge, guarded, cached, memoize, enter, enter_depth, leave,
  max_evaluation_steps, max_evaluation_depth,
}
use hub_rs.Zanzibar.Engine.Evaluate.{PermissionEngine}
use hub_rs.Zanzibar.Engine.Semantics.{NodeValue}

module _ (engine : PermissionEngine) where
  -- What the key's value is, whatever the trail.
  abbrev pub KeyValue : CheckKey → Bool → Type 0
  KeyValue k b = NodeValue engine k.policy k.subject k.node b

  -- Every memoized value is the value of its key.
  pub record IsTrue (results : Map CheckKey Bool) : Type 0 where
    pub at_key : (k : CheckKey) (b : Bool) → get k results ≡ some b → KeyValue k b

  abbrev pub Post : {A : Type 0} → (A → Type 0) → Outcome A → Type 0
  Post P (ok a) = P a
  Post P _ = Unit

  Post-map :
      {A : Type 0} {P Q : A → Type 0} (r : Outcome A) → ((a : A) → P a → Q a) → Post P r → Post Q r
  Post-map (ok a) f p = f a p
  Post-map (err e) f p = tt
  Post-map out_of_fuel f p = tt

  pub record Ensures {A : Type 0} (P : A → Type 0) (m : M A) : Type 0 where
    pub at : (s : CheckCache) → IsTrue s.results → IsTrue (m s).1.results × Post P (m s).0

  module _ {A : Type 0} (P : A → Type 0) where
    pub Ensures-pure : (a : A) → P a → Ensures P (pure a)
    unfolding pure
    Ensures-pure a p = record { at = λ s c. (c, p) }

    pub Ensures-lift : (r : Result A) → ((a : A) → r ≡ Error.ok a → P a) → Ensures P (lift r)
    unfolding lift
    Ensures-lift (Error.ok a) p = record { at = λ s c. (c, p a refl) }
    Ensures-lift (Error.err e) p = record { at = λ s c. (c, tt) }

  pub Ensures-weaken :
      {A : Type 0} {P Q : A → Type 0} (m : M A) → Ensures P m → ((a : A) → P a → Q a) → Ensures Q m
  Ensures-weaken m h f = record { at = λ s c. let (c', p) = h.at s c in (c', Post-map (m s).0 f p) }

  pub Ensures-charge : Ensures (λ _. Unit) charge
  unfolding charge
  Ensures-charge = record {
    at = λ s c. elim (Bool-cases (ltb s.steps max_evaluation_steps)) [
      | inl e ↦ rw e (c, tt)
      | inr e ↦ rw e (c, tt)
    ];
  }

  Ensures-enter_depth : Ensures (λ _. Unit) enter_depth
  unfolding enter_depth
  Ensures-enter_depth = record {
    at = λ s c. elim (Bool-cases (leb max_evaluation_depth s.depth)) [
      | inl e ↦ rw e (c, tt)
      | inr e ↦ rw e (c, tt)
    ];
  }

  pub Ensures-cached :
      (k : CheckKey) → Ensures (λ o. (b : Bool) → o ≡ some b → KeyValue k b) (cached k)
  unfolding cached
  Ensures-cached k = record { at = λ s c. (c, c.at_key k) }

  insert_KeyValue :
      (k j : CheckKey) (b d : Bool) (results : Map CheckKey Bool)
      → KeyValue k b
      → IsTrue results
      → (if key_beq k j then some b else get j results) ≡ some d
      → KeyValue j d
  insert_KeyValue k j b d results v c h = elim (Bool-cases (key_beq k j)) [
    | inl same ↦
        let moved : KeyValue j b = subst (λ x. KeyValue x b) ((key_beq_iff k j).0 same) v in
        let stored : some b ≡ some d = rw same at h in
        let value : b ≡ d = cc stored in subst (KeyValue j) value moved
    | inr other ↦ c.at_key j d (rw other at h)
  ]

  pub Ensures-memoize : (k : CheckKey) (b : Bool) → KeyValue k b → Ensures (λ _. Unit) (memoize k b)
  unfolding memoize
  Ensures-memoize k b v = record {
    at = λ s c. (
      record {
        at_key =
            λ j d h. insert_KeyValue k j b d s.results v c (sym (get-insert k j b s.results) ∙ h);
      },
      tt,
    );
  }

  module _ {A B : Type 0} {P : A → Type 0} {Q : B → Type 0} where
    Post-continue :
        (r : Outcome A) (f : A → M B) (s : CheckCache)
        → IsTrue s.results
        → Post P r
        → ((a : A) → P a → Ensures Q (f a))
        → IsTrue (continue r f s).1.results × Post Q (continue r f s).0
    Post-continue (ok a) f s c p h = (h a p).at s c
    Post-continue (err e) f s c p h = (c, tt)
    Post-continue out_of_fuel f s c p h = (c, tt)

    pub Ensures-bind :
        (m : M A) (f : A → M B)
        → Ensures P m
        → ((a : A) → P a → Ensures Q (f a))
        → Ensures Q (m >>= f)
    unfolding ◌>>=◌
    Ensures-bind m f hm hf = record {
      at = λ s c. let (c', p) = hm.at s c in Post-continue (m s).0 f (m s).1 c' p hf;
    }

  module _ {A : Type 0} (P : A → Type 0) where
    Ensures-leave : (body : M A) → Ensures P body → Ensures P (λ s. ((body s).0, leave (body s).1))
    unfolding leave
    Ensures-leave body h = record { at = λ s c. h.at s c }

    pub Ensures-guarded : (body : M A) → Ensures P body → Ensures P (guarded body)
    unfolding guarded
    Ensures-guarded body h =
        Ensures-bind enter _ (Ensures-bind charge _ Ensures-charge (λ _ _. Ensures-enter_depth))
          (λ _ _. Ensures-leave body h)

    pub Ensures-out_of_fuel : Ensures P (guarded (λ s. (out_of_fuel, s)))
    Ensures-out_of_fuel = Ensures-guarded (λ s. (out_of_fuel, s)) (record { at = λ s c. (c, tt) })
