-- ===== src/Inject/Index.antt =====
-- The index of the actions that `inject` (beeper/src/http1/parser.rs, beeper/src/http2/parser.rs)
-- builds: distinct actions have distinct numbers, and none has the number of the no-op.
use beeper.Prelude.{
  ℕ, ◌+◌, ◌≤◌, ◌<◌, ◌≡◌, refl, sym, ◌∙◌, ◌⊎◌, inl, inr, Option, none, some, Option-cases,
  Bool-cases, Eq, ◌==◌, length, arith, ==_refl, ◌∷◌, [], ==_iff,
}
use beeper.Map.{Map, IsUnique, lookup, insert, lookup-insert, insert-IsUnique, length-insert}
use beeper.Inject.{option_eq, index_of}

module _ {A : Type 0} ⦃eq : Eq A⦄ where
  pub record IsIndex (idx : Map (Option A) ℕ) : Type 0 where
    pub noop : lookup none idx ≡ some 0
    pub below : (a : Option A) (k : ℕ) → lookup a idx ≡ some k → k < length idx
    pub injective : (a b : Option A) (k : ℕ) → lookup a idx ≡ some k → lookup b idx ≡ some k → a ≡ b
    pub unique : IsUnique idx

  -- The action has the number `r.0` in the index `r.1`, which keeps what `idx` holds.
  pub record Numbered (idx : Map (Option A) ℕ) (a : Option A) (r : ℕ × Map (Option A) ℕ)
      : Type 0 where
    pub index : IsIndex r.1
    pub found : lookup a r.1 ≡ some r.0
    pub kept : (b : Option A) (j : ℕ) → lookup b idx ≡ some j → lookup b r.1 ≡ some j
    pub number : r.0 ≤ length idx
    pub size : (length r.1 ≡ length idx) ⊎ ((length r.1 ≡ length idx + 1) × (r.0 ≡ length idx))

  module _ (idx : Map (Option A) ℕ) (a : Option A) (k : ℕ) where
    -- A key found after the insertion is the new one, or was there before.
    insert-cases :
        (b : Option A) (j : ℕ)
        → lookup b (insert a k idx) ≡ some j
        → ((a ≡ b) × (k ≡ j)) ⊎ (lookup b idx ≡ some j)
    insert-cases b j h = elim (Bool-cases (a == b)) [
      | inl same ↦ inl ((==_iff a b).0 same, ground (arith, lookup-insert a b k idx))
      | inr other ↦ inr (ground (arith, lookup-insert a b k idx))
    ]

    insert-kept :
        lookup a idx ≡ none
        → (b : Option A) (j : ℕ) → lookup b idx ≡ some j
        → lookup b (insert a k idx) ≡ some j
    insert-kept absent b j h = elim (Bool-cases (a == b)) [
      | inl same ↦ let e : a ≡ b = (==_iff a b).0 same in absurd (cc (rw (← e) at h))
      | inr other ↦ rw lookup-insert (rw other h)
    ]

  insert-Numbered :
      (idx : Map (Option A) ℕ) (a : Option A)
      → IsIndex idx
      → lookup a idx ≡ none
      → Numbered idx a (length idx, insert a (length idx) idx)
  insert-Numbered idx a h absent =
      let n : ℕ = length idx in
      let size : length (insert a n idx) ≡ n + 1 = length-insert a n idx absent in
      record {
        index = record {
          noop = insert-kept idx a n absent none 0 h.noop;
          below = λ b j e. elim (insert-cases idx a n b j e) [
            | inl (_, q) ↦ omega arith
            | inr old ↦ omega (arith, h.below b j old)
          ];
          injective = λ b c j e f. elim (insert-cases idx a n b j e) [
            | inl (p, q) ↦ elim (insert-cases idx a n c j f) [
              | inl (p', _) ↦ sym p ∙ p'
              | inr old ↦ absurd (omega (arith, h.below c j old))
            ]
            | inr old ↦ elim (insert-cases idx a n c j f) [
              | inl (_, q) ↦ absurd (omega (arith, h.below b j old))
              | inr old' ↦ h.injective b c j old old'
            ]
          ];
          unique = insert-IsUnique a n idx h.unique;
        };
        found = rw lookup-insert (rw ==_refl);
        kept = insert-kept idx a n absent;
        number = omega arith;
        size = inr (size, refl);
      }

  -- `entry(action).or_insert(len)` numbers the actions in the order in which they come up.
  pub index_of-Numbered :
      (idx : Map (Option A) ℕ) (a : Option A) → IsIndex idx → Numbered idx a (index_of idx a)
  unfolding index_of
  index_of-Numbered idx a h = elim (Option-cases (lookup a idx)) [
    | inl absent ↦ rw (absent, index_of) (insert-Numbered idx a h absent)
    | inr (k, found) ↦
        rw (found, index_of)
          (record {
            index = h;
            found = found;
            kept = λ b j e. e;
            number = omega (arith, h.below a k found);
            size = inl refl;
          })
  ]

  first_entry : (a : Option A) (k : ℕ) → lookup a ((none, 0) ∷ []) ≡ some k → (a ≡ none) × (k ≡ 0)
  unfolding lookup
  first_entry none k h = (refl, ground arith)
  first_entry (some a) k h = absurd (cc h)

  -- The index that `inject` starts with.
  pub first-IsIndex : IsIndex ((none, 0) ∷ [])
  first-IsIndex = record {
    noop = unfold lookup in refl;
    below = λ a k h. omega (arith, first_entry a k h);
    injective = λ a b k h h'. (first_entry a k h).0 ∙ sym (first_entry b k h').0;
    unique = unfold lookup in (refl, tt);
  }
