-- ===== src/Matches.antt =====
-- The table of captured headers that the parsers of beeper/src keep: every name has an id of its
-- own, below the number of ids handed out.
use beeper.Prelude.{
  ℕ, ◌+◌, ◌<◌, ◌≡◌, sym, ◌∙◌, ◌⊎◌, inl, inr, none, some, List, Bool-cases, ◌==◌, bytes_eq,
  bytes_beq_iff, ==_refl, arith,
}
use beeper.Map.{Map, lookup, insert, lookup-insert}
use beeper.Error.{MatchId}

abbrev pub Captures : Type 0
Captures = Map (List ℕ) MatchId

pub record AreDistinct (caps : Captures) (num : ℕ) : Type 0 where
  pub ids : (n : List ℕ) (mid : MatchId) → lookup n caps ≡ some mid → mid < num
  pub distinct :
      (m n : List ℕ) (mid : MatchId) → lookup m caps ≡ some mid → lookup n caps ≡ some mid → m ≡ n

module _ (n : List ℕ) (mid : MatchId) (caps : Captures) where
  pub lookup-insert_self : lookup n (insert n mid caps) ≡ some mid
  lookup-insert_self = rw lookup-insert (rw ==_refl)

  -- A name found after the insertion is the new one, or was there before.
  pub lookup-insert_cases :
      (m : List ℕ) (i : MatchId)
      → lookup m (insert n mid caps) ≡ some i
      → ((n ≡ m) × (mid ≡ i)) ⊎ (lookup m caps ≡ some i)
  lookup-insert_cases m i h = elim (Bool-cases (n == m)) [
    | inl same ↦ inl ((bytes_beq_iff n m).0 same, ground (arith, lookup-insert n m mid caps))
    | inr other ↦ inr (ground (arith, lookup-insert n m mid caps))
  ]

  pub lookup-insert_kept :
      lookup n caps ≡ none
      → (m : List ℕ) (i : MatchId) → lookup m caps ≡ some i
      → lookup m (insert n mid caps) ≡ some i
  lookup-insert_kept absent m i h = elim (Bool-cases (n == m)) [
    | inl same ↦ let e : n ≡ m = (bytes_beq_iff n m).0 same in absurd (cc (rw (← e) at h))
    | inr other ↦ rw lookup-insert (rw other h)
  ]

  pub insert-AreDistinct : AreDistinct caps mid → AreDistinct (insert n mid caps) (mid + 1)
  insert-AreDistinct h = record {
    ids = λ m i e. elim (lookup-insert_cases m i e) [
      | inl (_, same) ↦ omega arith
      | inr old ↦ omega (arith, h.ids m i old)
    ];
    distinct = λ m k i e f. elim (lookup-insert_cases m i e) [
      | inl (p, same) ↦ elim (lookup-insert_cases k i f) [
        | inl (q, _) ↦ sym p ∙ q
        | inr old ↦ absurd (omega (arith, h.ids k i old))
      ]
      | inr old ↦ elim (lookup-insert_cases k i f) [
        | inl (_, same) ↦ absurd (omega (arith, h.ids m i old))
        | inr old' ↦ h.distinct m k i old old'
      ]
    ];
  }
