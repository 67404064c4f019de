-- ===== src/TimeAuthority/Bound.antt =====
-- The bound that a grant carries: no live node's next event and lookahead lie below it, and it is
-- the best such bound, where the floats are exact.
use mathlib.Core.Option.{some-injective, none-ne-some}
use qfabric.Prelude.{
  ℕ, zero, suc, ◌+◌, ◌≤◌, ◌^◌, ◌≡◌, refl, ◌∙◌, ap, inl, inr, Option-cases, none, some, List, [],
  ◌∷◌, get_elem?, arith, Bool-cases, leb,
}
use qfabric.TimeAuthority.{NodeState, horizon, lbts}

-- A bound that is no later than a node's next event and its lookahead.
abbrev pub IsBelow : ℕ → NodeState → Type 0
IsBelow b n = (t : ℕ) → n.next_ps ≡ some t → b ≤ t + n.lookahead_ps

-- The times of a node that the authority adds are within the integers that floats represent exactly.
abbrev pub InRange : NodeState → Type 0
InRange n = (t : ℕ) → n.next_ps ≡ some t → t + n.lookahead_ps ≤ 2 ^ 53

module _ (float_of : ℕ → ℕ) where
  -- Without a bound every node is idle.
  pub lbts_idle :
      (nodes : List (ℕ × NodeState)) (i name : ℕ) (n : NodeState)
      → lbts float_of nodes ≡ none
      → get_elem? nodes i ≡ some (name, n)
      → n.next_ps ≡ none
  unfolding lbts
  lbts_idle [] i name n e at = absurd (none-ne-some _ at)
  lbts_idle ((name', n') ∷ nodes) zero name n e at =
      let same : n' ≡ n = ap (λ p. p.1) (some-injective (name', n') (name, n) at) in
      let next : n'.next_ps ≡ n.next_ps = ap (λ (p : NodeState). p.next_ps) same in
      ground (arith, next, e)
  lbts_idle ((name', n') ∷ nodes) (suc i) name n e at =
      lbts_idle nodes i name n (ground (arith, e)) at

  -- The bound is some node's own.
  pub lbts_attained :
      (nodes : List (ℕ × NodeState)) (b : ℕ)
      → lbts float_of nodes ≡ some b
      → (i : ℕ) × (name : ℕ) × (n : NodeState) × (get_elem? nodes i ≡ some (name, n))
        × (horizon float_of n ≡ some b)
  unfolding lbts
  lbts_attained [] b e = absurd (none-ne-some _ e)
  lbts_attained ((name, n) ∷ nodes) b e = elim (Option-cases (lbts float_of nodes)) [
    | inl h ↦ (0, name, n, refl, ground (arith, h, e))
    | inr (b', h) ↦
        let (i, name', n', at, own) = lbts_attained nodes b' h in
        elim (Option-cases (horizon float_of n)) [
          | inl idle ↦ (suc i, name', n', at, ground (arith, own, h, idle, e))
          | inr (b₁, first) ↦ elim (Bool-cases (leb b₁ b')) [
            | inl le ↦ (0, name, n, refl, ground (arith, h, first, e, le))
            | inr gt ↦ (suc i, name', n', at, ground (arith, own, h, first, e, gt))
          ]
        ]
  ]

  lbts-le :
      (nodes : List (ℕ × NodeState)) (b h i name : ℕ) (n : NodeState)
      → lbts float_of nodes ≡ some b
      → get_elem? nodes i ≡ some (name, n)
      → horizon float_of n ≡ some h
      → b ≤ h
  unfolding lbts
  lbts-le [] b h i name n e at own = absurd (none-ne-some _ e)
  lbts-le ((name', n') ∷ nodes) b h zero name n e at own =
      let same : horizon float_of n' ≡ some h =
        ap (λ (p : ℕ × NodeState). horizon float_of p.1) (some-injective (name', n') (name, n) at)
        ∙ own in
      elim (Option-cases (lbts float_of nodes)) [
        | inl none_below ↦ ground (arith, same, none_below, e)
        | inr (b', below) ↦ ground (arith, same, below, e)
      ]
  lbts-le ((name', n') ∷ nodes) b h (suc i) name n e at own =
      elim (Option-cases (lbts float_of nodes)) [
        | inl none_below ↦ absurd (ground (arith, lbts_idle nodes i name n none_below at, own))
        | inr (b', below) ↦
            let rest = lbts-le nodes b' h i name n below at own in
            elim (Option-cases (horizon float_of n')) [
              | inl idle ↦ ground (arith, below, idle, rest, e)
              | inr (b₁, first) ↦ ground (arith, below, first, rest, e)
            ]
      ]

  module _ (exact : (t : ℕ) → t ≤ 2 ^ 53 → float_of t ≡ t) where
    pub horizon-exact :
        (n : NodeState) (t : ℕ)
        → InRange n
        → n.next_ps ≡ some t
        → horizon float_of n ≡ some (t + n.lookahead_ps)
    horizon-exact n t fits next =
        let whole = fits t next in
        rw next (
          ap some (
            ap (λ (l : ℕ). float_of (t + l)) (exact n.lookahead_ps (omega (arith, whole)))
            ∙ exact (t + n.lookahead_ps) whole))

    pub lbts-IsBelow :
        (nodes : List (ℕ × NodeState)) (b i name : ℕ) (n : NodeState)
        → InRange n
        → lbts float_of nodes ≡ some b
        → get_elem? nodes i ≡ some (name, n)
        → IsBelow b n
    lbts-IsBelow nodes b i name n fits e at t h =
        lbts-le nodes b (t + n.lookahead_ps) i name n e at (horizon-exact n t fits h)
