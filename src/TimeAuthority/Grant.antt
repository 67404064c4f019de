-- ===== src/TimeAuthority/Grant.antt =====
-- What the authority decides, and when: the three outcomes of `_maybe_grant_locked`.
use mathlib.Core.Option.{some-injective, none-ne-some}
use qfabric.Prelude.{
  ℕ, zero, suc, ◌<◌, ◌≤◌, ◌^◌, ◌+◌, ◌⊎◌, ◌≡◌, ◌≢◌, refl, sym, ◌∙◌, ap, inl, inr, true, false,
  Bool-cases, Option-cases, Option, none, some, List, [], ◌∷◌, length, get_elem?, arith, ◌==◌,
}
use qfabric.TimeAuthority.{
  Authority, NodeState, Reply, rereport, grant, hello_ack, live, any_late, total_sent, total_recv,
  lbts, to_all, has_nodes, maybe_grant,
}
use qfabric.TimeAuthority.Bound.{
  IsBelow, InRange, lbts-IsBelow, lbts_idle, lbts_attained, horizon-exact,
}
use qfabric.TimeAuthority.Ready.{
  any_late-false, ready, asked_again, granted, waits, asks, grants, asked-waits, granted-waits,
  again, IsReported,
}

-- `_maybe_grant_locked` answers a round of reports once: called again on the state it leaves, it
-- changes nothing and sends nothing.
maybe_grant_idem :
    (float_of : ℕ → ℕ) (a : Authority)
    → maybe_grant float_of ((maybe_grant float_of a).0) ≡ ((maybe_grant float_of a).0, [])
maybe_grant_idem float_of a = elim (Bool-cases (ready a)) [
  | inr e ↦ again float_of a a [] (waits float_of a e) e
  | inl e ↦ elim (Bool-cases (total_sent a.nodes == total_recv a.nodes)) [
    | inl f ↦
        again float_of a (granted float_of a) _ (grants float_of a e f) (granted-waits float_of a e)
    | inr f ↦ again float_of a (asked_again a) _ (asks float_of a e f) (asked-waits float_of a e)
  ]
]

-- A grant of b, or of no bound, is safe: every live node has reported for this round, as many messages
-- were received as sent, b is no later than any live node's next event and its lookahead, and without a
-- bound every live node is idle.
pub record IsSafe (a : Authority) (bound : Option ℕ) : Type 0 where
  pub reports : IsReported a
  pub balanced : total_sent a.nodes ≡ total_recv a.nodes
  pub below :
      (b i name : ℕ) (n : NodeState)
      → bound ≡ some b
      → get_elem? (live a.nodes) i ≡ some (name, n)
      → IsBelow b n
  pub idle :
      (i name : ℕ) (n : NodeState)
      → bound ≡ none
      → get_elem? (live a.nodes) i ≡ some (name, n)
      → n.next_ps ≡ none

ready-IsReported : (a : Authority) → ready a ≡ true → IsReported a
ready-IsReported a e = record {
  joined = ground (arith, e);
  some_live = has-length (live a.nodes) (ground (arith, e));
  reported = λ i name n at. any_late-false a.round (live a.nodes) i name n (ground (arith, e)) at;
}
  where
    has-length : (nodes : List (ℕ × NodeState)) → has_nodes nodes ≡ true → 0 < length nodes
    has-length [] h = absurd (cc)
    has-length (x ∷ nodes) h = omega arith

get_elem?-to_all :
    (reply r : Reply) (nodes : List (ℕ × NodeState)) (i name : ℕ)
    → get_elem? (to_all reply nodes) i ≡ some (name, r)
    → reply ≡ r
unfolding to_all
get_elem?-to_all reply r [] i name at = absurd (cc)
get_elem?-to_all reply r ((name', n) ∷ nodes) zero name at =
    ap (λ (p : ℕ × Reply). p.1) (some-injective (name', reply) (name, r) at)
get_elem?-to_all reply r ((name', n) ∷ nodes) (suc i) name at =
    get_elem?-to_all reply r nodes i name at

-- The times of all live nodes are within the integers that floats represent exactly.
abbrev pub AllInRange : Authority → Type 0
AllInRange a =
    (i name : ℕ) (n : NodeState) → get_elem? (live a.nodes) i ≡ some (name, n) → InRange n

module _ (float_of : ℕ → ℕ) (exact : (t : ℕ) → t ≤ 2 ^ 53 → float_of t ≡ t) where
  granted-IsSafe :
      (a : Authority) (bound : Option ℕ)
      → AllInRange a
      → ready a ≡ true
      → (total_sent a.nodes == total_recv a.nodes) ≡ true
      → lbts float_of (live a.nodes) ≡ bound
      → IsSafe a bound
  granted-IsSafe a bound fits e f b = record {
    reports = ready-IsReported a e;
    balanced = ground (arith, f);
    below = λ b' j name' n h at.
        lbts-IsBelow float_of exact (live a.nodes) b' j name' n (fits j name' n at) (b ∙ h) at;
    idle = λ j name' n h. lbts_idle float_of (live a.nodes) j name' n (b ∙ h);
  }

  -- With floats that are exact up to 2^53 and times of the live nodes up to there: whenever a call of
  -- `_maybe_grant_locked` sends a node a grant, its round is the authority's next one and the grant is
  -- safe: every live node has reported for the round, as many messages were received as sent, the
  -- bound is no later than any live node's next event and its lookahead, and if there is no bound every
  -- live node is idle.
  pub maybe_grant-IsSafe :
      (a : Authority) (i name round : ℕ) (bound : Option ℕ)
      → AllInRange a
      → get_elem? ((maybe_grant float_of a).1) i ≡ some (name, grant round bound)
      → (round ≡ suc a.round) × IsSafe a bound
  maybe_grant-IsSafe a i name round bound fits at = elim (Bool-cases (ready a)) [
    | inr e ↦ absurd (none-ne-some _ (ap (λ t. get_elem? (t.1) i) (sym (waits float_of a e)) ∙ at))
    | inl e ↦ elim (Bool-cases (total_sent a.nodes == total_recv a.nodes)) [
      | inr f ↦ absurd (
          rereport-grant round bound (
            get_elem?-to_all _ _ _ i name
              (ap (λ t. get_elem? (t.1) i) (sym (asks float_of a e f)) ∙ at)))
      | inl f ↦
          let same =
            get_elem?-to_all _ _ _ i name
              (ap (λ t. get_elem? (t.1) i) (sym (grants float_of a e f)) ∙ at) in
          (
            sym (ap (round_of round) same),
            granted-IsSafe a bound fits e f (ap (bound_of bound) same),
          )
    ]
  ]
    where
      round_of : ℕ → Reply → ℕ
      round_of d (grant r b) = r
      round_of d rereport = d
      round_of d (hello_ack k) = d

      bound_of : Option ℕ → Reply → Option ℕ
      bound_of d (grant r b) = b
      bound_of d rereport = d
      bound_of d (hello_ack k) = d

      rereport-grant : (r : ℕ) (b : Option ℕ) → rereport ≢ grant r b
      rereport-grant r b e = cc

get_elem?-to_all_same :
    (reply : Reply) (nodes : List (ℕ × NodeState)) (i name : ℕ) (n : NodeState)
    → get_elem? nodes i ≡ some (name, n)
    → get_elem? (to_all reply nodes) i ≡ some (name, reply)
unfolding to_all
get_elem?-to_all_same reply [] i name n at = absurd (cc)
get_elem?-to_all_same reply ((name', n') ∷ nodes) zero name n at =
    ap (λ (k : ℕ). some (k, reply)) (ap (λ p. p.0) (some-injective (name', n') (name, n) at))
get_elem?-to_all_same reply ((name', n') ∷ nodes) (suc i) name n at =
    get_elem?-to_all_same reply nodes i name n at

none_late :
    (r : ℕ) (nodes : List (ℕ × NodeState))
    → ((i name : ℕ) (n : NodeState) → get_elem? nodes i ≡ some (name, n) → n.round ≡ some r)
    → any_late r nodes ≡ false
unfolding any_late
none_late r [] h = refl
none_late r ((name, n) ∷ nodes) h =
    let now = h 0 name n refl in
    let later = none_late r nodes (λ i name' n' at. h (suc i) name' n' at) in
    ground (arith, now, later)

IsReported-ready : (a : Authority) → IsReported a → ready a ≡ true
IsReported-ready a h =
    let late = none_late a.round (live a.nodes) h.reported in
    ground (arith, h.joined, late, has_nodes-length (live a.nodes) h.some_live)
  where
    has_nodes-length : (nodes : List (ℕ × NodeState)) → 0 < length nodes → has_nodes nodes ≡ true
    has_nodes-length [] h = absurd (omega arith)
    has_nodes-length (x ∷ nodes) h = refl

-- A safe bound that is also the latest: some live node's next event and lookahead are at it.
pub record IsLatest (a : Authority) (bound : Option ℕ) : Type 0 where
  pub safe : IsSafe a bound
  pub attained :
      (b : ℕ)
      → bound ≡ some b
      → (i : ℕ) × (name : ℕ) × (n : NodeState) × (t : ℕ) × (get_elem? (live a.nodes) i
          ≡ some (name, n))
        × (n.next_ps ≡ some t)
        × (b ≡ t + n.lookahead_ps)

module _ (float_of : ℕ → ℕ) (exact : (t : ℕ) → t ≤ 2 ^ 53 → float_of t ≡ t) where
  lbts-IsLatest :
      (a : Authority)
      → AllInRange a
      → ready a ≡ true
      → (total_sent a.nodes == total_recv a.nodes) ≡ true
      → IsLatest a (lbts float_of (live a.nodes))
  lbts-IsLatest a fits e f = record {
    safe = granted-IsSafe float_of exact a _ fits e f refl;
    attained = λ b at.
        let (i, name, n, here, own) = lbts_attained float_of (live a.nodes) b at in
        elim (Option-cases n.next_ps) [
          | inl idle ↦ absurd (ground (arith, idle, own))
          | inr (t, next) ↦
              let whole = horizon-exact float_of exact n t (fits i name n here) next in
              (i, name, n, t, here, next, some-injective _ _ (sym own ∙ whole))
        ];
  }

  -- With floats that are exact up to 2^53 and times of the live nodes up to there: once all nodes have
  -- joined and every live node has reported for this round, `_maybe_grant_locked` answers every live
  -- node. If as many messages were received as sent, with a grant of the next round, whose bound is
  -- the latest safe one; and if not, with a request to report again.
  pub maybe_grant_answers :
      (a : Authority) (i name : ℕ) (n : NodeState)
      → AllInRange a
      → IsReported a
      → get_elem? (live a.nodes) i ≡ some (name, n)
      → ((total_sent a.nodes ≢ total_recv a.nodes)
          × (get_elem? ((maybe_grant float_of a).1) i ≡ some (name, rereport)))
        ⊎ ((total_sent a.nodes ≡ total_recv a.nodes)
            × (bound : Option ℕ) × (get_elem? ((maybe_grant float_of a).1) i
                ≡ some (name, grant (suc a.round) bound))
            × IsLatest a bound)
  maybe_grant_answers a i name n fits h at =
      let e = IsReported-ready a h in
      elim (Bool-cases (total_sent a.nodes == total_recv a.nodes)) [
        | inl f ↦ inr (
          ground (arith, f),
          lbts float_of (live a.nodes),
          rw (grants float_of a e f) (get_elem?-to_all_same _ _ i name n at),
          lbts-IsLatest a fits e f,
        )
        | inr f ↦ inl (
          (λ same. absurd (ground (arith, f, same))),
          rw (asks float_of a e f) (get_elem?-to_all_same _ _ i name n at),
        )
      ]
