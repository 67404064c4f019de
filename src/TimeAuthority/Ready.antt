-- ===== src/TimeAuthority/Ready.antt =====
-- When the authority waits, when it asks again and when it grants.
use mathlib.Core.Option.{some-injective}
use qfabric.Prelude.{
  ℕ, zero, suc, ◌≤◌, ◌<◌, ◌≡◌, ◌&&◌, refl, sym, ◌∙◌, ap, Bool, true, false, not, some, List, [],
  ◌∷◌, ◌++◌, length, get_elem?, arith, ltb, ◌==◌,
}
use qfabric.TimeAuthority.{
  Authority, NodeState, Reply, rereport, grant, live, any_late, total_sent, total_recv, lbts,
  reset_live, to_all, has_nodes, maybe_grant,
}

-- All nodes have joined, some are live, and each of these has reported for this round.
pub record IsReported (a : Authority) : Type 0 where
  pub joined : a.num_nodes ≤ length a.nodes
  pub some_live : 0 < length (live a.nodes)
  pub reported :
      (i name : ℕ) (n : NodeState)
      → get_elem? (live a.nodes) i ≡ some (name, n)
      → n.round ≡ some a.round

pub any_late-false :
    (r : ℕ) (nodes : List (ℕ × NodeState)) (i name : ℕ) (n : NodeState)
    → any_late r nodes ≡ false
    → get_elem? nodes i ≡ some (name, n)
    → n.round ≡ some r
unfolding any_late
any_late-false r [] i name n e at = absurd (cc)
any_late-false r ((name', n') ∷ nodes) zero name n e at =
    let same : n'.round ≡ n.round =
      ap (λ (p : ℕ × NodeState). (p.1).round) (some-injective (name', n') (name, n) at) in
    sym same ∙ ground (arith, e)
any_late-false r ((name', n') ∷ nodes) (suc i) name n e at =
    any_late-false r nodes i name n (ground (arith, e)) at

any_late-suc :
    (r : ℕ) (nodes : List (ℕ × NodeState))
    → has_nodes nodes ≡ true
    → any_late r nodes ≡ false
    → any_late (suc r) nodes ≡ true
unfolding any_late
any_late-suc r [] h e = absurd (cc)
any_late-suc r ((name, n) ∷ nodes) h e = ground (arith, e)

live-reset_live :
    (r : ℕ) (nodes : List (ℕ × NodeState))
    → has_nodes (live nodes) ≡ true
    → any_late r (live (reset_live nodes)) ≡ true
unfolding any_late live reset_live
live-reset_live r [] h = absurd (cc)
live-reset_live r ((name, n) ∷ nodes) h = ground (arith, live-reset_live r nodes)

length-reset_live : (nodes : List (ℕ × NodeState)) → length (reset_live nodes) ≡ length nodes
unfolding reset_live
length-reset_live [] = refl
length-reset_live ((name, n) ∷ nodes) = omega (arith, length-reset_live nodes)

-- The three early returns are not taken.
abbrev pub ready : Authority → Bool
ready a =
    not (ltb (length a.nodes) a.num_nodes)
    && has_nodes (live a.nodes)
    && not (any_late a.round (live a.nodes))

abbrev pub asked_again : Authority → Authority
asked_again a = record a { rereports = suc a.rereports; nodes = reset_live a.nodes }

module _ (float_of : ℕ → ℕ) where
  abbrev pub granted : Authority → Authority
  granted a = record a {
    round = suc a.round;
    grants = suc a.grants;
    lbts_history = a.lbts_history ++ lbts float_of (live a.nodes) ∷ [];
  }

  pub waits : (a : Authority) → ready a ≡ false → maybe_grant float_of a ≡ (a, [])
  unfolding maybe_grant
  waits a e = ground (arith, e)

  pub asks :
      (a : Authority)
      → ready a ≡ true
      → (total_sent a.nodes == total_recv a.nodes) ≡ false
      → maybe_grant float_of a ≡ (asked_again a, to_all rereport (live a.nodes))
  unfolding maybe_grant
  asks a e f = ground (arith, e, f)

  pub grants :
      (a : Authority)
      → ready a ≡ true
      → (total_sent a.nodes == total_recv a.nodes) ≡ true
      → maybe_grant float_of a
        ≡ (granted a, to_all (grant (suc a.round) (lbts float_of (live a.nodes))) (live a.nodes))
  unfolding maybe_grant
  grants a e f = ground (arith, e, f)

  pub asked-waits : (a : Authority) → ready a ≡ true → ready (asked_again a) ≡ false
  asked-waits a e = ground (arith, e, length-reset_live a.nodes, live-reset_live a.round a.nodes)

  pub granted-waits : (a : Authority) → ready a ≡ true → ready (granted a) ≡ false
  granted-waits a e = ground (arith, e, any_late-suc a.round (live a.nodes))

  pub again :
      (a a' : Authority) (replies : List (ℕ × Reply))
      → maybe_grant float_of a ≡ (a', replies)
      → ready a' ≡ false
      → maybe_grant float_of ((maybe_grant float_of a).0) ≡ ((maybe_grant float_of a).0, [])
  again a a' replies e f = rw e (waits a' f)
