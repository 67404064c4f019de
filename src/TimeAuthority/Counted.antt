-- ===== src/TimeAuthority/Counted.antt =====
-- The counts of the authority: grants, rounds and the history of bounds.
use qfabric.Prelude.{
  ℕ, ◌≡◌, refl, inl, inr, Bool, true, false, Bool-cases, Option-cases, List, [], ◌∷◌, length,
  length-append, arith, ◌==◌, if◌then◌else◌,
}
use qfabric.Prelude.Maps.{lookup}
use qfabric.TimeAuthority.{
  Authority, NodeState, Reply, Message, live, total_sent, total_recv, lbts, maybe_grant, handle,
  handle_all, known, unknown, update, hello, report, bye, lost, authority,
}
use qfabric.TimeAuthority.Ready.{ready, waits, asks, grants}

pub record IsCounted (a : Authority) : Type 0 where
  pub one_each : a.grants ≡ a.round
  pub recorded : length a.lbts_history ≡ a.round

module _ (float_of : ℕ → ℕ) where
  maybe_grant-IsCounted : (a : Authority) → IsCounted a → IsCounted ((maybe_grant float_of a).0)
  maybe_grant-IsCounted a c = elim (Bool-cases (ready a)) [
    | inr e ↦ rw (waits float_of a e) c
    | inl e ↦ elim (Bool-cases (total_sent a.nodes == total_recv a.nodes)) [
      | inr f ↦ rw (asks float_of a e f) (record { one_each = c.one_each; recorded = c.recorded })
      | inl f ↦ rw (grants float_of a e f) (record {
        one_each = omega (arith, c.one_each);
        recorded =
            omega
              (arith, c.recorded, length-append a.lbts_history (lbts float_of (live a.nodes) ∷ []));
      })
    ]
  ]

  update-IsCounted :
      (a : Authority) (name : ℕ) (n : NodeState) → IsCounted a → IsCounted (update name n a)
  update-IsCounted a name n c = record { one_each = c.one_each; recorded = c.recorded }

  known-IsCounted :
      (a : Authority) (name : ℕ) (n : NodeState) (m : Message)
      → IsCounted a
      → IsCounted ((known float_of a name n m).0)
  known-IsCounted a name n (hello lookahead) c = update-IsCounted a name _ c
  known-IsCounted a name n (report r next sent recv) c =
      maybe_grant-IsCounted _ (update-IsCounted a name _ c)
  known-IsCounted a name n (bye counts) c = maybe_grant-IsCounted _ (update-IsCounted a name _ c)
  known-IsCounted a name n lost c = maybe_grant-IsCounted _ (update-IsCounted a name _ c)

  unknown-IsCounted :
      (a : Authority) (name : ℕ) (m : Message) → IsCounted a → IsCounted ((unknown a name m).0)
  unknown-IsCounted a name (hello lookahead) c = update-IsCounted a name _ c
  unknown-IsCounted a name (report r next sent recv) c = c
  unknown-IsCounted a name (bye counts) c = c
  unknown-IsCounted a name lost c = c

  if-IsCounted :
      (b : Bool) (x y : Authority × List (ℕ × Reply))
      → IsCounted (x.0)
      → IsCounted (y.0)
      → IsCounted ((if b then x else y).0)
  if-IsCounted true x y h k = h
  if-IsCounted false x y h k = k

  handle-IsCounted :
      (a : Authority) (m : ℕ × Message) → IsCounted a → IsCounted ((handle float_of a m).0)
  unfolding handle
  handle-IsCounted a (name, m) c = elim (Option-cases (lookup name a.nodes)) [
    | inl e ↦ rw (e, handle) (unknown-IsCounted a name m c)
    | inr (n, e) ↦
        rw (e, handle)
          (if-IsCounted n.done _ _ (unknown-IsCounted a name m c) (known-IsCounted a name n m c))
  ]

  handle_all-IsCounted_from :
      (a : Authority) (messages : List (ℕ × Message))
      → IsCounted a
      → IsCounted ((handle_all float_of a messages).0)
  unfolding handle_all
  handle_all-IsCounted_from a [] c = c
  handle_all-IsCounted_from a (m ∷ messages) c =
      handle_all-IsCounted_from ((handle float_of a m).0) messages (handle-IsCounted a m c)

  -- Whatever messages the nodes send, in whatever order, the authority has granted one bound for each
  -- round that has passed, and recorded it.
  pub handle_all-IsCounted :
      (num_nodes : ℕ) (messages : List (ℕ × Message))
      → IsCounted ((handle_all float_of (authority num_nodes) messages).0)
  handle_all-IsCounted num_nodes messages =
      handle_all-IsCounted_from (authority num_nodes) messages
        (record { one_each = refl; recorded = refl })
