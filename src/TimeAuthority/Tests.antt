-- ===== src/TimeAuthority/Tests.antt =====
-- Two nodes, one round of reports, and the grant that answers it.
use qfabric.Prelude.{
  ℕ, zero, arith, false, Option, ◌⊎◌, ◌≢◌, ◌≡◌, refl, some, none, List, [], ◌∷◌, get_elem?, suc,
}
use qfabric.Prelude.Maps.{lookup, insert}
use qfabric.TimeAuthority.{
  Authority, Message, hello, report, lost, hello_ack, rereport, grant, live, any_late, total_sent,
  total_recv, lbts, to_all, reset_live, maybe_grant, handle, handle_all, authority,
}
use qfabric.TimeAuthority.Grant.{
  AllInRange, IsSafe, IsLatest, maybe_grant-IsSafe, maybe_grant_answers,
}
use qfabric.TimeAuthority.Counted.{IsCounted, handle_all-IsCounted}

-- Whole numbers as floats, here all exact.
abbrev float_of : ℕ → ℕ
float_of t = t

-- Node 1 has its next event at 50, node 2 is idle; a message from 1 to 2 has been received.
abbrev waiting : Authority
waiting = record {
  num_nodes = 2;
  nodes =
      (
        1,
        record {
          lookahead_ps = 10;
          round = some 3;
          next_ps = some 50;
          sent = 1;
          recv = 0;
          done = false;
        },
      )
      ∷ (
        2,
        record {
          lookahead_ps = 5;
          round = some 3;
          next_ps = none;
          sent = 0;
          recv = 1;
          done = false;
        },
      )
      ∷ [];
  round = 3;
  grants = 3;
  rereports = 0;
  lbts_history = [];
}

abbrev messages : List (ℕ × Message)
messages =
    (1, hello 10)
    ∷ (2, hello 5)
    ∷ (1, report 0 (some 50) 1 0)
    ∷ (2, report 0 none 0 0)
    ∷ (1, report 0 (some 50) 1 0)
    ∷ (2, report 0 none 0 1)
    ∷ (1, lost)
    ∷ (2, report 1 none 0 1)
    ∷ []

-- The message is in flight at first: both report again, and then get their bound. A node whose
-- connection is lost does not hold the other up.
replies :
    (handle_all float_of (authority 2) messages).1
    ≡ (1, hello_ack 2)
      ∷ (2, hello_ack 2)
      ∷ (1, rereport)
      ∷ (2, rereport)
      ∷ (1, grant 1 (some 60))
      ∷ (2, grant 1 (some 60))
      ∷ (2, grant 2 none)
      ∷ []
unfolding handle_all handle maybe_grant live any_late total_sent total_recv lbts reset_live to_all
    lookup insert
replies = refl

sends : get_elem? ((maybe_grant float_of waiting).1) 0 ≡ some (1, grant 4 (some 60))
unfolding maybe_grant live any_late total_sent total_recv lbts to_all
sends = refl

in_range : AllInRange waiting
unfolding live
in_range zero name n at t next = ground (arith, at, next)
in_range (suc zero) name n at t next = ground (arith, at, next)
in_range (suc (suc i)) name n at t next = absurd (ground (arith, at))

maybe_grant-IsSafe_example : (4 ≡ suc waiting.round) × IsSafe waiting (some 60)
maybe_grant-IsSafe_example =
    maybe_grant-IsSafe float_of (λ t small. refl) waiting 0 1 4 (some 60) in_range sends

maybe_grant_answers_example :
    ((total_sent waiting.nodes ≢ total_recv waiting.nodes)
      × (get_elem? ((maybe_grant float_of waiting).1) 0 ≡ some (1, rereport)))
    ⊎ ((total_sent waiting.nodes ≡ total_recv waiting.nodes)
        × (bound : Option ℕ) × (get_elem? ((maybe_grant float_of waiting).1) 0
            ≡ some (1, grant 4 bound))
        × IsLatest waiting bound)
unfolding live
maybe_grant_answers_example =
    maybe_grant_answers float_of (λ t small. refl) waiting 0 1 _ in_range
      (maybe_grant-IsSafe_example.1.reports) refl

handle_all-IsCounted_example : IsCounted ((handle_all float_of (authority 2) messages).0)
handle_all-IsCounted_example = handle_all-IsCounted float_of 2 messages
