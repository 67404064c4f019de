-- ===== src/TimeAuthority.antt =====
-- qne-sequence/qne_sequence/time_authority.py: the coordinator that grants simulated nodes a bound up
-- to which they may run. A node is known by its name, here a number, and has one connection; a time
-- is a whole number of picoseconds, and `none` stands for the source's infinity. The source keeps the
-- times of events as Python floats: `float_of` gives the float of an integer, a parameter. `none` as a round
-- stands for its -1. Every handler runs under the authority's lock, so it is one step.
pub mod Bound
pub mod Ready
pub mod Grant
pub mod Counted
mod Tests
use qfabric.Prelude.{
  ℕ, zero, suc, ◌+◌, min, Bool, true, false, not, ◌&&◌, ◌||◌, Option, none, some, List, [], ◌∷◌,
  ◌++◌, map, length, ltb, ◌==◌, if◌then◌else◌,
}
use qfabric.Prelude.Maps.{lookup, insert}

pub record NodeState : Type 0 where
  pub lookahead_ps : ℕ
  pub round : Option ℕ
  pub next_ps : Option ℕ
  pub sent : ℕ
  pub recv : ℕ
  pub done : Bool

pub data Reply : Type 0 where
  hello_ack : ℕ → Reply
  rereport : Reply
  grant : ℕ → Option ℕ → Reply

-- What a node sends; `lost` is the end of its connection without a bye. A bye may carry its counts.
pub data Message : Type 0 where
  hello : ℕ → Message
  report : ℕ → Option ℕ → ℕ → ℕ → Message
  bye : Option (ℕ × Option ℕ) → Message
  lost : Message

pub record Authority : Type 0 where
  pub num_nodes : ℕ
  pub nodes : List (ℕ × NodeState)
  pub round : ℕ
  pub grants : ℕ
  pub rereports : ℕ
  pub lbts_history : List (Option ℕ)

-- `[n for n in self._nodes.values() if not n.done]`
pub live : List (ℕ × NodeState) → List (ℕ × NodeState)
live [] = []
live ((name, n) ∷ nodes) = if n.done then live nodes else (name, n) ∷ live nodes

abbrev pub is_round : ℕ → Option ℕ → Bool
is_round r none = false
is_round r (some q) = q == r

-- `any(n.round != self._round for n in live)`
pub any_late : ℕ → List (ℕ × NodeState) → Bool
any_late r [] = false
any_late r ((name, n) ∷ nodes) = not (is_round r n.round) || any_late r nodes

pub total_sent : List (ℕ × NodeState) → ℕ
total_sent [] = 0
total_sent ((name, n) ∷ nodes) = n.sent + total_sent nodes

pub total_recv : List (ℕ × NodeState) → ℕ
total_recv [] = 0
total_recv ((name, n) ∷ nodes) = n.recv + total_recv nodes

abbrev pub min_time : Option ℕ → Option ℕ → Option ℕ
min_time none t = t
min_time (some s) none = some s
min_time (some s) (some t) = some (min s t)

module _ (float_of : ℕ → ℕ) where
  -- `n.next_ps + n.lookahead_ps`, a sum of floats, which is rounded
  abbrev pub horizon : NodeState → Option ℕ
  horizon n = elim n.next_ps [
    | none ↦ none
    | some t ↦ some (float_of (t + float_of n.lookahead_ps))
  ]

  -- `min(n.next_ps + n.lookahead_ps for n in live)`
  pub lbts : List (ℕ × NodeState) → Option ℕ
  lbts [] = none
  lbts ((name, n) ∷ nodes) = min_time (horizon n) (lbts nodes)

-- `n.round = -1` for the live nodes
pub reset_live : List (ℕ × NodeState) → List (ℕ × NodeState)
reset_live [] = []
reset_live ((name, n) ∷ nodes) =
    (name, if n.done then n else record n { round = none }) ∷ reset_live nodes

pub to_all : Reply → List (ℕ × NodeState) → List (ℕ × Reply)
to_all reply [] = []
to_all reply ((name, n) ∷ nodes) = (name, reply) ∷ to_all reply nodes

abbrev pub has_nodes : List (ℕ × NodeState) → Bool
has_nodes [] = false
has_nodes (x ∷ nodes) = true

module _ (float_of : ℕ → ℕ) where
  -- `_maybe_grant_locked`
  pub maybe_grant : Authority → Authority × List (ℕ × Reply)
  maybe_grant a =
      if ltb (length a.nodes) a.num_nodes
      then (a, [])
      else if not (has_nodes (live a.nodes))
      then (a, [])
      else if any_late a.round (live a.nodes)
      then (a, [])
      else if not (total_sent a.nodes == total_recv a.nodes)
      then (
        record a { rereports = suc a.rereports; nodes = reset_live a.nodes },
        to_all rereport (live a.nodes),
      )
      else (
        record a {
          round = suc a.round;
          grants = suc a.grants;
          lbts_history = a.lbts_history ++ lbts float_of (live a.nodes) ∷ [];
        },
        to_all (grant (suc a.round) (lbts float_of (live a.nodes))) (live a.nodes),
      )

abbrev pub joined : ℕ → NodeState
joined lookahead = record {
  lookahead_ps = lookahead;
  round = none;
  next_ps = none;
  sent = 0;
  recv = 0;
  done = false;
}

-- The counts that a bye brings, if it does.
abbrev pub final_counts : Option (ℕ × Option ℕ) → NodeState → NodeState
final_counts none n = n
final_counts (some (sent, none)) n = record n { sent = sent }
final_counts (some (sent, some recv)) n = record n { sent = sent; recv = recv }

abbrev pub departed : NodeState → NodeState
departed n = record n { done = true; next_ps = none }

abbrev pub update : ℕ → NodeState → Authority → Authority
update name n a = record a { nodes = insert name n a.nodes }

-- A message of a node that is not in the table, or whose connection is closed.
abbrev pub unknown : Authority → ℕ → Message → Authority × List (ℕ × Reply)
unknown a name (hello lookahead) =
    (update name (joined lookahead) a, (name, hello_ack a.num_nodes) ∷ [])
unknown a name (report round next sent recv) = (a, [])
unknown a name (bye counts) = (a, [])
unknown a name lost = (a, [])

module _ (float_of : ℕ → ℕ) where
  -- `_INF if nxt is None else float(nxt)`
  abbrev pub stored_time : Option ℕ → Option ℕ
  stored_time none = none
  stored_time (some t) = some (float_of t)

  -- A message of a node that has said hello and not left.
  abbrev pub known : Authority → ℕ → NodeState → Message → Authority × List (ℕ × Reply)
  known a name n (hello lookahead) =
      (update name (joined lookahead) a, (name, hello_ack a.num_nodes) ∷ [])
  known a name n (report round next sent recv) = maybe_grant float_of (
      update name
        (record n { round = some round; next_ps = stored_time next; sent = sent; recv = recv }) a)
  known a name n (bye counts) =
      maybe_grant float_of (update name (departed (final_counts counts n)) a)
  known a name n lost = maybe_grant float_of (update name (departed n) a)

  -- `_node_loop`, for one message
  pub handle : Authority → ℕ × Message → Authority × List (ℕ × Reply)
  handle a (name, m) = elim (lookup name a.nodes) [
    | none ↦ unknown a name m
    | some n ↦ if n.done then unknown a name m else known a name n m
  ]

  -- The messages of all nodes, in the order in which the lock is taken.
  pub handle_all : Authority → List (ℕ × Message) → Authority × List (ℕ × Reply)
  handle_all a [] = (a, [])
  handle_all a (m ∷ messages) =
      let (a', replies) = handle a m in
      let (a'', more) = handle_all a' messages in (a'', replies ++ more)

abbrev pub authority : ℕ → Authority
authority num_nodes = record {
  num_nodes = num_nodes;
  nodes = [];
  round = 0;
  grants = 0;
  rereports = 0;
  lbts_history = [];
}
