-- ===== src/ReliableLink/Fragments.antt =====
-- The fragments that `send` cuts a message into, and the message put together from them.
use mathlib.Core.List.{flatten}
use qfabric.Prelude.{
  ℕ, zero, suc, ◌+◌, ◌≤◌, ◌<◌, ◌≡◌, refl, ◌∙◌, List, [], ◌∷◌, length, get_elem?, get_elem?-some,
  drop, drop-get_elem?, drop_all, arith,
}
use qfabric.Prelude.Maps.{lookup}
use qfabric.Prelude.Slices.{slices, flatten-slices}
use qfabric.Prelude.Result.{ok}
use qfabric.Bytes.{Bytes}
use qfabric.ReliableLink.{join, fragments, or_empty}

flatten-or_empty : (frags : List Bytes) → flatten (or_empty frags) ≡ flatten frags
unfolding flatten
flatten-or_empty [] = refl
flatten-or_empty (f ∷ frags) = refl

pub length-or_empty : (frags : List Bytes) → 1 ≤ length (or_empty frags)
length-or_empty [] = omega arith
length-or_empty (f ∷ frags) = omega arith

-- The fragments of a message, joined, are the message.
pub flatten-fragments :
    (size : ℕ) (message : Bytes) → 1 ≤ size → flatten (fragments size message) ≡ message
unfolding fragments
flatten-fragments size message h =
    flatten-or_empty (slices (length message) message size 0 (length message))
    ∙ flatten-slices (length message) message size 0 (length message) refl h (omega arith)

pub length-fragments : (size : ℕ) (message : Bytes) → 1 ≤ length (fragments size message)
unfolding fragments
length-fragments size message =
    length-or_empty (slices (length message) message size 0 (length message))

-- A dict with the right fragment at every index joins to the concatenation.
pub join-flatten :
    (frags : List Bytes) (dict : List (ℕ × Bytes)) (index count : ℕ)
    → index + count ≡ length frags
    → ((i : ℕ) → i < length frags → lookup i dict ≡ get_elem? frags i)
    → join dict index count ≡ ok (flatten (drop index frags))
unfolding join flatten
join-flatten frags dict index zero e h = rw (drop_all index frags (omega arith))
join-flatten frags dict index (suc count) e h =
    let (p, at) = get_elem?-some frags index (omega arith) in
    rw (
      h index (omega arith) ∙ at,
      join,
      join-flatten frags dict (suc index) count (omega arith) h,
      drop-get_elem? frags index p at,
    )
