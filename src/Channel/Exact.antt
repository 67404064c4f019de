-- ===== src/Channel/Exact.antt =====
-- `_recv_exact` returns the first n bytes of the stream, however the stream is cut into chunks.
use mathlib.Core.List.{flatten}
use qfabric.Prelude.{
  ℕ, zero, suc, ◌+◌, ◌-◌, ◌≤◌, ◌<◌, ◌≡◌, refl, sym, ◌∙◌, ap, inl, inr, false, Bool-cases, List, [],
  ◌∷◌, ◌++◌, append_assoc, take, drop, length, length-append, length-take, length-drop,
  take-append-drop, ltb→lt, arith, ltb, leb,
}
use qfabric.Prelude.Result.{ok}
use qfabric.Bytes.{Bytes}
use qfabric.Channel.{sock_recv, recv_exact}

abbrev pub AllNonempty : List Bytes → Type 0
AllNonempty [] = Unit
AllNonempty (chunk ∷ chunks) = (0 < length chunk) × AllNonempty chunks

-- One `recv` takes a prefix of the stream: a byte at least, unless the stream is at its end.
pub record IsReceived (k : ℕ) (chunks : List Bytes) (got : Bytes) (rest : List Bytes) : Type 0 where
  pub whole : got ++ flatten rest ≡ flatten chunks
  pub nonempty : AllNonempty rest
  pub at_most : length got ≤ k
  pub progress : 0 < length (flatten chunks) → 0 < length got

sock_recv-IsReceived :
    (k : ℕ) (chunks : List Bytes)
    → 0 < k
    → AllNonempty chunks
    → IsReceived k chunks ((sock_recv k chunks).0) ((sock_recv k chunks).1)
unfolding flatten
sock_recv-IsReceived k [] pos h = record {
  whole = refl;
  nonempty = tt;
  at_most = omega arith;
  progress = λ p. p;
}
sock_recv-IsReceived k (chunk ∷ chunks) pos (long, h) = elim (Bool-cases (leb (length chunk) k)) [
  | inl e ↦
      rw e
        (record { whole = refl; nonempty = h; at_most = ground (arith, e); progress = λ p. long })
  | inr e ↦ rw e (record {
    whole =
        sym (append_assoc (take k chunk) (drop k chunk) (flatten chunks))
        ∙ ap (λ (t : Bytes). t ++ flatten chunks) (take-append-drop k chunk);
    nonempty = (ground (arith, e, length-drop k chunk), h);
    at_most = omega (arith, length-take k chunk);
    progress = λ p. ground (arith, e, length-take k chunk);
  })
]

recv_step :
    (fuel n : ℕ) (buf : Bytes) (chunks : List Bytes)
    → length buf < n
    → 0 < length ((sock_recv (n - length buf) chunks).0)
    → recv_exact (suc fuel) n buf chunks
      ≡ recv_exact fuel n
          (buf ++ (sock_recv (n - length buf) chunks).0)
          ((sock_recv (n - length buf) chunks).1)
unfolding recv_exact
recv_step fuel n buf chunks more some_bytes = ground (arith, more, some_bytes)

recv_stop :
    (fuel n : ℕ) (buf : Bytes) (chunks : List Bytes)
    → n ≤ length buf
    → recv_exact fuel n buf chunks ≡ ok (buf, chunks)
unfolding recv_exact
recv_stop zero n buf chunks le = ground (arith, le)
recv_stop (suc fuel) n buf chunks le = ground (arith, le)

-- Exactly n bytes and the rest of the stream.
pub record IsExact (n : ℕ) (stream : Bytes) (got : Bytes) (rest : List Bytes) : Type 0 where
  pub size : length got ≡ n
  pub whole : got ++ flatten rest ≡ stream
  pub nonempty : AllNonempty rest

abbrev pub Exactly : ℕ → ℕ → Bytes → List Bytes → Type 0
Exactly fuel n buf chunks =
    (got : Bytes) × (rest : List Bytes) × (recv_exact fuel n buf chunks ≡ ok (got, rest))
    × IsExact n (buf ++ flatten chunks) got rest

stopped :
    (fuel n : ℕ) (buf : Bytes) (chunks : List Bytes)
    → length buf ≤ n
    → AllNonempty chunks
    → ltb (length buf) n ≡ false
    → Exactly fuel n buf chunks
stopped fuel n buf chunks fits h e = (
  buf,
  chunks,
  recv_stop fuel n buf chunks (ground (arith, e)),
  record { size = ground (arith, e, fits); whole = refl; nonempty = h },
)

recv_exact-IsExact_from :
    (fuel n : ℕ) (buf : Bytes) (chunks : List Bytes)
    → n ≤ length buf + fuel
    → length buf ≤ n
    → AllNonempty chunks
    → n ≤ length buf + length (flatten chunks)
    → Exactly fuel n buf chunks
recv_exact-IsExact_from zero n buf chunks enough fits h long =
    stopped zero n buf chunks fits h (ground arith)
recv_exact-IsExact_from (suc fuel) n buf chunks enough fits h long =
    elim (Bool-cases (ltb (length buf) n)) [
      | inr e ↦ stopped (suc fuel) n buf chunks fits h e
      | inl e ↦
          let lt = ltb→lt (length buf) n e in
          let got = (sock_recv (n - length buf) chunks).0 in
          let left = (sock_recv (n - length buf) chunks).1 in
          let r = sock_recv-IsReceived (n - length buf) chunks (omega arith) h in
          let some_bytes = r.progress (omega arith) in
          let total = length-append buf got in
          let split = ap length (sym r.whole) ∙ length-append got (flatten left) in
          let (all, rest, step, x) =
            recv_exact-IsExact_from fuel n (buf ++ got) left (omega (arith, some_bytes))
              (omega (arith, r.at_most)) r.nonempty (omega (arith, split)) in
          (
            all,
            rest,
            recv_step fuel n buf chunks lt some_bytes ∙ step,
            record {
              size = x.size;
              whole = x.whole ∙ append_assoc buf got (flatten left) ∙ ap (buf ++◌) r.whole;
              nonempty = x.nonempty;
            },
          )
    ]

-- `_recv_exact(n)` on a stream of n bytes or more: however it is cut into chunks, the first n bytes
-- are returned and the rest is left.
pub recv_exact-IsExact :
    (n : ℕ) (chunks : List Bytes)
    → AllNonempty chunks
    → n ≤ length (flatten chunks)
    → (got : Bytes) × (rest : List Bytes) × (recv_exact n n [] chunks ≡ ok (got, rest))
      × IsExact n (flatten chunks) got rest
recv_exact-IsExact n chunks h long =
    recv_exact-IsExact_from n n [] chunks (omega arith) (omega arith) h (omega arith)
