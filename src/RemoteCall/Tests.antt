-- ===== src/RemoteCall/Tests.antt =====
-- Three calls over a channel with a delay of 10.
use qfabric.Prelude.{ℕ, ◌*◌, ◌≡◌, refl, List, [], ◌∷◌, arith}
use qfabric.Prelude.Result.{ok}
use qfabric.Bytes.{Bytes}
use qfabric.RemoteCall.{RpcChannel, elapsed_ps, channel, calls}
use qfabric.RemoteCall.Elapsed.{calls_elapsed}

abbrev serve : ℕ → Bytes → ℕ × Bytes
serve kind body = (2, 0 ∷ body)

abbrev bodies : List Bytes
bodies = [] ∷ (1 ∷ []) ∷ [] ∷ []

calls_elapsed_example :
    (caller : RpcChannel) × (server : RpcChannel) × (calls serve 1 bodies 2
        (channel 10 500)
        (channel 10 500)
      ≡ ok (caller, server))
    × (elapsed_ps caller.clock ≡ 3 * (2 * 10))
    × (caller.on_time_events ≡ 3)
    × (caller.late_events ≡ 0)
calls_elapsed_example = calls_elapsed serve 1 2 (λ body. refl) 10 500 bodies (omega arith)
