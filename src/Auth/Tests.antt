-- ===== src/Auth/Tests.antt =====
-- The authenticated channel at small frames, with a stand-in for the digest.
use qfabric.Prelude.{
  ℕ, ◌≡◌, refl, inl, inr, List, [], ◌∷◌, replicate, length, length-replicate, arith,
}
use qfabric.Prelude.Result.{ok}
use qfabric.Bytes.{Bytes, be, read}
use qfabric.Auth.{FrameAuthenticator, authenticator, tag, seal_all, accepted, open_frame, bytes_eq}
use qfabric.Auth.Order.{sealed, accepted-seal_all}
use qfabric.Auth.Attack.{InTurn, accepted-InTurn}

abbrev digest : Bytes → Bytes → Bytes
digest k m = replicate 32 (length k)

digest_size : (k m : Bytes) → length (digest k m) ≡ 32
digest_size k m = length-replicate {A = ℕ} 32 (length k)

abbrev key : Bytes
key = 9 ∷ 9 ∷ []

abbrev fresh : FrameAuthenticator
fresh = record { key = key; tx_seq = 0; rx_seq = 0 }

abbrev payloads : List Bytes
payloads = (1 ∷ []) ∷ (2 ∷ 3 ∷ []) ∷ []

abbrev frame₀ : Bytes
frame₀ = sealed digest digest_size key 0 (1 ∷ [])

abbrev frame₁ : Bytes
frame₁ = sealed digest digest_size key 1 (2 ∷ 3 ∷ [])

made : authenticator key ≡ ok fresh
unfolding authenticator
made = refl

sealed_size : length frame₀ ≡ 25
unfolding be tag
sealed_size = refl

accepted-seal_all_example :
    (frames : List Bytes) × (seal_all digest fresh payloads ≡ ok frames)
    × (accepted digest fresh frames ≡ payloads)
accepted-seal_all_example =
    accepted-seal_all digest digest_size fresh fresh payloads refl refl (omega arith)

-- The receiver's own payloads, and its first frame.
abbrev own : List Bytes
own = (7 ∷ []) ∷ []

abbrev own_frame : Bytes
own_frame = sealed digest digest_size key 0 (7 ∷ [])

-- The receiver's own first frame comes back to it, and then the sender's second one arrives twice.
abbrev arriving : List Bytes
arriving = own_frame ∷ frame₁ ∷ frame₁ ∷ []

-- The frame that came back is accepted in place of the sender's first one.
reflected : accepted digest fresh arriving ≡ (7 ∷ []) ∷ (2 ∷ 3 ∷ []) ∷ []
unfolding accepted open_frame bytes_eq tag be read
reflected = refl

accepted-InTurn_example :
    InTurn digest digest_size key payloads own 0 (accepted digest fresh arriving)
accepted-InTurn_example =
    accepted-InTurn digest digest_size key payloads own fresh arriving refl (omega arith)
      (omega arith)
      (
        (λ _. inr (0, 7 ∷ [], refl, refl)),
        ((λ _. inl (1, 2 ∷ 3 ∷ [], refl, refl)), ((λ _. inl (1, 2 ∷ 3 ∷ [], refl, refl)), tt)),
      )
