-- ===== src/Exchange/Agree.antt =====
-- A run of both sides ends with one key, or with none on either side.
use qfabric.Prelude.{
  ℕ, ◌≡◌, refl, sym, ◌∙◌, ap, subst, inl, inr, Bool, true, false, Option, none, some, List, [], ◌∷◌,
  suc, length,
}
use qfabric.Prelude.Result.{ok}
use qfabric.Floats.{Floats}
use qfabric.Random.{Generator, IsGenerator}
use qfabric.Privacy.{Numpy}
use qfabric.Sifting.{Record}
use qfabric.Cascade.{CascadeResult}
use qfabric.Cascade.Blocks.{IsPermutation}
use qfabric.KeyAgreement.{verification_tag}
use qfabric.KeyAgreement.Agree.{cascade, session_agrees}
use qfabric.Exchange.{to_bools, bits_to_int}
use qfabric.Exchange.Run.{
  after_cascade, Ends, Options, Sifted, sift_exchange, cascade_settings, conclusion, run_sifting,
}
use qfabric.Exchange.Keys.{sift_exchange-IsShared}

length-to_bools : (bits : List ℕ) → length (to_bools bits) ≡ length bits
length-to_bools [] = refl
length-to_bools (b ∷ bits) = ap suc (length-to_bools bits)

module _ (f : Floats) (g : Generator f) (np : Numpy) (o : Options f g np) where
  -- The tags of Alice's key and of the key that Cascade gives Bob do not collide.
  unfoldable pub NoCollision : Sifted f g np → Type 0
  NoCollision s =
      (res : CascadeResult)
      → cascade f np (cascade_settings f g np o s) (to_bools s.alice_key) (to_bools s.bob_key)
        ≡ some res
      → verification_tag f np (to_bools s.alice_key) o.verify_seed o.eps_cor
        ≡ verification_tag f np res.corrected_key o.verify_seed o.eps_cor
      → to_bools s.alice_key ≡ res.corrected_key

  abbrev pub same_key : Option ℕ → Ends
  same_key key = record { alice = some (ok key); bob = ok key }

  conclusion-same :
      (reconcile : Bool) (s : Sifted f g np)
      → length s.alice_key ≡ length s.bob_key
      → ((p : ℕ) → IsPermutation (length s.bob_key) (o.perms (length s.bob_key) p))
      → NoCollision s
      → (key : Option ℕ) × (conclusion f g np reconcile o s ≡ some (same_key key))
  unfolding NoCollision
  conclusion-same false s size shuffled no_collision = (none, refl)
  conclusion-same true s size shuffled no_collision =
      let sizes = length-to_bools s.alice_key ∙ size ∙ sym (length-to_bools s.bob_key) in
      let perms =
        subst (λ (n : ℕ). (p : ℕ) → IsPermutation n (o.perms (length s.bob_key) p))
          (sym (length-to_bools s.bob_key)) shuffled in
      let (res, run, either) =
        session_agrees f np (cascade_settings f g np o s) (to_bools s.alice_key)
          (to_bools s.bob_key) sizes perms no_collision in
      elim either [
        | inl (differ, e) ↦ (none, ap after_cascade e)
        | inr (equal, k, e) ↦ (bits_to_int k.final, ap after_cascade e)
      ]

  -- For any logs and draws, if the generator keeps its documentation, Cascade's permutations are
  -- true ones, and the tags of Alice's key and of the key that Cascade gives Bob do not collide: both
  -- methods end without an exception, and with the same final key on both sides, or with none on either.
  pub run_sifting_agrees :
      (sent_log detection_log : List Record) (rng : g.Rng)
      → IsGenerator f g
      → ((n p : ℕ) → IsPermutation n (o.perms n p))
      → ((s : Sifted f g np)
          → sift_exchange f g np o sent_log detection_log rng ≡ ok s
          → NoCollision s)
      → (key : Option ℕ) × (run_sifting f g np o sent_log detection_log rng
          ≡ ok (some (same_key key)))
  unfolding run_sifting
  run_sifting_agrees sent_log detection_log rng laws shuffled no_collision =
      let (s, e, shared) = sift_exchange-IsShared f g np o sent_log detection_log rng laws in
      let (key, run) =
        conclusion-same s.told.reconcile s shared.same_length (shuffled (length s.bob_key))
          (no_collision s e) in
      (key, rw (e, run) refl)
