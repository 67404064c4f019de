-- ===== src/KeyAgreement/Agree.antt =====
-- Both sides end with the same key, or both refuse.
use native.Mathlib.Numerals.{unary_clauses}
use mathlib.Core.Bool.{true≢false}
use qfabric.Prelude.{
  ℕ, zero, suc, ◌*◌, ◌^◌, ◌≤◌, ◌≡◌, ◌≢◌, refl, sym, ◌∙◌, ap, subst, inl, inr, ◌⊎◌, Bool, true,
  false, Bool-cases, Option, some, List, [], ◌∷◌, length, arith, if◌then◌else◌,
}
use qfabric.Prelude.Result.{Result, ok, err, key_verification_error}
use qfabric.Floats.{Floats}
use qfabric.Cascade.{CascadeResult, initial_block_size, reconcile}
use qfabric.Cascade.Bisect.{IsHonest}
use qfabric.Cascade.Blocks.{IsPermutation}
use qfabric.Cascade.Whole.{reconcile-IsReconciled}
use qfabric.Privacy.{Numpy}
use qfabric.KeyAgreement.{
  bits_eq, KeyMaterial, Done, reconcile_done, reconcile_verify, Settings, verification_tag, key_of,
  tag_matches, serve, parity_oracle, announcement, concluded, block_size, drive_cascade, session,
}

bits_eq_refl : (bs : List ℕ) → bits_eq bs bs ≡ true
unfolding bits_eq
bits_eq_refl [] = refl
bits_eq_refl (b ∷ bs) = ground (arith, bits_eq_refl bs)

bits_eq_sound : (bs cs : List ℕ) → bits_eq bs cs ≡ true → bs ≡ cs
unfolding bits_eq
bits_eq_sound [] [] e = refl
bits_eq_sound [] (c ∷ cs) e = absurd (cc)
bits_eq_sound (b ∷ bs) [] e = absurd (cc)
bits_eq_sound (b ∷ bs) (c ∷ cs) e =
    let head : b ≡ c = ground (arith, e) in
    let tail = bits_eq_sound bs cs (ground (arith, e)) in cc (head, tail)

pow_pos : (n : ℕ) → suc n ≤ 2 ^ n
pow_pos zero = omega arith
pow_pos (suc n) = simp unary_clauses (omega (arith, pow_pos n))

block_size_pos : (f : Floats) (qber : f.F) (n : ℕ) → 1 ≤ initial_block_size f qber n
unfolding initial_block_size
block_size_pos f qber n = ground arith

module _ (f : Floats) (np : Numpy) where
  serve-IsHonest :
      (alice : List Bool)
      → IsHonest alice (parity_oracle f np (λ frame. (serve f np alice frame).0))
  unfolding serve
  serve-IsHonest alice = record { answers = λ blocks. refl }

  -- Whatever the verdict on the tags, it is the same on both sides.
  abbrev ended :
      List Bool → List Bool → Done f np → Bool → Option (Result KeyMaterial) × Result KeyMaterial
  ended alice key d matches = (
    some (if matches then ok (key_of f np alice d) else err key_verification_error),
    if matches then ok (key_of f np key d) else err key_verification_error,
  )

  concluded-if :
      (key : List Bool) (d : Done f np) (matches : Bool)
      → concluded f np key d (some (reconcile_verify matches))
        ≡ (if matches then ok (key_of f np key d) else err key_verification_error)
  concluded-if key d true = refl
  concluded-if key d false = refl

  served :
      (alice key : List Bool) (d : Done f np)
      → ◌≡◌ {A = Option (Option (Result KeyMaterial) × Result KeyMaterial)}
          (some (
            (serve f np alice (reconcile_done d)).1,
            concluded f np key d ((serve f np alice (reconcile_done d)).0),
          ))
          (some (ended alice key d (tag_matches f np alice d)))
  unfolding serve
  served alice key d =
      ap (λ r. some (((serve f np alice (reconcile_done d)).1, r)))
        (concluded-if key d (tag_matches f np alice d))

  -- What Cascade gives Bob when Alice answers.
  abbrev pub cascade : Settings f np → List Bool → List Bool → Option CascadeResult
  cascade s alice bob =
      reconcile (parity_oracle f np (λ frame. (serve f np alice frame).0)) s.perms s.passes
        (block_size f np s bob) bob

  module _ (s : Settings f np) (alice bob : List Bool) (size : length alice ≡ length bob)
      (shuffled : (p : ℕ) → IsPermutation (length bob) (s.perms p)) where
    session_step :
        (res : CascadeResult)
        → cascade s alice bob ≡ some res
        → session f np s alice bob
          ≡ some (
              ended alice res.corrected_key
                (announcement f np s res)
                (tag_matches f np alice (announcement f np s res)))
    unfolding session drive_cascade tag_matches
    session_step res e =
        rw (session, drive_cascade, e) (served alice res.corrected_key (announcement f np s res))

    session_ends :
        (res : CascadeResult) × (cascade s alice bob ≡ some res)
        × (session f np s alice bob
            ≡ some (
                ended alice res.corrected_key
                  (announcement f np s res)
                  (tag_matches f np alice (announcement f np s res))))
        × (length res.corrected_key ≡ length alice)
    session_ends =
        let k1 = block_size f np s bob in
        let (res, e, good) =
          reconcile-IsReconciled alice (parity_oracle f np (λ frame. (serve f np alice frame).0))
            s.perms s.passes k1 (2 * k1) bob (serve-IsHonest alice) shuffled
            (block_size_pos f _ (length bob)) (omega (arith, pow_pos (2 * k1))) size in
        (res, e, session_step res e, good.key_length ∙ sym size)

    -- For keys of one length and true permutations the exchange ends, and if the tags of Alice's key and
    -- of the one key that Cascade gives Bob do not collide: either Cascade left an error and both sides
    -- raise KeyVerificationError, or it left none and both return the same key, corrections and leak.
    pub session_agrees :
        ((res : CascadeResult)
          → cascade s alice bob ≡ some res
          → verification_tag f np alice s.verify_seed s.default_eps_cor
            ≡ verification_tag f np res.corrected_key s.verify_seed s.default_eps_cor
          → alice ≡ res.corrected_key)
        → (res : CascadeResult) × (cascade s alice bob ≡ some res)
          × (((alice ≢ res.corrected_key)
                × (session f np s alice bob
                    ≡ some (some (err key_verification_error), err key_verification_error)))
              ⊎ ((alice ≡ res.corrected_key)
                  × (k : KeyMaterial) × (session f np s alice bob ≡ some (some (ok k), ok k))))
    unfolding tag_matches
    session_agrees no_collision =
        let (res, run, e, same) = session_ends in
        let d = announcement f np s res in
        (
          res,
          run,
          elim (Bool-cases (tag_matches f np alice d)) [
            | inr differ ↦ inl (
              (λ equal. absurd (
                  true≢false (
                    sym (subst (λ key. tag_matches f np key d ≡ true) (sym equal) (bits_eq_refl _))
                    ∙ differ))),
              e ∙ ap (λ b. some (ended alice res.corrected_key d b)) differ,
            )
            | inl match ↦
                let equal : alice ≡ res.corrected_key =
                  no_collision res run (bits_eq_sound _ _ match) in
                inr (
                  equal,
                  key_of f np alice d,
                  e
                      ∙ ap (λ b. some (ended alice res.corrected_key d b)) match
                      ∙ ap (λ k. some (some (ok (key_of f np alice d)), ok (key_of f np k d)))
                          (sym equal),
                )
          ],
        )
