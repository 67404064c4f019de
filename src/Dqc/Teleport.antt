-- ===== src/Dqc/Teleport.antt =====
-- Teleportation of one qubit of a pair, seen from its partner.
use qfabric.Prelude.{
  ℕ, ◌≡◌, ◌⊎◌, refl, subst, ap, ◌∙◌, inl, inr, Bool, true, false, [], ◌∷◌, xor, arith,
  if◌then◌else◌,
}
use qfabric.Prelude.Elem.{Distinct}
use qfabric.Prelude.Result.{ok}
use qfabric.Amplitudes.{Amplitudes, IsExact}
use qfabric.QState.{QStateRegister, measure}
use qfabric.QState.Swap.{IsPair, bell_measure-IsPair}
use qfabric.QState.Paulis.{apply_pauli-IsPair}
use qfabric.QState.Readout.{measure-ends}
use qfabric.Dqc.{
  Withheld, sent, teleport, teleport_send, teleport_recv, teleport_shot, correct_outcome, read_out,
}

-- What a withheld bit leaves of the correction.
cancelled : (x m : Bool) → xor (xor x m) m ≡ x
cancelled x m = ground arith

repaired : (o x m w : Bool) → xor (xor o (xor (xor x m) w)) (xor w m) ≡ xor o x
repaired o x m w = ground arith

module _ (q : Amplitudes) (e : IsExact q) where
  open q use {F}

  -- With exact arithmetic, if the data qubit is one of a pair and the network's pair is in the state of
  -- the bits x2 and z2, then `teleport` returns, whatever the samples, and the received qubit takes the
  -- place of the data qubit in its pair: exactly so if the network's pair is Φ+, and else with the
  -- error x2 and z2.
  pub teleport-IsPair :
      (r : QStateRegister q) (a data_q epr_local epr_remote : ℕ) (samp1 samp2 : F)
      (x1 z1 x2 z2 : Bool)
      → Distinct (a ∷ data_q ∷ epr_local ∷ epr_remote ∷ [])
      → IsPair q e r a data_q x1 z1
      → IsPair q e r epr_local epr_remote x2 z2
      → (r' : QStateRegister q) × (m1 : Bool) × (m2 : Bool) × (teleport q data_q epr_local
            epr_remote samp1 samp2 r
          ≡ ok (r', m1, m2))
        × IsPair q e r' a epr_remote (xor x1 x2) (xor z1 z2)
  unfolding teleport teleport_send teleport_recv
  teleport-IsPair r a b c d samp1 samp2 x1 z1 x2 z2 apart h1 h2 =
      let (r1, m1, m2, run, joined, leaves) =
        bell_measure-IsPair q e r a b c d samp1 samp2 x1 z1 x2 z2 apart h1 h2 in
      let (r2, fixed, pair) =
        apply_pauli-IsPair q e r1 a d (xor (xor x1 x2) m2) (xor (xor z1 z2) m1) m2 m1
          (ground (arith, apart)) joined in
      (
        r2,
        m1,
        m2,
        rw run (rw fixed refl),
        subst (λ t. IsPair q e r2 a d t (xor z1 z2)) (cancelled (xor x1 x2) m2)
            (subst (λ t. IsPair q e r2 a d (xor (xor (xor x1 x2) m2) m2) t)
              (cancelled (xor z1 z2) m1) pair),
      )

  -- The bits of the pair after a shot: the errors of the network's pair and the withheld bits.
  shot-IsPair :
      (w : Withheld) (r : QStateRegister q) (a data_q epr_a epr_b : ℕ) (samp1 samp2 : F)
      (x1 z1 x2 z2 : Bool)
      → Distinct (a ∷ data_q ∷ epr_a ∷ epr_b ∷ [])
      → IsPair q e r a data_q x1 z1
      → IsPair q e r epr_a epr_b x2 z2
      → (r' : QStateRegister q) × (m1 : Bool) × (m2 : Bool) × (teleport_shot q w data_q epr_a epr_b
            samp1 samp2 r
          ≡ ok (r', m1, m2))
        × IsPair q e r' a epr_b
            (xor (xor (xor x1 x2) m2) (sent w.m2 m2))
            (xor (xor (xor z1 z2) m1) (sent w.m1 m1))
  unfolding teleport_shot teleport_send teleport_recv
  shot-IsPair w r a b c d samp1 samp2 x1 z1 x2 z2 apart h1 h2 =
      let (r1, m1, m2, run, joined, leaves) =
        bell_measure-IsPair q e r a b c d samp1 samp2 x1 z1 x2 z2 apart h1 h2 in
      let (r2, fixed, pair) =
        apply_pauli-IsPair q e r1 a d (xor (xor x1 x2) m2) (xor (xor z1 z2) m1) (sent w.m2 m2)
          (sent w.m1 m1) (ground (arith, apart)) joined in
      (r2, m1, m2, rw run (rw fixed refl), pair)

  module _ (is_z is_x : q.Angle → Bool) (z_is_z : is_z q.z_basis ≡ true)
      (x_not_z : is_z q.x_basis ≡ false) (x_is_x : is_x q.x_basis ≡ true) where
    corrected_z :
        (angle : q.Angle) (o x z : Bool)
        → angle ≡ q.z_basis
        → correct_outcome q is_z is_x o angle x z ≡ ok (xor o x)
    unfolding correct_outcome
    corrected_z angle o x z at = rw at (rw z_is_z refl)

    corrected_x :
        (angle : q.Angle) (o x z : Bool)
        → angle ≡ q.x_basis
        → correct_outcome q is_z is_x o angle x z ≡ ok (xor o z)
    unfolding correct_outcome
    corrected_x angle o x z at = rw at (rw x_not_z (rw x_is_x refl))

    late_correction :
        (w : Withheld) (basis : q.Angle)
        → (basis ≡ q.z_basis) ⊎ (basis ≡ q.x_basis)
        → (m1 m2 o o' x z : Bool)
        → (basis ≡ q.z_basis → basis ≡ q.z_basis → o' ≡ xor o (xor (xor x m2) (sent w.m2 m2)))
        → (basis ≡ q.x_basis → basis ≡ q.x_basis → o' ≡ xor o (xor (xor z m1) (sent w.m1 m1)))
        → correct_outcome q is_z is_x o' basis (xor (sent w.m2 m2) m2) (xor (sent w.m1 m1) m1)
          ≡ ok (xor o (if is_z basis then x else z))
    late_correction w basis (inl at) m1 m2 o o' x z in_z in_x =
        corrected_z basis o' _ _ at
        ∙ ap ok (
            ap (λ t. xor t (xor (sent w.m2 m2) m2)) (in_z at at)
            ∙ repaired o x m2 (sent w.m2 m2)
            ∙ rw at (rw z_is_z refl))
    late_correction w basis (inr at) m1 m2 o o' x z in_z in_x =
        corrected_x basis o' _ _ at
        ∙ ap ok (
            ap (λ t. xor t (xor (sent w.m1 m1) m1)) (in_x at at)
            ∙ repaired o z m1 (sent w.m1 m1)
            ∙ rw at (rw x_not_z refl))

    -- With exact arithmetic, samples in [0, 1), two pairs and a basis of 0 or pi / 2, which the tests of
    -- `correct_outcome` tell apart: whichever correction bits come too late for the receiver, the shot,
    -- a measurement of the data qubit's old partner and the corrected read-out return, and the two
    -- outcomes differ exactly by the errors of the two pairs in that basis.
    pub late_outcome :
        (w : Withheld) (r : QStateRegister q) (a data_q epr_a epr_b : ℕ)
        (samp1 samp2 samp3 samp4 : F) (x1 z1 x2 z2 : Bool) (basis : q.Angle)
        → (basis ≡ q.z_basis) ⊎ (basis ≡ q.x_basis)
        → q.lt samp4 q.one ≡ true
        → q.lt samp4 q.zero ≡ false
        → Distinct (a ∷ data_q ∷ epr_a ∷ epr_b ∷ [])
        → IsPair q e r a data_q x1 z1
        → IsPair q e r epr_a epr_b x2 z2
        → (r1 : QStateRegister q) × (r2 : QStateRegister q) × (r3 : QStateRegister q) × (m1 : Bool)
          × (m2 : Bool) × (o : Bool) × (out : Bool) × (teleport_shot q w data_q epr_a epr_b samp1
                samp2 r
              ≡ ok (r1, m1, m2))
          × (measure q a basis samp3 r1 ≡ ok (r2, o))
          × (read_out q is_z is_x true w m1 m2 epr_b basis samp4 r2 ≡ ok (r3, out))
          × (out ≡ xor o (if is_z basis then xor x1 x2 else xor z1 z2))
    unfolding read_out
    late_outcome w r a b c d samp1 samp2 samp3 samp4 x1 z1 x2 z2 basis known below above apart h1
          h2 =
        let (r1, m1, m2, shot, pair) =
          shot-IsPair w r a b c d samp1 samp2 x1 z1 x2 z2 apart h1 h2 in
        let (r2, r3, o, o', first, second, in_z, in_x) =
          measure-ends q e r1 a d basis basis samp3 samp4 _ _ (ground (arith, apart)) below above
            pair in
        (
          r1,
          r2,
          r3,
          m1,
          m2,
          o,
          _,
          shot,
          first,
          rw second (
              rw (late_correction w basis known m1 m2 o o' (xor x1 x2) (xor z1 z2) in_z in_x) refl),
          refl,
        )
