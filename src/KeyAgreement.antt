-- ===== src/KeyAgreement.antt =====
-- qne/reconcile.py: Cascade and privacy amplification between Alice, who answers, and Bob, who drives.
-- Bob's call of Alice is the parameter `call`; `session` closes it with Alice's own answers. The
-- random seeds are arguments, and so are the permutations of Cascade. Bob runs with finite=None.
pub mod Agree
mod Tests
use qfabric.Prelude.{
  ℕ, zero, suc, ◌+◌, ◌-◌, ◌*◌, min, max, Bool, true, false, ◌&&◌, ◌||◌, Option, none, some, List,
  [], ◌∷◌, map, length, ◌==◌, if◌then◌else◌,
}
use qfabric.Prelude.Result.{Result, ok, err, value_error, key_verification_error}
use qfabric.Floats.{Floats}
use qfabric.Sifting.Rates.{binary_entropy}
use qfabric.Cascade.{Oracle, CascadeResult, parity, initial_block_size, reconcile}
use qfabric.Privacy.{Numpy, toeplitz_amplify}

abbrev pub bit : Bool → ℕ
bit false = 0
bit true = 1

-- `tag == list(body["verify_tag"])`
pub bits_eq : List ℕ → List ℕ → Bool
bits_eq [] [] = true
bits_eq [] (c ∷ cs) = false
bits_eq (b ∷ bs) [] = false
bits_eq (b ∷ bs) (c ∷ cs) = b == c && bits_eq bs cs

-- What both sides return: the secret key, and the two counts.
pub record KeyMaterial : Type 0 where
  pub final : List ℕ
  pub corrections : ℕ
  pub bits_leaked : ℕ

module _ (f : Floats) (np : Numpy) where
  open f use {F, ratio, le, add, sub, mul, div, max_f, log2, int_of, ceil_of}

  -- The body of RECONCILE_DONE.
  pub record Done : Type 0 where
    pub corrections : ℕ
    pub bits_leaked : ℕ
    pub out_len : ℕ
    pub pa_seed : ℕ
    pub verify_seed : ℕ
    pub verify_tag : List ℕ
    pub eps_cor : F

  pub data Frame : Type 0 where
    parity_req : List (List ℕ) → Frame
    parity_resp : List Bool → Frame
    reconcile_done : Done → Frame
    reconcile_verify : Bool → Frame
    other_frame : Frame

  unfoldable pub verification_bits : F → ℕ
  verification_bits eps_cor = max 1 (ceil_of (log2 (div (ratio 2 1) eps_cor)))

  unfoldable pub verification_tag : List Bool → ℕ → F → List ℕ
  verification_tag key_bits seed eps_cor =
      toeplitz_amplify np (map bit key_bits) (verification_bits eps_cor) seed

  pub secure_key_bits : ℕ → F → ℕ → Bool → ℕ
  secure_key_bits key_bits qber bits_leaked false = 0
  secure_key_bits key_bits qber bits_leaked true =
      int_of (mul (ratio key_bits 1) (sub (ratio 1 1) (binary_entropy f qber))) - bits_leaked

  unfoldable pub cascade_sizing_qber : F → Option F → ℕ → F
  cascade_sizing_qber qber none n = max_f (max_f qber (ratio 0 1)) (ratio 1 (2 * max n 1))
  cascade_sizing_qber qber (some upper) n = max_f (max_f qber upper) (ratio 1 (2 * max n 1))

  abbrev pub key_of : List Bool → Done → KeyMaterial
  key_of key_bits d = record {
    final = toeplitz_amplify np (map bit key_bits) d.out_len d.pa_seed;
    corrections = d.corrections;
    bits_leaked = d.bits_leaked;
  }

  -- Alice's verdict on the tag that Bob announces.
  pub tag_matches : List Bool → Done → Bool
  tag_matches key_bits d = bits_eq (verification_tag key_bits d.verify_seed d.eps_cor) d.verify_tag

  -- `serve_parities`, for one frame: what Alice sends, and how her function ends if it does.
  unfoldable pub serve : List Bool → Frame → Option Frame × Option (Result KeyMaterial)
  serve key_bits (parity_req blocks) = (some (parity_resp (map (parity key_bits) blocks)), none)
  serve key_bits (parity_resp parities) = (none, some (err value_error))
  serve key_bits (reconcile_done d) =
      let matches = tag_matches key_bits d in
      (
        some (reconcile_verify matches),
        some (if matches then ok (key_of key_bits d) else err key_verification_error),
      )
  serve key_bits (reconcile_verify matches) = (none, some (err value_error))
  serve key_bits other_frame = (none, some (err value_error))

  abbrev parities_of : Option Frame → List Bool
  parities_of none = []
  parities_of (some (parity_req blocks)) = []
  parities_of (some (parity_resp parities)) = parities
  parities_of (some (reconcile_done d)) = []
  parities_of (some (reconcile_verify matches)) = []
  parities_of (some other_frame) = []

  -- `parity_oracle`. A reply of another kind raises in the source; `serve` gives none.
  abbrev pub parity_oracle : (Frame → Option Frame) → Oracle
  parity_oracle call blocks = parities_of (call (parity_req blocks))

  -- `min(out_len, int(max_out_len))` if there is a maximum
  abbrev pub capped : Option ℕ → ℕ → ℕ
  capped none out_len = out_len
  capped (some most) out_len = min out_len most

  -- What `drive_cascade` is given: the measured error rates and the choices of the caller.
  pub record Settings : Type 0 where
    pub qber : F
    pub passes : ℕ
    pub qber_pa : Option F
    pub max_out_len : Option ℕ
    pub qber_upper : Option F
    pub default_eps_cor : F
    pub perms : ℕ → List ℕ
    pub pa_seed : ℕ
    pub verify_seed : ℕ

  abbrev pub phase_qber : Settings → F
  phase_qber s = elim s.qber_pa [ none ↦ s.qber | some q ↦ max_f q (ratio 0 1) ]

  -- The announcement at the end of Cascade.
  abbrev pub announcement : Settings → CascadeResult → Done
  announcement s res = record {
    corrections = res.corrections;
    bits_leaked = res.bits_leaked;
    out_len = capped s.max_out_len (
        secure_key_bits (length res.corrected_key) (phase_qber s) res.bits_leaked true
        - verification_bits s.default_eps_cor);
    pa_seed = s.pa_seed;
    verify_seed = s.verify_seed;
    verify_tag = verification_tag res.corrected_key s.verify_seed s.default_eps_cor;
    eps_cor = s.default_eps_cor;
  }

  -- How `drive_cascade` ends on the answer to its announcement.
  abbrev pub concluded : List Bool → Done → Option Frame → Result KeyMaterial
  concluded key d none = err value_error
  concluded key d (some (reconcile_verify true)) = ok (key_of key d)
  concluded key d (some (reconcile_verify false)) = err key_verification_error
  concluded key d (some (parity_req blocks)) = err value_error
  concluded key d (some (parity_resp parities)) = err value_error
  concluded key d (some (reconcile_done d')) = err value_error
  concluded key d (some other_frame) = err value_error

  abbrev pub block_size : Settings → List Bool → ℕ
  block_size s key_bits =
      initial_block_size f (cascade_sizing_qber s.qber s.qber_upper (length key_bits))
        (length key_bits)

  -- `drive_cascade`: Bob's result, and the announcement he sends. `none` if `reconcile` does not end.
  pub drive_cascade :
      (Frame → Option Frame) → Settings → List Bool → Option (Result KeyMaterial × Done)
  drive_cascade call s key_bits =
      elim (reconcile (parity_oracle call) s.perms s.passes (block_size s key_bits) key_bits) [
        | none ↦ none
        | some res ↦
            let d = announcement s res in
            some (concluded res.corrected_key d (call (reconcile_done d)), d)
      ]

  -- Both sides: Alice's result, and Bob's.
  pub session :
      Settings → List Bool → List Bool → Option (Option (Result KeyMaterial) × Result KeyMaterial)
  session s alice bob = elim (drive_cascade (λ frame. (serve alice frame).0) s bob) [
    | none ↦ none
    | some (result, d) ↦ some ((serve alice (reconcile_done d)).1, result)
  ]
