-- ===== src/DistributedQkd/Parked.antt =====
-- With a dead time, reception parks the first pulse of each slot, however the train is cut and mixed.
use qfabric.Prelude.{
  ℕ, suc, ◌≡◌, refl, sym, ◌∙◌, ap, subst, inl, inr, Bool, true, false, ◌||◌, Bool-cases, Option,
  none, some, List, [], ◌∷◌, ◌++◌, append_assoc, append-nil, arith, ◌==◌, if◌then◌else◌,
}
use qfabric.Prelude.Maps.{lookup, insert, is_some, lookup-insert}
use qfabric.Prelude.Elem.{elem}
use qfabric.Floats.{Floats}
use qfabric.Random.{Generator}
use qfabric.Detector.{Settings, Detector, zero_f}
use qfabric.Eve.{Pulse, InterceptResendEve, intercept, intercept_pulses}
use qfabric.DistributedQkd.{Slot, slot_of, Bob, receive_pulse, receive_pulses, intercepted}

-- The first pulse of slot i.
unfoldable pub first : ℕ → List Pulse → Option Slot
first i [] = none
first i (p ∷ pulses) = if p.seq == i then some (slot_of p) else first i pulses

first-append :
    (i : ℕ) (xs ys : List Pulse)
    → first i (xs ++ ys) ≡ (if is_some (first i xs) then first i xs else first i ys)
unfolding first
first-append i [] ys = refl
first-append i (p ∷ xs) ys = ground (arith, first-append i xs ys)

if_some : {A : Type 0} (o : Option A) → (if is_some o then o else none) ≡ o
if_some none = refl
if_some (some a) = refl

first-known :
    (i : ℕ) (pulses : List Pulse) (p : Pulse)
    → is_some (first p.seq pulses) ≡ true
    → first i (pulses ++ p ∷ []) ≡ first i pulses
unfolding first
first-known i pulses p known = elim (Bool-cases (p.seq == i)) [
  | inl e ↦
      let same : p.seq ≡ i = ground (arith, e) in
      let here = subst (λ (k : ℕ). is_some (first k pulses) ≡ true) same known in
      first-append i pulses (p ∷ []) ∙ rw here refl
  | inr e ↦ first-append i pulses (p ∷ []) ∙ rw e (if_some (first i pulses))
]

first-new :
    (i : ℕ) (pulses : List Pulse) (p : Pulse)
    → is_some (first p.seq pulses) ≡ false
    → first i (pulses ++ p ∷ []) ≡ (if p.seq == i then some (slot_of p) else first i pulses)
unfolding first
first-new i pulses p new = elim (Bool-cases (p.seq == i)) [
  | inl e ↦
      let same : p.seq ≡ i = ground (arith, e) in
      let here = subst (λ (k : ℕ). is_some (first k pulses) ≡ false) same new in
      first-append i pulses (p ∷ []) ∙ rw (here, e) refl
  | inr e ↦ first-append i pulses (p ∷ []) ∙ rw e (if_some (first i pulses))
]

is_some_if :
    {A : Type 0} (b : Bool) (a : A) (o : Option A)
    → is_some (if b then some a else o) ≡ (b || is_some o)
is_some_if true a o = refl
is_some_if false a o = refl

seen_new :
    (i : ℕ) (p : Pulse) (pulses : List Pulse) (old : Bool)
    → old ≡ is_some (first i pulses)
    → is_some (first p.seq pulses) ≡ false
    → ((i == p.seq) || old) ≡ is_some (first i (pulses ++ p ∷ []))
seen_new i p pulses old e new = sym (
    ap is_some (first-new i pulses p new)
    ∙ is_some_if (p.seq == i) (slot_of p) (first i pulses)
    ∙ ground (arith, e))

module _ (f : Floats) (g : Generator f) (s : Settings f g) where
  intercept_pulses-append :
      (xs ys : List Pulse) (eve : InterceptResendEve f g)
      → intercept_pulses f g (xs ++ ys) eve ≡ (
          let (a, eve₁) = intercept_pulses f g xs eve in
          let (b, eve₂) = intercept_pulses f g ys eve₁ in (a ++ b, eve₂))
  unfolding intercept_pulses
  intercept_pulses-append [] ys eve = refl
  intercept_pulses-append (p ∷ xs) ys eve =
      let (sent, eve₁) = intercept f g p.basis p.bit eve in
      ap (λ r. (record { seq = p.seq; basis = sent.0; bit = sent.1; rest = p.rest } ∷ r.0, r.1))
        (intercept_pulses-append xs ys eve₁)

  pub intercepted-append :
      (eve : Option (InterceptResendEve f g)) (xs ys : List Pulse)
      → intercepted f g eve (xs ++ ys) ≡ (
          let (a, eve₁) = intercepted f g eve xs in
          let (b, eve₂) = intercepted f g eve₁ ys in (a ++ b, eve₂))
  intercepted-append none xs ys = refl
  intercepted-append (some eve) xs ys =
      ap (λ r. (r.0, some (r.1))) (intercept_pulses-append xs ys eve)

  -- Bob's state when the given pulses have reached a detector with a dead time.
  pub record IsParked (d : Detector f g) (pulses : List Pulse) (b : Bob f g) : Type 0 where
    pub working : b.working ≡ true
    pub records : b.records ≡ []
    pub detector : b.detector ≡ d
    pub parked : (i : ℕ) → lookup i b.pending ≡ first i pulses
    pub seen : (i : ℕ) → elem i b.seen ≡ is_some (first i pulses)

  module _ (dead : f.lt (zero_f f g) s.dead_time ≡ true) where
    pub receive_pulse-again :
        (p : Pulse) (b : Bob f g)
        → elem p.seq b.seen ≡ true
        → receive_pulse f g s p b ≡ record b { duplicates = suc b.duplicates }
    unfolding receive_pulse
    receive_pulse-again p b e = rw (receive_pulse, e) refl

    pub receive_pulse-new :
        (p : Pulse) (b : Bob f g)
        → elem p.seq b.seen ≡ false
        → receive_pulse f g s p b
          ≡ record b { seen = p.seq ∷ b.seen; pending = insert p.seq (slot_of p) b.pending }
    unfolding receive_pulse
    receive_pulse-new p b e = rw (receive_pulse, e, dead) refl

    receive_pulse-IsParked :
        (d : Detector f g) (pulses : List Pulse) (p : Pulse) (b : Bob f g)
        → IsParked d pulses b
        → IsParked d (pulses ++ p ∷ []) (receive_pulse f g s p b)
    receive_pulse-IsParked d pulses p b h = elim (Bool-cases (elem p.seq b.seen)) [
      | inl e ↦ subst (IsParked d (pulses ++ p ∷ [])) (sym (receive_pulse-again p b e)) (record {
        working = h.working;
        records = h.records;
        detector = h.detector;
        parked = λ i. h.parked i ∙ sym (first-known i pulses p (sym (h.seen p.seq) ∙ e));
        seen = λ i. h.seen i ∙ ap is_some (sym (first-known i pulses p (sym (h.seen p.seq) ∙ e)));
      })
      | inr e ↦
          let new = sym (h.seen p.seq) ∙ e in
          subst (IsParked d (pulses ++ p ∷ [])) (sym (receive_pulse-new p b e)) (record {
            working = h.working;
            records = h.records;
            detector = h.detector;
            parked = λ i.
                lookup-insert p.seq i (slot_of p) b.pending
                ∙ ap (λ o. if p.seq == i then some (slot_of p) else o) (h.parked i)
                ∙ sym (first-new i pulses p new);
            seen = λ i. seen_new i p pulses (elem i b.seen) (h.seen i) new;
          })
    ]

    pub receive_pulses-IsParked :
        (d : Detector f g) (pulses more : List Pulse) (b : Bob f g)
        → IsParked d pulses b
        → IsParked d (pulses ++ more) (receive_pulses f g s more b)
    unfolding receive_pulses
    receive_pulses-IsParked d pulses [] b h = rw (append-nil pulses) h
    receive_pulses-IsParked d pulses (p ∷ more) b h =
        subst (λ xs. IsParked d xs (receive_pulses f g s more (receive_pulse f g s p b)))
          (append_assoc pulses (p ∷ []) more)
          (receive_pulses-IsParked d (pulses ++ p ∷ []) more (receive_pulse f g s p b)
            (receive_pulse-IsParked d pulses p b h))
