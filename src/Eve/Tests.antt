-- ===== src/Eve/Tests.antt =====
-- Eve taps every photon of a train of three.
use qfabric.Prelude.{ℕ, ◌≡◌, refl, List, [], ◌∷◌}
use qfabric.Floats.Hundredths.{floats}
use qfabric.Random.Counter.{counter}
use qfabric.Eve.{Pulse, InterceptResendEve, new_eve, intercept_pulses, intercept, passes}
use qfabric.Eve.Resend.{AllResent, IsCounted, intercept_pulses-IsResent}

abbrev pulse : ℕ → Pulse
pulse n = record { seq = n; basis = 1; bit = 1; rest = 2 ∷ [] }

abbrev train : List Pulse
train = pulse 0 ∷ pulse 1 ∷ pulse 2 ∷ []

abbrev eve : InterceptResendEve floats counter
eve = new_eve floats counter 100 1

matches : ((intercept_pulses floats counter train eve).1).eve_basis_match ≡ 2
unfolding intercept_pulses intercept passes
matches = refl

intercept_pulses-IsResent_example :
    AllResent train ((intercept_pulses floats counter train eve).0)
    × IsCounted floats counter eve ((intercept_pulses floats counter train eve).1) 3
intercept_pulses-IsResent_example = intercept_pulses-IsResent floats counter train eve
