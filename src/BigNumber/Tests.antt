-- ===== src/BigNumber/Tests.antt =====
-- The theorems on the older number package at concrete inputs.
use bclib.Base.{◌≢◌, [], ◌∷◌}
use bclib.Go.Text.{Bytes}

abbrev minus_five : Bytes
minus_five = 0xFF ∷ 5 ∷ []

not_lone : minus_five ≢ 0xFF ∷ []
not_lone e = cc
