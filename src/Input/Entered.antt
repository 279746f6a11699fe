-- ===== src/Input/Entered.antt =====
-- Which passwords are accepted.
use bclib.Go.Result.{Result}
