-- ===== src/Hedera/Examples.antt =====
-- Tests of packages/hedera on three calls.
use repayd.Common.{List, [], ◌∷◌}
use repayd.Hedera.Meter.{EndpointId, quote, resume}

abbrev calls : List EndpointId
calls = quote ∷ resume ∷ quote ∷ []
