-- ===== src/Manual/Gateway/Tests.antt =====
-- Runs of the sender, with each claim's theorem at one input.
use px4_dxp.Prelude.{◌≡◌, refl, some, true, List, [], ◌∷◌, pos}
use px4_dxp.Manual.Gateway.{finite, Frame, init, encode, worker_frame}
use px4_dxp.Manual.Gateway.Freshness.{Call, accept, round, run_from, MaySend, worker_fresh}

-- Half a turn to the right at a quarter of the throttle.
abbrev turn : Frame
turn = record { x = pos 0; y = pos 500; z = 625; r = pos 0; buttons = 0 }

encode-turn : encode (finite (pos 250_000)) (finite (pos 500_000)) ≡ some turn
unfolding encode
encode-turn = refl

abbrev calls : List Call
calls = accept 10 turn ∷ round 12 (record { now = 12; taken = true }) ∷ []

worker_fresh_example : MaySend 5 14 (some (10, turn)) (worker_frame 5 14 (run_from 5 init calls))
worker_fresh_example = worker_fresh 5 14 calls
