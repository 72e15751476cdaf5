-- ===== src/Manual/Gateway/Freshness.antt =====
-- The stale-command watchdog of the sender: which command a worker round may still send.
use px4_dxp.Prelude.{
  ℕ, ◌+◌, ◌≤◌, ◌≡◌, ◌⊎◌, refl, Bool, true, Option, none, some, List, [], ◌∷◌, arith,
}
use px4_dxp.Manual.Gateway.{
  Frame, neutral_frame, Gateway, Sending, init, send, send_neutral, flush_neutral, activate_neutral,
  deactivate_neutral, accept_command, worker_frame, worker_round,
}

-- The calls of the gateway.
pub data Call : Type 0 where
  accept : ℕ → Frame → Call
  neutral : Bool → Sending → Call
  flush : List Sending → Call
  activate : ℕ → Sending → Call
  deactivate : ℕ → Sending → Sending → Sending → Call
  round : ℕ → Sending → Call

unfoldable pub call : ℕ → Call → Gateway → Gateway
call stale (accept now f) g = accept_command now f g
call stale (neutral refresh w) g = send_neutral refresh w g
call stale (flush ws) g = flush_neutral ws g
call stale (activate now w) g = activate_neutral now w g
call stale (deactivate now w1 w2 w3) g = deactivate_neutral now w1 w2 w3 g
call stale (round now w) g = worker_round stale now w g

unfoldable pub run_from : ℕ → Gateway → List Call → Gateway
run_from stale g [] = g
run_from stale g (c ∷ cs) = run_from stale (call stale c g) cs

-- The command that stands after a history: the last one accepted, unless it was neutralised.
-- Neutralising without a refresh keeps the time at which the command came.
abbrev pub Command : Type 0
Command = Option (ℕ × Frame)

abbrev pub standing : Command → List Call → Command
standing o [] = o
standing o (accept now f ∷ cs) = standing (some (now, f)) cs
standing o (neutral refresh w ∷ cs) = standing none cs
standing o (flush [] ∷ cs) = standing o cs
standing o (flush (w ∷ ws) ∷ cs) = standing none cs
standing o (activate now w ∷ cs) = standing none cs
standing o (deactivate now w1 w2 w3 ∷ cs) = standing none cs
standing o (round now w ∷ cs) = standing o cs

-- What the gateway holds for a standing command.
abbrev Holds : Command → Gateway → Type 0
Holds none g = g.last_frame ≡ neutral_frame
Holds (some (t, f)) g = (g.last_frame ≡ f) × (g.last_receive ≡ some t)

flush-Holds : (ws : List Sending) (g : Gateway) → Holds none g → Holds none (flush_neutral ws g)
unfolding flush_neutral send_neutral send
flush-Holds [] g h = h
flush-Holds (w ∷ ws) g h = flush-Holds ws (send_neutral true w g) (ground arith)

neutral-Holds : (refresh : Bool) (w : Sending) (g : Gateway) → Holds none (send_neutral refresh w g)
unfolding send_neutral send
neutral-Holds refresh w g = ground arith

flush-Holds_some :
    (w : Sending) (ws : List Sending) (g : Gateway) → Holds none (flush_neutral (w ∷ ws) g)
unfolding flush_neutral
flush-Holds_some w ws g = flush-Holds ws (send_neutral true w g) (neutral-Holds true w g)

deactivate-Holds :
    (now : ℕ) (w1 w2 w3 : Sending) (g : Gateway) → Holds none (deactivate_neutral now w1 w2 w3 g)
unfolding deactivate_neutral
deactivate-Holds now w1 w2 w3 g = ground arith

activate-Holds : (now : ℕ) (w : Sending) (g : Gateway) → Holds none (activate_neutral now w g)
unfolding activate_neutral
activate-Holds now w g = ground arith

round-Holds :
    (stale now : ℕ) (w : Sending) (o : Command) (g : Gateway)
    → Holds o g
    → Holds o (worker_round stale now w g)
unfolding worker_round
round-Holds stale now w none g h = ground arith
round-Holds stale now w (some (t, f)) g h = ground arith

run_from-Holds :
    (stale : ℕ) (o : Command) (g : Gateway) (cs : List Call)
    → Holds o g
    → Holds (standing o cs) (run_from stale g cs)
unfolding run_from call accept_command flush_neutral
run_from-Holds stale o g [] h = h
run_from-Holds stale o g (accept now f ∷ cs) h =
    run_from-Holds stale (some (now, f)) (accept_command now f g) cs (refl, refl)
run_from-Holds stale o g (neutral refresh w ∷ cs) h =
    run_from-Holds stale none (send_neutral refresh w g) cs (neutral-Holds refresh w g)
run_from-Holds stale o g (flush [] ∷ cs) h = run_from-Holds stale o (flush_neutral [] g) cs h
run_from-Holds stale o g (flush (w ∷ ws) ∷ cs) h =
    run_from-Holds stale none (flush_neutral (w ∷ ws) g) cs (flush-Holds_some w ws g)
run_from-Holds stale o g (activate now w ∷ cs) h =
    run_from-Holds stale none (activate_neutral now w g) cs (activate-Holds now w g)
run_from-Holds stale o g (deactivate now w1 w2 w3 ∷ cs) h =
    run_from-Holds stale none (deactivate_neutral now w1 w2 w3 g) cs
      (deactivate-Holds now w1 w2 w3 g)
run_from-Holds stale o g (round now w ∷ cs) h =
    run_from-Holds stale o (worker_round stale now w g) cs (round-Holds stale now w o g h)

-- What a worker round may send for a standing command.
abbrev pub MaySend : ℕ → ℕ → Command → Frame → Type 0
MaySend stale now none f = f ≡ neutral_frame
MaySend stale now (some (t, f')) f = (f ≡ neutral_frame) ⊎ ((f ≡ f') × (now ≤ t + stale))

frame-MaySend :
    (stale now : ℕ) (o : Command) (g : Gateway)
    → Holds o g
    → MaySend stale now o (worker_frame stale now g)
unfolding worker_frame
frame-MaySend stale now none g h = ground arith
frame-MaySend stale now (some (t, f)) g h = ground arith

-- After any history of calls, a worker round sends the neutral frame, or the last accepted
-- command, provided that nothing has neutralised it since and that it came no longer ago than the
-- stale time-out.
pub worker_fresh :
    (stale now : ℕ) (cs : List Call)
    → MaySend stale now (standing none cs) (worker_frame stale now (run_from stale init cs))
unfolding init
worker_fresh stale now cs =
    frame-MaySend stale now (standing none cs) (run_from stale init cs)
      (run_from-Holds stale none init cs refl)
