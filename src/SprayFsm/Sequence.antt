-- ===== src/SprayFsm/Sequence.antt =====
-- The sequence numbers of src/spray_fsm.py: which answers of the actuator still count.
use px4_dxp.Prelude.{ℕ, ◌+◌, ◌≤◌, ◌<◌, ◌≡◌, Bool, none, some, List, [], ◌∷◌, arith}
use px4_dxp.SprayFsm.{
  Config, Fsm, Inputs, Event, Step, tick_at, ack_at, reset_at, tick, on_ack, handle, run_from,
}

-- What a step may do to the sequence number, by the command that it dispatches.
abbrev pub Stamps : ℕ → Step → Type 0
Stamps n (f, none) = f.cmd_seq ≡ n
Stamps n (f, some cmd) = (f.cmd_seq ≡ n + 1) × (cmd.seq ≡ n + 1)

tick-Stamps : (c : Config) (i : Inputs) (now : ℕ) (f : Fsm) → Stamps f.cmd_seq (tick c i now f)
unfolding tick
tick-Stamps c i now f = ground arith

-- Every event leaves the sequence number alone and sends nothing, or raises it by one and sends
-- a command that carries the new number.
pub handle-Stamps : (c : Config) (e : Event) (f : Fsm) → Stamps f.cmd_seq (handle c e f)
unfolding handle
handle-Stamps c (tick_at i now) f = tick-Stamps c i now f
handle-Stamps c (ack_at seq success now) f = ground arith
handle-Stamps c (reset_at now) f = ground arith

handle-cmd_seq : (c : Config) (e : Event) (f : Fsm) → f.cmd_seq ≤ (handle c e f).0.cmd_seq
handle-cmd_seq c e f = ground (arith, handle-Stamps c e f)

run_from-cmd_seq : (c : Config) (f : Fsm) (es : List Event) → f.cmd_seq ≤ (run_from c f es).cmd_seq
unfolding run_from
run_from-cmd_seq c f [] = omega arith
run_from-cmd_seq c f (e ∷ es) =
    omega (arith, handle-cmd_seq c e f, run_from-cmd_seq c (handle c e f).0 es)

-- Once a newer command was sent, the answer to an older one changes nothing and sends nothing,
-- however late it comes and whatever happened in between.
pub superseded_ack :
    (c : Config) (f : Fsm) (es : List Event) (seq : ℕ) (success : Bool) (now : ℕ)
    → seq < f.cmd_seq
    → on_ack c seq success now (run_from c f es) ≡ (run_from c f es, none)
unfolding on_ack
superseded_ack c f es seq success now h = ground (arith, run_from-cmd_seq c f es)
