-- ===== src/SprayFsm/Safety.antt =====
-- When the spray may be on: over one tick, one ack, and whole histories.
use px4_dxp.Prelude.{ℕ, ◌+◌, ◌≡◌, Bool, true, false, Option, none, some, List, [], ◌∷◌, arith}
use px4_dxp.SprayFsm.{
  off_confirmed, on_pending, SprayCommand, Config, Fsm, Inputs, Event, tick_at, ack_at, reset_at,
  init, tick, on_ack, note_event_reset, handle, run_from, run, spraying, commanded,
}

abbrev pub AllowsOn : Inputs → Type 0
AllowsOn i = (i.desired ≡ true) × (i.safety_ok ≡ true) × (i.enabled ≡ true)

-- A tick asks for ON only from a confirmed OFF, with spray desired, safety good and the spray
-- enabled now and at the tick before; it stamps the next sequence number and waits for the ack.
pub tick-on_dispatch :
    (c : Config) (i : Inputs) (now : ℕ) (f : Fsm) {cmd : SprayCommand}
    → (tick c i now f).1 ≡ some cmd
    → cmd.on ≡ true
    → (f.state ≡ off_confirmed)
      × AllowsOn i
      × (f.prev_enabled ≡ true)
      × (cmd.seq ≡ f.cmd_seq + 1)
      × ((tick c i now f).0.state ≡ on_pending)
unfolding tick
tick-on_dispatch c i now f h on = ground arith

-- Only a successful ack of the current ON command turns the spray on.
pub on_ack-spraying :
    (c : Config) (seq : ℕ) (success : Bool) (now : ℕ) (f : Fsm)
    → spraying f ≡ false
    → spraying (on_ack c seq success now f).0 ≡ true
    → (f.state ≡ on_pending) × (seq ≡ f.cmd_seq) × (success ≡ true)
unfolding on_ack spraying
on_ack-spraying c seq success now f off on = ground arith

-- What the last tick of a history said, with a start value.
abbrev pub last_tick : Option Inputs → List Event → Option Inputs
last_tick o [] = o
last_tick o (tick_at i now ∷ es) = last_tick (some i) es
last_tick o (ack_at seq success now ∷ es) = last_tick o es
last_tick o (reset_at now ∷ es) = last_tick o es

abbrev pub Allowed : Option Inputs → Type 0
Allowed none = ⊥
Allowed (some i) = AllowsOn i

-- Every ON intent is backed by the last tick.
abbrev pub Backed : Fsm → Option Inputs → Type 0
Backed f o = commanded f ≡ true → Allowed o

pub tick-Backed : (c : Config) (i : Inputs) (now : ℕ) (f : Fsm) → Backed (tick c i now f).0 (some i)
unfolding tick commanded
tick-Backed c i now f = ground arith

pub on_ack-commanded :
    (c : Config) (seq : ℕ) (success : Bool) (now : ℕ) (f : Fsm)
    → commanded (on_ack c seq success now f).0 ≡ true
    → commanded f ≡ true
unfolding on_ack commanded
on_ack-commanded c seq success now f h = ground arith

note_event_reset-commanded : (now : ℕ) (f : Fsm) → commanded (note_event_reset now f) ≡ commanded f
unfolding note_event_reset commanded
note_event_reset-commanded now f = ground arith

run_from-Backed :
    (c : Config) (f : Fsm) (o : Option Inputs) (es : List Event)
    → Backed f o
    → Backed (run_from c f es) (last_tick o es)
unfolding run_from handle
run_from-Backed c f o [] b = b
run_from-Backed c f o (tick_at i now ∷ es) b =
    run_from-Backed c (tick c i now f).0 (some i) es (tick-Backed c i now f)
run_from-Backed c f o (ack_at seq success now ∷ es) b =
    run_from-Backed c (on_ack c seq success now f).0 o es
      (λ h. b (on_ack-commanded c seq success now f h))
run_from-Backed c f o (reset_at now ∷ es) b =
    run_from-Backed c (note_event_reset now f) o es
      (λ h. b (rw (← note_event_reset-commanded now f) h))

-- Over any history: while ON is commanded or confirmed, the last tick had spray desired, safety
-- good and the spray enabled.
pub commanded_needs_tick :
    (c : Config) (es : List Event) → commanded (run c es) ≡ true → Allowed (last_tick none es)
unfolding run init commanded
commanded_needs_tick c es = run_from-Backed c init none es (λ h. cc)
