-- ===== src/Manual/Gateway.antt =====
-- server/manual_control_gateway.py: the fixed-rate sender of manual-control frames. Stick
-- positions are millionths of full deflection, times whole clock ticks. What the transport answers
-- to a frame (sent, or an exception) and what the clock says are arguments; a locked block and the
-- sending of one frame are one step.
pub mod Encoding
pub mod Freshness
mod Tests
use px4_dxp.Prelude.{
  ℕ, zero, suc, ◌+◌, ◌-◌, ◌*◌, ◌/◌, ◌%◌, Bool, true, false, ◌&&◌, Option, none, some, List, [], ◌∷◌,
  ℤ, pos, negsuc, neg, leb_ℤ, ltb, leb, ◌==◌, if◌then◌else◌,
}
use Prim.Native.Nat.{min}

-- A float of a stick: the values that `math.isfinite` tells apart.
pub data Axis : Type 0 where
  nan pos_inf neg_inf : Axis
  finite : ℤ → Axis

pub record Frame : Type 0 where
  pub x : ℤ
  pub y : ℤ
  pub z : ℕ
  pub r : ℤ
  pub buttons : ℕ

abbrev pub full : ℕ
full = 1_000_000

abbrev pub neutral_frame : Frame
neutral_frame = record { x = pos 0; y = pos 0; z = 500; r = pos 0; buttons = 0 }

-- `max(lo, min(hi, v))` for `lo` = -m and `hi` = m.
unfoldable pub clamp : ℕ → ℤ → ℤ
clamp m (pos n) = pos (min n m)
clamp m (negsuc n) = if ltb n m then negsuc n else neg m

-- Python's `round(n / d)`, which takes the even neighbour of a half.
unfoldable pub round_div : ℕ → ℕ → ℕ
round_div n d =
    if ltb (2 * (n % d)) d
    then n / d
    else if ltb d (2 * (n % d))
    then n / d + 1
    else if n / d % 2 == 0
    then n / d
    else n / d + 1

-- `round(steering * 1000.0)`, which is odd.
unfoldable pub thousandths : ℤ → ℤ
unfolding round_div
thousandths (pos n) = pos (round_div n 1000)
thousandths (negsuc n) = neg (round_div (suc n) 1000)

-- `round((throttle + 1.0) * 500.0)` for a throttle of at least -1.
unfoldable pub thrust : ℤ → ℕ
unfolding round_div
thrust (pos n) = round_div (n + full) 2000
thrust (negsuc n) = round_div (full - suc n) 2000

-- `encode_manual_control`; `none` is the ValueError.
unfoldable pub encode : Axis → Axis → Option Frame
unfolding clamp thousandths thrust
encode (finite t) (finite s) = some (record {
  x = pos 0;
  y = clamp 1000 (thousandths (clamp full s));
  z = min (thrust (clamp full t)) 1000;
  r = pos 0;
  buttons = 0;
})
encode _ _ = none

pub record Gateway : Type 0 where
  pub active : Bool
  pub last_frame : Frame
  pub last_receive : Option ℕ
  pub last_sent_frame : Frame
  pub last_send : Option ℕ
  pub failing : Bool

unfoldable pub init : Gateway
init = record {
  active = false;
  last_frame = neutral_frame;
  last_receive = none;
  last_sent_frame = neutral_frame;
  last_send = none;
  failing = false;
}

-- What a frame handed to the transport meets: the clock, and whether the transport took it.
pub record Sending : Type 0 where
  pub now : ℕ
  pub taken : Bool

-- `_send`; `failing` says whether `_last_error` is set.
unfoldable pub send : Sending → Frame → Gateway → Gateway
send w f g =
    if w.taken
    then record g { last_sent_frame = f; last_send = some w.now; failing = false }
    else record g { failing = true }

unfoldable pub send_neutral : Bool → Sending → Gateway → Gateway
unfolding send
send_neutral refresh w g = send w neutral_frame (record g {
  last_frame = neutral_frame;
  last_receive = if refresh then some w.now else g.last_receive;
})

-- `flush_neutral`, and the loop of `wait_neutral_barrier`: one neutral frame for each sending.
unfoldable pub flush_neutral : List Sending → Gateway → Gateway
unfolding send_neutral
flush_neutral [] g = g
flush_neutral (w ∷ ws) g = flush_neutral ws (send_neutral true w g)

-- Both begin with the same locked block, with the flag up or down.
reset : Bool → ℕ → Gateway → Gateway
reset on now g = record g { active = on; last_frame = neutral_frame; last_receive = some now }

unfoldable pub activate_neutral : ℕ → Sending → Gateway → Gateway
unfolding reset send_neutral
activate_neutral now w g = send_neutral true w (reset true now g)

-- `flush_neutral(frames=3)` behind the locked block.
unfoldable pub deactivate_neutral : ℕ → Sending → Sending → Sending → Gateway → Gateway
unfolding reset flush_neutral
deactivate_neutral now w1 w2 w3 g = flush_neutral (w1 ∷ w2 ∷ w3 ∷ []) (reset false now g)

unfoldable pub accept_command : ℕ → Frame → Gateway → Gateway
accept_command now f g = record g { active = true; last_frame = f; last_receive = some now }

-- `now - receive_ts <= stale_timeout`
abbrev pub is_recent : ℕ → ℕ → Option ℕ → Bool
is_recent stale now none = false
is_recent stale now (some t) = leb now (t + stale)

-- The frame that a round of the worker thread sends, by what it read under the lock.
unfoldable pub worker_frame : ℕ → ℕ → Gateway → Frame
worker_frame stale now g =
    if g.active && is_recent stale now g.last_receive then g.last_frame else neutral_frame

unfoldable pub worker_round : ℕ → ℕ → Sending → Gateway → Gateway
unfolding worker_frame send
worker_round stale now w g = send w (worker_frame stale now g) g
