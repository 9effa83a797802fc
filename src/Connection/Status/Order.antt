-- ===== src/Connection/Status/Order.antt =====
-- A connection never goes back: from open through shutdown and drain to closed.
use srt_rs.Prelude.{ℕ, ◌≤◌, Bool, true, false, List, [], ◌∷◌, arith, ◌||◌, if_elim, if◌then◌else◌}
use srt_rs.Packet.Instant.{Instant, before}
use srt_rs.Connection.Status.{
  Status, open_for, shutdown, drain, closed, ConnectionStatus, shut_down, start_drain, sender_step,
  receiver_step, receiver_arm,
}
use srt_rs.Connection.Status.Events.{
  Event, data_stream_closed, socket_closed, peer_idle_timeout, shutdown_packet, sender_check,
  receiver_check, step, run,
}

-- How far a side is from being open.
abbrev pub phase : Status → ℕ
phase (open_for timeout) = 0
phase (shutdown deadline) = 1
phase (drain deadline) = 2
phase closed = 3

shut_down-phase : (now : Instant) (s : Status) → phase s ≤ phase (shut_down now s)
unfolding shut_down
shut_down-phase now (open_for t) = omega arith
shut_down-phase now (shutdown t) = omega arith
shut_down-phase now (drain t) = omega arith
shut_down-phase now closed = omega arith

start_drain-phase : (now : Instant) (s : Status) → phase s ≤ phase (start_drain now s)
unfolding start_drain
start_drain-phase now (open_for t) = omega arith
start_drain-phase now (shutdown t) = omega arith
start_drain-phase now (drain t) = omega arith
start_drain-phase now closed = omega arith

sender_step-phase :
    (b : Bool) (now : Instant) (s : Status) → phase s ≤ phase (sender_step b now s).0
unfolding sender_step
sender_step-phase b now (open_for t) = omega arith
sender_step-phase b now (shutdown t) =
    if_elim {A = Status × Bool} (λ x. 1 ≤ phase x.0) (b || before t now) (λ on. omega arith)
      λ off. omega arith
sender_step-phase b now (drain t) =
    if_elim {A = Status × Bool} (λ x. 2 ≤ phase x.0) (b || before t now) (λ on. omega arith)
      λ off. omega arith
sender_step-phase b now closed = omega arith

-- No side of a connection is less far on in another state of it.
pub record Later (c c' : ConnectionStatus) : Type 0 where
  pub connection : phase c.connection ≤ phase c'.connection
  pub sender : phase c.sender ≤ phase c'.sender
  pub receiver : phase c.receiver ≤ phase c'.receiver

same : (c : ConnectionStatus) → Later c c
same c = record { connection = omega arith; sender = omega arith; receiver = omega arith }

closed_last : (s : Status) → phase s ≤ 3
closed_last (open_for t) = omega arith
closed_last (shutdown t) = omega arith
closed_last (drain t) = omega arith
closed_last closed = omega arith

receiver_step-Later :
    (c : ConnectionStatus) (flushed : Bool) (now deadline : Instant)
    → Later c (receiver_step c flushed now deadline).0
unfolding receiver_step
receiver_step-Later c flushed now deadline =
    if_elim {A = ConnectionStatus × Bool} (λ x. Later c x.0) flushed (λ on. closes)
      λ off.
        if_elim {A = ConnectionStatus × Bool} (λ x. Later c x.0) (before deadline now)
          (λ on. closes) λ wait. same c
  where
    closes : Later c (record c { receiver = closed; connection = closed })
    closes = record {
      connection = closed_last c.connection;
      sender = omega arith;
      receiver = closed_last c.receiver;
    }

receiver_arm-Later :
    (c : ConnectionStatus) (b : Bool) (now : Instant) (s : Status)
    → Later c (receiver_arm c b now s).0
unfolding receiver_arm
receiver_arm-Later c b now (open_for t) = same c
receiver_arm-Later c b now (shutdown t) = receiver_step-Later c b now t
receiver_arm-Later c b now (drain t) = receiver_step-Later c b now t
receiver_arm-Later c b now closed = same c

closing_phase : (b : Bool) (s : Status) → phase s ≤ phase (if b then closed else s)
closing_phase true s = closed_last s
closing_phase false s = omega arith

step-Later : (c : ConnectionStatus) (e : Event) → Later c (step c e)
unfolding step
step-Later c (data_stream_closed now) = record {
  connection = omega arith;
  sender = shut_down-phase now c.sender;
  receiver = omega arith;
}
step-Later c (socket_closed now) = record {
  connection = omega arith;
  sender = omega arith;
  receiver = start_drain-phase now c.receiver;
}
step-Later c (peer_idle_timeout now) = record {
  connection = omega arith;
  sender = omega arith;
  receiver = start_drain-phase now c.receiver;
}
step-Later c (shutdown_packet now) = record {
  connection = omega arith;
  sender = omega arith;
  receiver = start_drain-phase now c.receiver;
}
step-Later c (sender_check now sent received output) = record {
  connection = closing_phase _ c.connection;
  sender = sender_step-phase _ now c.sender;
  receiver = omega arith;
}
step-Later c (receiver_check now received) = receiver_arm-Later c received now c.receiver

-- Whatever happens, in any order, no side of a connection goes back: from open through shutdown
-- and drain to closed. So a connection that is closed stays closed.
pub run-Later : (c : ConnectionStatus) (events : List Event) → Later c (run c events)
unfolding run
run-Later c [] = same c
run-Later c (e ∷ es) =
    let first = step-Later c e in
    let rest = run-Later (step c e) es in
    record {
      connection = omega (arith, first.connection, rest.connection);
      sender = omega (arith, first.sender, rest.sender);
      receiver = omega (arith, first.receiver, rest.receiver);
    }
