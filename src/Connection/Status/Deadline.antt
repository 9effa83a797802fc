-- ===== src/Connection/Status/Deadline.antt =====
-- A connection closes by its deadline.
use srt_rs.Prelude.{
  ◌≡◌, refl, ◌∙◌, Bool, true, false, List, [], ◌∷◌, ◌++◌, ◌⊎◌, inl, inr, ap, sym, arith, if_elim,
  if◌then◌else◌,
}
use srt_rs.Packet.Instant.{Instant, Duration, before, plus}
use srt_rs.Connection.Status.{
  Status, open_for, shutdown, drain, closed, ConnectionStatus, is_closed, closed_status,
  check_sender_shutdown, check_receive_close_timeout, start_drain, receiver_step, receiver_arm,
}
use mathlib.Core.Path.{subst}
use srt_rs.Connection.Status.Events.{
  Event, data_stream_closed, socket_closed, peer_idle_timeout, shutdown_packet, sender_check,
  receiver_check, step, run,
}

-- The receiver drains until a deadline, or the connection is closed.
Drains : Instant → ConnectionStatus → Type 0
Drains deadline c =
    (c.receiver ≡ drain deadline) ⊎ ((c.receiver ≡ closed) × (c.connection ≡ closed))

receiver_step-Drains :
    (deadline : Instant) (c : ConnectionStatus) (b : Bool) (now d : Instant)
    → Drains deadline c
    → Drains deadline (receiver_step c b now d).0
unfolding receiver_step Drains
receiver_step-Drains deadline c b now d h =
    if_elim {A = ConnectionStatus × Bool} (λ x. Drains deadline x.0) b (λ on. inr (refl, refl))
      λ off.
        if_elim {A = ConnectionStatus × Bool} (λ x. Drains deadline x.0) (before d now)
          (λ on. inr (refl, refl)) λ wait. h

receiver_arm-Drains :
    (deadline : Instant) (c : ConnectionStatus) (b : Bool) (now : Instant) (s : Status)
    → Drains deadline c
    → Drains deadline (receiver_arm c b now s).0
unfolding receiver_arm
receiver_arm-Drains deadline c b now (open_for t) h = h
receiver_arm-Drains deadline c b now (shutdown t) h = receiver_step-Drains deadline c b now t h
receiver_arm-Drains deadline c b now (drain t) h = receiver_step-Drains deadline c b now t h
receiver_arm-Drains deadline c b now closed h = h

start_drain-Drains :
    (deadline : Instant) (c : ConnectionStatus) (now : Instant)
    → Drains deadline c
    → Drains deadline (record c { receiver = start_drain now c.receiver })
unfolding start_drain Drains
start_drain-Drains deadline c now (inl e) = inl (ap (start_drain now) e)
start_drain-Drains deadline c now (inr (e, f)) = inr (ap (start_drain now) e, f)

stays_closed : (b : Bool) (s : Status) → s ≡ closed → (if b then closed else s) ≡ closed
stays_closed true s e = refl
stays_closed false s e = e

sender_check-Drains :
    (deadline : Instant) (c : ConnectionStatus) (now : Instant) (sent received output : Bool)
    → Drains deadline c
    → Drains deadline (check_sender_shutdown c now sent received output).0
unfolding check_sender_shutdown Drains
sender_check-Drains deadline c now sent received output (inl e) = inl e
sender_check-Drains deadline c now sent received output (inr (e, f)) =
    inr (e, stays_closed _ c.connection f)

step-Drains :
    (deadline : Instant) (c : ConnectionStatus) (e : Event)
    → Drains deadline c
    → Drains deadline (step c e)
unfolding step Drains
step-Drains deadline c (data_stream_closed now) h = h
step-Drains deadline c (socket_closed now) h = start_drain-Drains deadline c now h
step-Drains deadline c (peer_idle_timeout now) h = start_drain-Drains deadline c now h
step-Drains deadline c (shutdown_packet now) h = start_drain-Drains deadline c now h
step-Drains deadline c (sender_check now sent received output) h =
    sender_check-Drains deadline c now sent received output h
step-Drains deadline c (receiver_check now received) h =
    receiver_arm-Drains deadline c received now c.receiver h

run-Drains :
    (deadline : Instant) (c : ConnectionStatus) (es : List Event)
    → Drains deadline c
    → Drains deadline (run c es)
unfolding run
run-Drains deadline c [] h = h
run-Drains deadline c (e ∷ es) h = run-Drains deadline (step c e) es (step-Drains deadline c e h)

check_after_deadline :
    (deadline : Instant) (c : ConnectionStatus) (later : Instant) (b : Bool)
    → Drains deadline c
    → before deadline later ≡ true
    → (check_receive_close_timeout c later b).0.connection ≡ closed
unfolding check_receive_close_timeout receiver_arm receiver_step Drains
check_after_deadline deadline c later b (inl e) h =
    subst (λ s. (receiver_arm c b later s).0.connection ≡ closed) (sym e)
      (if_elim {A = ConnectionStatus × Bool} (λ x. x.0.connection ≡ closed) b (λ on. refl)
        λ off.
          if_elim {A = ConnectionStatus × Bool} (λ x. x.0.connection ≡ closed)
            (before deadline later) (λ late. refl) λ early. absurd (ground arith))
check_after_deadline deadline c later b (inr (e, f)) h =
    subst (λ s. (receiver_arm c b later s).0.connection ≡ closed) (sym e) f

run_snoc :
    (c : ConnectionStatus) (es : List Event) (e : Event) → run c (es ++ e ∷ []) ≡ step (run c es) e
unfolding run
run_snoc c [] e = refl
run_snoc c (x ∷ es) e = run_snoc (step c x) es e

-- When the socket of an open receiver is closed, the connection is closed by the first check of
-- the receiver after the flush timeout, whatever happens in between and whether or not the buffer
-- is flushed.
pub closes_by_deadline :
    (c : ConnectionStatus) (timeout : Duration) (now later : Instant) (events : List Event)
    (flushed : Bool)
    → c.receiver ≡ open_for timeout
    → before (plus now timeout) later ≡ true
    → is_closed (run c (socket_closed now ∷ events ++ receiver_check later flushed ∷ [])) ≡ true
unfolding is_closed run step Drains
closes_by_deadline c timeout now later events flushed e h =
    let start = record c { receiver = start_drain now c.receiver } in
    let d : Drains (plus now timeout) start = inl (ap (start_drain now) e) in
    ap closed_status (
      ap (λ x. x.connection) (run_snoc start events (receiver_check later flushed))
      ∙ check_after_deadline (plus now timeout) (run start events) later flushed
          (run-Drains (plus now timeout) start events d) h)
