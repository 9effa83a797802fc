-- ===== src/Connection/Tests.antt =====
-- The end of a connection at concrete instants.
use srt_rs.Prelude.{◌≡◌, refl, true, false, List, [], ◌∷◌, ◌++◌, pos, ◌+ℤ◌}
use srt_rs.Connection.Status.{ConnectionStatus, new, is_closed}
use srt_rs.Connection.Status.Events.{
  Event, data_stream_closed, socket_closed, sender_check, receiver_check, shutdown_packet, run,
}
use srt_rs.Connection.Status.Order.{Later, run-Later}
use srt_rs.Connection.Status.Deadline.{closes_by_deadline}

abbrev fresh : ConnectionStatus
fresh = new 1000

abbrev between : List Event
between =
    data_stream_closed (pos 20)
    ∷ sender_check (pos 30) false false true
    ∷ shutdown_packet (pos 40)
    ∷ []

run-Later_example : Later fresh (run fresh between)
run-Later_example = run-Later fresh between

closes_by_deadline_example :
    is_closed (run fresh (socket_closed (pos 10) ∷ between ++ receiver_check (pos 1011) false ∷ []))
    ≡ true
unfolding new ◌+ℤ◌
closes_by_deadline_example =
    closes_by_deadline fresh 1000 (pos 10) (pos 1011) between false refl refl
