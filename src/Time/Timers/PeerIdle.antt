-- ===== src/Time/Timers/PeerIdle.antt =====
-- The peer is given up only after enough expirations since it was last heard.
use srt_rs.Prelude.{◌+◌, ◌≤◌, ◌<◌, ◌≡◌, none, List, [], ◌∷◌, arith, length}
use srt_rs.Packet.Instant.{Instant}
use srt_rs.Time.Timers.{Timers, check_peer_idle_timeout, reset_exp, exp_max}

-- A check adds one to the count at most.
exp_count-check :
    (t : Timers) (now : Instant) → (check_peer_idle_timeout t now).0.exp_count ≤ t.exp_count + 1
unfolding check_peer_idle_timeout
exp_count-check t now = ground arith

-- A check that finds the peer idle has counted past the limit.
check_past_limit :
    (t : Timers) (now : Instant) → t.exp_count ≤ exp_max → (check_peer_idle_timeout t now).1 ≡ none
unfolding check_peer_idle_timeout
check_past_limit t now h = ground arith

-- The timers after a check at each of the instants.
pub check_all : Timers → List Instant → Timers
check_all t [] = t
check_all t (now ∷ rest) = check_all (check_peer_idle_timeout t now).0 rest

exp_count-check_all :
    (t : Timers) (instants : List Instant)
    → (check_all t instants).exp_count ≤ t.exp_count + length instants
unfolding check_all
exp_count-check_all t [] = omega arith
exp_count-check_all t (now ∷ rest) =
    omega (arith, exp_count-check_all (check_peer_idle_timeout t now).0 rest, exp_count-check t now)

-- After a packet from the peer, none of the next 16 checks finds the peer idle, whatever the
-- instants: the check at `now` after fewer than 16 others gives none.
pub no_timeout_after_reset :
    (t : Timers) (heard now : Instant) (instants : List Instant)
    → length instants < 16
    → (check_peer_idle_timeout (check_all (reset_exp t heard) instants) now).1 ≡ none
unfolding reset_exp
no_timeout_after_reset t heard now instants h =
    check_past_limit _ now (omega (arith, exp_count-check_all (reset_exp t heard) instants))
