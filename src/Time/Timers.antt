-- ===== src/Time/Timers.antt =====
-- srt-protocol/src/protocol/time/mod.rs: the timers of a connection.
pub mod Schedule
pub mod PeerIdle
use srt_rs.Prelude.{ℕ, ◌+◌, ◌*◌, ◌/◌, max, Bool, Option, none, some, ltb, if◌then◌else◌, ◌>>=◌}
use srt_rs.Packet.Instant.{Instant, Duration, from_millis, earlier, later}
use srt_rs.Time.Rtt
use srt_rs.Time.Rtt.{Rtt}
use srt_rs.Time.Timer
use srt_rs.Time.Timer.{Timer}

pub record Timers : Type 0 where
  pub snd : Timer
  pub full_ack : Timer
  pub nak : Timer
  pub exp : Timer
  pub exp_count : ℕ
  pub peer_idle : Timer
  pub statistics : Timer

abbrev pub syn : Duration
syn = from_millis 10

abbrev pub exp_max : ℕ
exp_max = 16

-- `none` is the panic of the conversion of a negative round trip time.
unfoldable pub calculate_periods : ℕ → Rtt → Option (Duration × Duration × Duration)
unfolding Rtt.mean_as_duration Rtt.variance_as_duration
calculate_periods exp_count rtt = do
  mean ← Rtt.mean_as_duration rtt
  variance ← Rtt.variance_as_duration rtt
  some (
    from_millis 10,
    max ((mean + 4 * variance) / 2) (from_millis 20),
    max (exp_count * (4 * mean + variance + syn)) (exp_count * from_millis 300),
  )

unfoldable pub new : Instant → Duration → Duration → Option Timers
unfolding calculate_periods Timer.new
new now statistics_interval peer_idle_timeout = do
  (ack, nak, exp) ← calculate_periods 1 Rtt.default
  some (record {
    snd = Timer.new now (from_millis 1);
    full_ack = Timer.new now ack;
    nak = Timer.new now nak;
    exp = Timer.new now exp;
    exp_count = 1;
    peer_idle = Timer.new now peer_idle_timeout;
    statistics = Timer.new now statistics_interval;
  })

-- `next_timer` up to its last line; `has_unacked` is the test `unacked_packets > 0`.
unfoldable pub first_timer : Timers → Bool → Option Instant → Bool → Instant
first_timer t has_packets_to_send next_message has_unacked =
    let timer1 = earlier (Timer.next_instant t.exp) (Timer.next_instant t.nak) in
    let timer2 : Instant = elim next_message [
      | none ↦ timer1
      | some message ↦ earlier timer1 message
    ] in
    let timer3 = if has_unacked then earlier (Timer.next_instant t.full_ack) timer2 else timer2 in
    if has_packets_to_send then earlier (Timer.next_instant t.snd) timer3 else timer3

unfoldable pub next_timer : Timers → Instant → Bool → Option Instant → ℕ → Instant
unfolding first_timer
next_timer t now has_packets_to_send next_message unacked_packets =
    later now (first_timer t has_packets_to_send next_message (ltb 0 unacked_packets))

unfoldable pub check_snd : Timers → Instant → Timers × Option ℕ
unfolding Timer.check_expired
check_snd t now = let (snd, r) = Timer.check_expired t.snd now in (record t { snd = snd }, r)

unfoldable pub check_full_ack : Timers → Instant → Timers × Option ℕ
unfolding Timer.check_expired
check_full_ack t now =
    let (full_ack, r) = Timer.check_expired t.full_ack now in (record t { full_ack = full_ack }, r)

unfoldable pub check_nak : Timers → Instant → Timers × Option ℕ
unfolding Timer.check_expired
check_nak t now = let (nak, r) = Timer.check_expired t.nak now in (record t { nak = nak }, r)

-- `.filter(|_| self.exp_count > EXP_MAX).or_else(..)` on what the peer's timer gave
unfoldable pub peer_idle_expired : Timers → Option ℕ → Timers × Option ℕ
peer_idle_expired t none = (record t { exp_count = t.exp_count + 1 }, none)
peer_idle_expired t (some periods) =
    if ltb exp_max t.exp_count
    then (t, some periods)
    else (record t { exp_count = t.exp_count + 1 }, none)

-- The peer's timer is checked only if the expiration timer has expired.
unfoldable pub exp_expired : Timers → Instant → Option ℕ → Timers × Option ℕ
unfolding peer_idle_expired
exp_expired t now none = (t, none)
exp_expired t now (some _) =
    let (peer_idle, r) = Timer.check_expired t.peer_idle now in
    peer_idle_expired (record t { peer_idle = peer_idle }) r

unfoldable pub check_peer_idle_timeout : Timers → Instant → Timers × Option ℕ
unfolding exp_expired
check_peer_idle_timeout t now =
    let (exp, r) = Timer.check_expired t.exp now in exp_expired (record t { exp = exp }) now r

unfoldable pub check_statistics : Timers → Instant → Timers × Option ℕ
check_statistics t now =
    let (statistics, r) = Timer.check_expired t.statistics now in
    (record t { statistics = statistics }, r)

unfoldable pub update_snd_period : Timers → Duration → Timers
unfolding Timer.set_period
update_snd_period t period = record t { snd = Timer.set_period t.snd period }

unfoldable pub update_rtt : Timers → Rtt → Option Timers
unfolding calculate_periods Timer.set_period
update_rtt t rtt = do
  (ack, nak, exp) ← calculate_periods t.exp_count rtt
  some (record t {
    full_ack = Timer.set_period t.full_ack ack;
    nak = Timer.set_period t.nak nak;
    exp = Timer.set_period t.exp exp;
  })

unfoldable pub reset_exp : Timers → Instant → Timers
unfolding Timer.reset
reset_exp t now = record t { exp_count = 1; peer_idle = Timer.reset t.peer_idle now }
