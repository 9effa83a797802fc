-- ===== src/Time/Timers/Schedule.antt =====
-- When a connection next wakes up, and the periods of its timers.
use srt_rs.Prelude.{
  none, false, some, All, List, [], ◌∷◌, ◌++◌, ltb, if◌then◌else◌, ℕ, ◌*◌, ◌≤◌, ◌<◌, Bool, true,
  ◌≡◌, Option, some, none, false, arith, ◌≤ℤ◌, refl, pos, ◌⊎◌, inl, inr, ap,
}
use srt_rs.Packet.Instant.Laws.{earlier-le, later-ge, later_mono}
use srt_rs.Packet.Instant.{Instant, Duration, from_millis, earlier, later}
use srt_rs.Time.Timer
use srt_rs.Time.Timers.{first_timer, Timers, next_timer, new, update_rtt}

-- The instants at which some timer can need service: expiration and loss reports always, a message
-- at its release time if there is one, acknowledgements if packets are unacknowledged, sending if
-- there are packets to send.
pub due : Timers → Bool → Option Instant → Bool → List Instant
due t sending next has_unacked =
    Timer.next_instant t.exp
    ∷ Timer.next_instant t.nak
    ∷ (elim next [ none ↦ [] | some message ↦ message ∷ [] ]
        ++ ((if has_unacked then Timer.next_instant t.full_ack ∷ [] else [])
            ++ (if sending then Timer.next_instant t.snd ∷ [] else [])))

first_timer-le :
    (t : Timers) (sending : Bool) (next : Option Instant) (has_unacked : Bool)
    → All (λ i. first_timer t sending next has_unacked ≤ℤ i) (due t sending next has_unacked)
unfolding first_timer due
first_timer-le t true none true = omega (arith, earlier-le)
first_timer-le t true none false = omega (arith, earlier-le)
first_timer-le t true (some m) true = omega (arith, earlier-le)
first_timer-le t true (some m) false = omega (arith, earlier-le)
first_timer-le t false none true = omega (arith, earlier-le)
first_timer-le t false none false = omega (arith, earlier-le)
first_timer-le t false (some m) true = omega (arith, earlier-le)
first_timer-le t false (some m) false = omega (arith, earlier-le)

abbrev IsOneOf : Instant → List Instant → Type 0
IsOneOf x [] = ⊥
IsOneOf x (i ∷ is) = (x ≡ i) ⊎ IsOneOf x is

-- The instant is one of these, or now if that one is past.
abbrev pub IsLaterOf : Instant → Instant → List Instant → Type 0
IsLaterOf now x [] = ⊥
IsLaterOf now x (i ∷ is) = (x ≡ later now i) ⊎ IsLaterOf now x is

IsOneOf-later :
    (now x : Instant) (is : List Instant) → IsOneOf x is → IsLaterOf now (later now x) is
IsOneOf-later now x [] h = h
IsOneOf-later now x (i ∷ is) (inl e) = inl (ap (later now) e)
IsOneOf-later now x (i ∷ is) (inr h) = inr (IsOneOf-later now x is h)

first_timer-IsOneOf :
    (t : Timers) (sending : Bool) (next : Option Instant) (has_unacked : Bool)
    → IsOneOf (first_timer t sending next has_unacked) (due t sending next has_unacked)
unfolding first_timer due earlier
first_timer-IsOneOf t true none true = ground arith
first_timer-IsOneOf t true none false = ground arith
first_timer-IsOneOf t true (some m) true = ground arith
first_timer-IsOneOf t true (some m) false = ground arith
first_timer-IsOneOf t false none true = ground arith
first_timer-IsOneOf t false none false = ground arith
first_timer-IsOneOf t false (some m) true = ground arith
first_timer-IsOneOf t false (some m) false = ground arith

All-later :
    (now x : Instant) (is : List Instant)
    → All (λ i. x ≤ℤ i) is
    → All (λ i. later now x ≤ℤ later now i) is
All-later now x [] h = tt
All-later now x (i ∷ is) h = (later_mono now x i h.0, All-later now x is h.1)

-- The next wake-up is the earliest of the due instants, or now if that is past: none of them, taken
-- at now if it is past, is before it, and it is one of them.
pub next_timer_bounds :
    (t : Timers) (now : Instant) (sending : Bool) (next : Option Instant) (unacked : ℕ)
    → (now ≤ℤ next_timer t now sending next unacked)
      × All
          (λ i. next_timer t now sending next unacked ≤ℤ later now i)
          (due t sending next (ltb 0 unacked))
      × IsLaterOf now (next_timer t now sending next unacked) (due t sending next (ltb 0 unacked))
unfolding next_timer
next_timer_bounds t now sending next unacked = (
  (later-ge now (first_timer t sending next (ltb 0 unacked))).0,
  All-later now _ (due t sending next (ltb 0 unacked))
      (first_timer-le t sending next (ltb 0 unacked)),
  IsOneOf-later now _ (due t sending next (ltb 0 unacked))
      (first_timer-IsOneOf t sending next (ltb 0 unacked)),
)

-- The initial timers never panic, and each of their periods is positive.
pub new_total :
    (now : Instant) (statistics peer_idle : Duration)
    → (t : Timers) × (new now statistics peer_idle ≡ some t)
      × (0 < t.snd.period)
      × (0 < t.full_ack.period)
      × (0 < t.nak.period)
      × (0 < t.exp.period)
      × (0 < t.peer_idle.period)
      × (0 < t.statistics.period)
unfolding new
new_total now statistics peer_idle =
    (_, refl, ground arith, ground arith, ground arith, ground arith, ground arith, ground arith)

-- With a round trip time that is not negative the periods can be computed: acknowledgements every
-- 10 ms, loss reports no faster than every 20 ms, expiration no faster than every 300 ms for each
-- count.
pub update_rtt_total :
    (t : Timers) (mean variance : ℕ)
    → (t' : Timers) × (update_rtt t (record { mean = pos mean; variance = pos variance }) ≡ some t')
      × (t'.full_ack.period ≡ from_millis 10)
      × (from_millis 20 ≤ t'.nak.period)
      × (t.exp_count * from_millis 300 ≤ t'.exp.period)
      × (t'.exp_count ≡ t.exp_count)
unfolding update_rtt
update_rtt_total t mean variance = (_, refl, ground arith, ground arith, ground arith, ground arith)
