-- ===== src/Receiver/RemoteClock/Monotonic.antt =====
-- Release times never go back, whatever the timestamps and the clock adjustments between them.
use srt_rs.Prelude.{◌≡◌, refl, Option, none, some, List, [], ◌∷◌, arith, ◌≤ℤ◌}
use mathlib.Core.Path.{subst}
use srt_rs.Packet.Instant.{Instant}
use srt_rs.Packet.TimeStamp.{TimeStamp}
use srt_rs.Receiver.RemoteClock.{
  OnlineStats, instant_from, RemoteClock, instant_from, keep_monotonic, monotonic_instant_from,
  synchronize,
}

-- The last release time, if there is one, is not after an instant.
abbrev pub NotAfter : Option Instant → Instant → Type 0
NotAfter none t = Unit {0}
NotAfter (some last) t = last ≤ℤ t

-- What a receiver asks of its clock: to synchronize, or for the release time of a timestamp.
pub data Request : Type 0 where
  sync : Instant → TimeStamp → Request
  release : TimeStamp → Request

keep_monotonic-NotAfter :
    {S : Type 0} (c : RemoteClock S) (last : Option Instant) (instant : Instant)
    → c.last_monotonic_instant ≡ last
    → let (c', t) = keep_monotonic c last instant in
      (c'.last_monotonic_instant ≡ some t) × NotAfter last t × (instant ≤ℤ t)
unfolding keep_monotonic
keep_monotonic-NotAfter c none instant e = (refl, tt, ground arith)
keep_monotonic-NotAfter c (some last) instant e = ground arith

-- A release time is at or after the last one and the instant of its timestamp.
pub monotonic_lem :
    {S : Type 0} (c : RemoteClock S) (ts : TimeStamp)
    → let (c', t) = monotonic_instant_from c ts in
      (c'.last_monotonic_instant ≡ some t)
      × NotAfter c.last_monotonic_instant t
      × (instant_from c ts ≤ℤ t)
unfolding monotonic_instant_from
monotonic_lem c ts = keep_monotonic-NotAfter c c.last_monotonic_instant (instant_from c ts) refl

module _ (o : OnlineStats) where
  open o use {Samples}

  synchronize-last :
      (c : RemoteClock Samples) (now : Instant) (ts : TimeStamp)
      → (synchronize o c now ts).0.last_monotonic_instant ≡ c.last_monotonic_instant
  unfolding synchronize
  synchronize-last c now ts = ground arith

  -- The release times that a list of requests gets.
  pub releases : RemoteClock Samples → List Request → List Instant
  releases c [] = []
  releases c (sync now ts ∷ rest) = releases (synchronize o c now ts).0 rest
  releases c (release ts ∷ rest) = let (c', t) = monotonic_instant_from c ts in t ∷ releases c' rest

  abbrev pub RisesFrom : Option Instant → List Instant → Type 0
  RisesFrom last [] = Unit {0}
  RisesFrom last (t ∷ rest) = NotAfter last t × RisesFrom (some t) rest

  -- Each release time is not before the one before it, nor is the first before the last that the
  -- clock gave.
  pub releases-RisesFrom :
      (c : RemoteClock Samples) (requests : List Request)
      → RisesFrom c.last_monotonic_instant (releases c requests)
  unfolding releases
  releases-RisesFrom c [] = tt
  releases-RisesFrom c (sync now ts ∷ rest) =
      subst (λ last. RisesFrom last (releases (synchronize o c now ts).0 rest))
        (synchronize-last c now ts) (releases-RisesFrom (synchronize o c now ts).0 rest)
  releases-RisesFrom c (release ts ∷ rest) =
      let (e, h, _) = monotonic_lem c ts in
      (
        h,
        subst (λ last. RisesFrom last (releases (monotonic_instant_from c ts).0 rest)) e
            (releases-RisesFrom (monotonic_instant_from c ts).0 rest),
      )
