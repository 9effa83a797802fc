-- ===== src/Receiver/History/Numbers.antt =====
-- The acknowledgements of the window have consecutive numbers, so that each is found by its own.
use srt_rs.Prelude.{
  ℕ, zero, suc, ◌+◌, ◌-◌, ◌≤◌, ◌<◌, ◌^◌, ◌≡◌, refl, ◌∙◌, ap, Option, none, some, or_else, List, [],
  ◌∷◌, ◌++◌, ◌⊎◌, inl, inr, ◌==◌, arith, length, get_elem?, lt_of_get_elem?, if_elim, ltb,
  length-append,
}
use srt_rs.Packet.Instant.{Instant, Duration, before, plus}
use srt_rs.Packet.SeqNumber.{SeqNumber}
use srt_rs.Packet.TimeSpan
use srt_rs.Packet.TimeSpan.{TimeSpan}
use srt_rs.Receiver.History.{
  AckHistoryEntry, AckHistoryWindow, FullAckSeqNumber, back, answer, answer_in, calculate_ack2_rtt,
  drain_expired, next_fasn, give_next, last_ack_too_recent, next_full_ack, add_full_ack,
  latency_window, give_within,
}

-- The entries have the numbers from `n` on.
abbrev pub Consecutive : ℕ → List AckHistoryEntry → Type 0
Consecutive n [] = Unit {0}
Consecutive n (e ∷ es) = (e.ack_sequence_number ≡ n) × Consecutive (suc n) es

back_lem :
    (n : ℕ) (e : AckHistoryEntry) (es : List AckHistoryEntry)
    → Consecutive n (e ∷ es)
    → (or_else (back es) e).ack_sequence_number ≡ n + length es
unfolding back
back_lem n e [] c = omega (arith, c.0)
back_lem n e (x ∷ es) c = omega (arith, back_lem (suc n) x es c.1)

get_lem :
    (n i : ℕ) (es : List AckHistoryEntry) (x : AckHistoryEntry)
    → Consecutive n es
    → get_elem? es i ≡ some x
    → x.ack_sequence_number ≡ n + i
get_lem n i [] x c e = cc
get_lem n zero (y ∷ es) x c e = let same : y ≡ x = cc in rw (← same) (omega (arith, c.0))
get_lem n (suc i) (y ∷ es) x c e = omega (arith, get_lem (suc n) i es x c.1 e)

-- The answer to an acknowledgement of the window, by its number, is the interval since it left, and
-- its data sequence number becomes the largest that is confirmed.
pub calculate_ack2_rtt_lem :
    (h : AckHistoryWindow) (n i : ℕ) (x : AckHistoryEntry) (now : Instant)
    → Consecutive n h.buffer
    → get_elem? h.buffer i ≡ some x
    → calculate_ack2_rtt h now x.ack_sequence_number ≡ (
      record h { largest_ack2_dsn = x.data_sequence_number },
      some (TimeSpan.from_interval x.departure_time now),
    )
unfolding calculate_ack2_rtt
calculate_ack2_rtt_lem h n i x now c e = found h.buffer c e
  where
    found :
        (es : List AckHistoryEntry)
        → Consecutive n es
        → get_elem? es i ≡ some x
        → answer_in h now x.ack_sequence_number es ≡ answer h now (some x)
    found [] c e = cc
    found (y ∷ es) c e =
        let place = get_lem n i (y ∷ es) x c e in
        let inside = lt_of_get_elem? (y ∷ es) i e in
        let index : x.ack_sequence_number - y.ack_sequence_number ≡ i = omega (arith, place, c.0) in
        if_elim (λ out. out ≡ answer h now (some x))
          (ltb (or_else (back es) y).ack_sequence_number x.ack_sequence_number)
          (λ after. absurd (ground (arith, place, inside, back_lem n y es c)))
          λ _.
            if_elim (λ out. out ≡ answer h now (some x))
              (ltb x.ack_sequence_number y.ack_sequence_number)
              (λ early. absurd (ground (arith, place, c.0))) λ _. rw (index, e) refl

drain_expired-Consecutive :
    (now : Instant) (w : Duration) (n : ℕ) (es : List AckHistoryEntry)
    → Consecutive n es
    → (m : ℕ) × (n ≤ m)
      × Consecutive m (drain_expired now w es)
      × (m + length (drain_expired now w es) ≡ n + length es)
unfolding drain_expired
drain_expired-Consecutive now w n [] c = (n, omega arith, tt, refl)
drain_expired-Consecutive now w n (e ∷ []) c = (n, omega arith, c, refl)
drain_expired-Consecutive now w n (e ∷ f ∷ es) c =
    if_elim {A = List AckHistoryEntry}
      (λ l. (m : ℕ) × (n ≤ m) × Consecutive m l × (m + length l ≡ n + length (e ∷ f ∷ es)))
      (before (plus e.departure_time w) now)
      (λ expired.
        let (m, l, c', q) = drain_expired-Consecutive now w (suc n) (f ∷ es) c.1 in
        (m, omega arith, c', omega arith))
      λ kept. (n, omega arith, c, refl)

Consecutive-snoc :
    (n : ℕ) (es : List AckHistoryEntry) (x : AckHistoryEntry)
    → Consecutive n es
    → x.ack_sequence_number ≡ n + length es
    → Consecutive n (es ++ x ∷ [])
Consecutive-snoc n [] x c e = (omega arith, tt)
Consecutive-snoc n (y ∷ es) x c e = (c.0, Consecutive-snoc (suc n) es x c.1 (omega arith))

next_fasn_lem :
    (n : ℕ) (es : List AckHistoryEntry)
    → Consecutive n es
    → (length es ≡ 0 → n ≡ 1)
    → n + length es < 2 ^ 32
    → next_fasn es ≡ n + length es
unfolding next_fasn back add_full_ack
next_fasn_lem n [] c z b = omega (arith, z refl)
next_fasn_lem n (e ∷ es) c z b = omega (arith, back_lem n e es c)

drain_expired-length :
    (now : Instant) (w : Duration) (es : List AckHistoryEntry)
    → 0 < length es
    → 0 < length (drain_expired now w es)
unfolding drain_expired
drain_expired-length now w [] e = e
drain_expired-length now w (x ∷ []) e = e
drain_expired-length now w (x ∷ y ∷ es) e =
    if_elim {A = List AckHistoryEntry} (λ l. 0 < length l) (before (plus x.departure_time w) now)
      (λ expired. drain_expired-length now w (y ∷ es) (omega arith)) λ kept. omega arith

empty_before :
    (now : Instant) (w : Duration) (es : List AckHistoryEntry)
    → length (drain_expired now w es) ≡ 0
    → length es ≡ 0
empty_before now w [] e = refl
empty_before now w (x ∷ es) e =
    absurd (omega (arith, e, drain_expired-length now w (x ∷ es) (omega arith)))

-- The number that the window has given last, and the next one.
module _ (h : AckHistoryWindow) (now : Instant) (rtt_mean : TimeSpan) (next_dsn : SeqNumber)
    (n : ℕ) where
  -- Either nothing changes, or the next number is given out.
  abbrev pub Given : AckHistoryWindow × Option (FullAckSeqNumber × SeqNumber) → Type 0
  Given out =
      (out ≡ (h, none))
      ⊎ ((out.1 ≡ some (n + length h.buffer, next_dsn))
          × (m : ℕ) × Consecutive m out.0.buffer
          × (m + length out.0.buffer ≡ suc (n + length h.buffer)))

  give_next-Given :
      (w : Duration)
      → Consecutive n h.buffer
      → (length h.buffer ≡ 0 → n ≡ 1)
      → n + length h.buffer < 2 ^ 32
      → Given (give_next h now w next_dsn)
  unfolding give_next
  give_next-Given w c z b =
      let (m, l, c', q) = drain_expired-Consecutive now w n h.buffer c in
      let kept = drain_expired now w h.buffer in
      let f =
        next_fasn_lem m kept c'
          (λ e.
            omega (arith, z (empty_before now w h.buffer e), empty_before now w h.buffer e, e, q))
          (omega (arith, q)) in
      inr (
        ap (λ x. some (x, next_dsn)) (f ∙ q),
        m,
        Consecutive-snoc m kept _ c' f,
        omega (arith, q, length-append kept (_ ∷ [])),
      )

  -- The outcome without a panic, which only a duration of the window below zero makes.
  abbrev pub GivenUnless :
      Option (AckHistoryWindow × Option (FullAckSeqNumber × SeqNumber)) → Type 0
  GivenUnless m =
      ((m ≡ none) × (latency_window h rtt_mean ≡ none))
      ⊎ ((out : AckHistoryWindow × Option (FullAckSeqNumber × SeqNumber)) × (m ≡ some out)
          × Given out)

  within-Given :
      (w : Option Duration)
      → latency_window h rtt_mean ≡ w
      → Consecutive n h.buffer
      → (length h.buffer ≡ 0 → n ≡ 1)
      → n + length h.buffer < 2 ^ 32
      → GivenUnless (give_within h now next_dsn w)
  within-Given none e c z b = inl (refl, e)
  within-Given (some w) e c z b = inr (_, refl, give_next-Given w c z b)

  -- On a window of consecutive numbers from `n` on, which is 1 for an empty window, a full
  -- acknowledgement that is sent gets the number after the last, and the window stays one of
  -- consecutive numbers that ends with it, also when expired entries leave. It panics only if the
  -- latency and the round trip time doubled in 32 bits sum up to less than zero.
  pub next_full_ack-Given :
      Consecutive n h.buffer
      → (length h.buffer ≡ 0 → n ≡ 1)
      → n + length h.buffer < 2 ^ 32
      → GivenUnless (next_full_ack h now rtt_mean next_dsn)
  unfolding next_full_ack
  next_full_ack-Given c z b =
      if_elim GivenUnless (h.largest_ack2_dsn == next_dsn) (λ confirmed. inr (_, refl, inl refl))
        λ _.
          if_elim GivenUnless (last_ack_too_recent now rtt_mean next_dsn (back h.buffer))
            (λ recent. inr (_, refl, inl refl))
            λ _. within-Given (latency_window h rtt_mean) refl c z b
