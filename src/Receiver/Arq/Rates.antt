-- ===== src/Receiver/Arq/Rates.antt =====
-- The arrival speed never divides by zero: what is left of the intervals is positive.
use srt_rs.Prelude.{
  ℕ, zero, suc, ◌+◌, ◌*◌, ◌/◌, ◌%◌, ◌^◌, ◌<◌, ◌≤◌, ◌≡◌, ◌⊎◌, inl, inr, refl, true, false, Option,
  none, some, or_else, List, [], ◌∷◌, ℤ, pos, negsuc, pos_part, neg_part, ◌+ℤ◌, wrap_i32_self,
  div_ℤ, arith, All, length, get_elem?, ◌==◌, leb, leb_ℤ, if_elim,
}
use native.Mathlib.Nat.{div-le_of_le-mul}
use srt_rs.Packet.TimeSpan
use srt_rs.Packet.TimeSpan.{TimeSpan}
use srt_rs.Receiver.Arq.Estimates.{
  ArrivalSpeed, is_typical, filtered, sum_intervals, sum_sizes, as_u64, rates, speed_of,
  calculate_speed, window_size, intervals, nth, insert, sort,
}

-- The range of an `i32`.
abbrev pub IsSpan : TimeSpan → Type 0
IsSpan s = (pos_part s < 2 ^ 31) × (neg_part s ≤ 2 ^ 31)

div_parts :
    (s : TimeSpan)
    → IsSpan s
    → (pos_part (TimeSpan.div s 8) ≡ pos_part s / 8)
      × (neg_part (TimeSpan.div s 8) ≡ neg_part s / 8)
unfolding TimeSpan.div
div_parts (pos n) h =
    let q : div_ℤ (pos n) 8 ≡ pos (n / 8) = ground arith in
    rw (q, wrap_i32_self (pos (n / 8)) (omega (arith, h.0)) (omega arith)) (refl, refl)
div_parts (negsuc n) h =
    let l : neg_part (div_ℤ (negsuc n) 8) ≡ suc n / 8 = ground arith in
    let z : pos_part (div_ℤ (negsuc n) 8) ≡ 0 = ground arith in
    rw (wrap_i32_self (div_ℤ (negsuc n) 8) (omega (arith, z)) (omega (arith, l, h.1))) (z, l)

-- An interval that is kept is positive, whatever the median is.
typical_positive :
    (ai interval : TimeSpan)
    → IsSpan ai
    → IsSpan interval
    → is_typical ai interval ≡ true
    → (0 < pos_part interval) × (neg_part interval ≡ 0)
unfolding is_typical
typical_positive (pos a) (pos n) ha hi e =
    ground (arith, div_parts (pos a) ha, div_parts (pos n) hi, e)
typical_positive (pos a) (negsuc n) ha hi e =
    ground (arith, div_parts (pos a) ha, div_parts (negsuc n) hi, e)
typical_positive (negsuc a) (pos n) ha hi e =
    ground (arith, div_parts (negsuc a) ha, div_parts (pos n) hi, e)
typical_positive (negsuc a) (negsuc n) ha hi e =
    ground (arith, div_parts (negsuc a) ha, div_parts (negsuc n) hi, e)

abbrev pub AreSpans : List (TimeSpan × ℕ) → Type 0
AreSpans window = All (λ (x : TimeSpan × ℕ). IsSpan x.0) window

nonneg_sum :
    (a b : ℤ)
    → neg_part a ≡ 0
    → neg_part b ≡ 0
    → (neg_part (a +ℤ b) ≡ 0) × (pos_part (a +ℤ b) ≡ pos_part a + pos_part b)
unfolding ◌+ℤ◌
nonneg_sum a b ha hb = ground (arith, ha, hb)

-- The sum of the kept intervals is at least their number, and at most 2 ^ 31 for each.
sum_lem :
    (ai : TimeSpan) (window : List (TimeSpan × ℕ))
    → IsSpan ai
    → AreSpans window
    → (neg_part (sum_intervals (filtered ai window)) ≡ 0)
      × (length (filtered ai window) ≤ pos_part (sum_intervals (filtered ai window)))
      × (pos_part (sum_intervals (filtered ai window)) ≤ 2 ^ 31 * length (filtered ai window))
unfolding sum_intervals filtered
sum_lem ai [] ha h = (refl, omega arith, omega arith)
sum_lem ai ((interval, size) ∷ rest) ha h =
    if_elim
      (λ (l : List (TimeSpan × ℕ)).
        (neg_part (sum_intervals l) ≡ 0)
        × (length l ≤ pos_part (sum_intervals l))
        × (pos_part (sum_intervals l) ≤ 2 ^ 31 * length l))
      (is_typical ai interval)
      (λ e.
        let p = typical_positive ai interval ha h.0 e in
        let r = sum_lem ai rest ha h.1 in
        let q = nonneg_sum interval (sum_intervals (filtered ai rest)) p.1 r.0 in
        (q.0, omega (arith, q.1, p.0, r.1), omega (arith, q.1, h.0, r.2)))
      (λ _. sum_lem ai rest ha h.1)

insert-All :
    (x : TimeSpan) (xs : List TimeSpan) → IsSpan x → All IsSpan xs → All IsSpan (insert x xs)
unfolding insert
insert-All x [] h hs = (h, tt)
insert-All x (y ∷ ys) h hs =
    if_elim (λ l. All IsSpan l) (leb_ℤ x y) (λ _. (h, hs)) (λ _. (hs.0, insert-All x ys h hs.1))

sort-All : (xs : List TimeSpan) → All IsSpan xs → All IsSpan (sort xs)
unfolding sort
sort-All [] h = tt
sort-All (x ∷ xs) h = insert-All x (sort xs) h.0 (sort-All xs h.1)

get-IsSpan :
    (xs : List TimeSpan) (n : ℕ) → All IsSpan xs → IsSpan (or_else (get_elem? xs n) (pos 0))
get-IsSpan [] n h = (omega arith, omega arith)
get-IsSpan (x ∷ xs) zero h = h.0
get-IsSpan (x ∷ xs) (suc n) h = get-IsSpan xs n h.1

intervals-All : (window : List (TimeSpan × ℕ)) → AreSpans window → All IsSpan (intervals window)
intervals-All [] h = tt
intervals-All ((interval, size) ∷ rest) h = (h.0, intervals-All rest h.1)

length-filtered :
    (ai : TimeSpan) (window : List (TimeSpan × ℕ)) → length (filtered ai window) ≤ length window
unfolding filtered
length-filtered ai [] = omega arith
length-filtered ai ((interval, size) ∷ rest) =
    if_elim (λ (l : List (TimeSpan × ℕ)). length l ≤ suc (length rest)) (is_typical ai interval)
      (λ _. omega (arith, length-filtered ai rest)) (λ _. omega (arith, length-filtered ai rest))

-- No panic, and no speed or one of at most a million packets a second.
abbrev pub Speed : Option (Option (ℕ × ℕ)) → Type 0
Speed m =
    (m ≡ some none)
    ⊎ ((packets : ℕ) × (bytes : ℕ) × (m ≡ some (some (packets, bytes))) × (packets ≤ 1000000))

rates-Speed :
    (count sum_bytes sum_us : ℕ)
    → 0 < sum_us
    → count ≤ sum_us
    → Speed (rates count sum_bytes sum_us)
unfolding rates
rates-Speed count sum_bytes sum_us h l =
    let some_time : (sum_us == 0) ≡ false = ground arith in
    let most : 1000000 * count / sum_us ≤ 1000000 = div-le_of_le-mul sum_us (omega arith) in
    rw some_time (inr (1000000 * count / sum_us % 2 ^ 32, _, refl, omega (arith, most)))

as_u64_lem : (z : ℤ) → neg_part z ≡ 0 → pos_part z < 2 ^ 64 → as_u64 z ≡ pos_part z
as_u64_lem (pos n) e h = omega arith
as_u64_lem (negsuc n) e h = absurd (omega (arith, e))

module _ (a : ArrivalSpeed) (h : AreSpans a.packet_history_window) where
  abbrev ai : TimeSpan
  ai = or_else (nth 8 (intervals a.packet_history_window)) (pos 0)

  ai-IsSpan : IsSpan ai
  unfolding nth
  ai-IsSpan =
      get-IsSpan (sort (intervals a.packet_history_window)) 8
        (sort-All (intervals a.packet_history_window) (intervals-All a.packet_history_window h))

  abbrev kept : List (TimeSpan × ℕ)
  kept = filtered ai a.packet_history_window

  kept-Speed :
      (length a.packet_history_window == window_size) ≡ true
      → leb (length kept) 8 ≡ false
      → Speed (rates (length kept) (sum_sizes kept) (as_u64 (sum_intervals kept)))
  kept-Speed e many =
      let s = sum_lem ai a.packet_history_window ai-IsSpan h in
      let few = length-filtered ai a.packet_history_window in
      let sum : as_u64 (sum_intervals kept) ≡ pos_part (sum_intervals kept) =
        as_u64_lem (sum_intervals kept) s.0 (ground (arith, s.2, few, e)) in
      rates-Speed (length kept) (sum_sizes kept) (as_u64 (sum_intervals kept))
        (ground (arith, sum, s.1, many)) (omega (arith, sum, s.1))

  -- Whatever the last intervals between packets were, the speed of their arrival is calculated
  -- without a division by zero, and is at most a million packets a second.
  pub calculate_speed-Speed : Speed (calculate_speed a)
  unfolding calculate_speed speed_of
  calculate_speed-Speed =
      if_elim Speed (length a.packet_history_window == window_size)
        (λ e. if_elim Speed (leb (length kept) 8) (λ _. inl refl) (kept-Speed e)) (λ _. inl refl)
