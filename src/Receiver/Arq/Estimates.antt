-- ===== src/Receiver/Arq/Estimates.antt =====
-- srt-protocol/src/protocol/receiver/arq.rs: the arrival speed of the packets and the capacity of
-- the link, from the last 16 intervals of each.
use srt_rs.Prelude.{
  ℕ, ◌+◌, ◌-◌, ◌*◌, ◌/◌, ◌%◌, ◌^◌, Bool, Option, none, some, or_else, List, [], ◌∷◌, ◌++◌, ℤ, pos,
  negsuc, ◌+ℤ◌, ltb_ℤ, leb_ℤ, ltb, leb, ◌==◌, ◌&&◌, if◌then◌else◌, length, get_elem?,
}
use srt_rs.Packet.Instant.{Instant}
use srt_rs.Packet.SeqNumber.{SeqNumber}
use srt_rs.Packet.TimeSpan
use srt_rs.Packet.TimeSpan.{TimeSpan}

abbrev pub window_size : ℕ
window_size = 16

abbrev pub drop_front {ℓ} : {A : Type ℓ} → List A → List A
drop_front [] = []
drop_front (x ∷ xs) = xs

-- `push_back` on an `ArrayDeque` of 16 places that wraps
unfoldable pub push_back {ℓ} : {A : Type ℓ} → List A → A → List A
push_back window x =
    (if ltb (length window) window_size then window else drop_front window) ++ x ∷ []

-- The intervals in their order.
unfoldable pub insert : TimeSpan → List TimeSpan → List TimeSpan
insert x [] = x ∷ []
insert x (y ∷ ys) = let rest = insert x ys in if leb_ℤ x y then x ∷ y ∷ ys else y ∷ rest

unfoldable pub sort : List TimeSpan → List TimeSpan
unfolding insert
sort [] = []
sort (x ∷ xs) = insert x (sort xs)

-- The interval at a place of the sorted window.
unfoldable pub nth : ℕ → List TimeSpan → Option TimeSpan
unfolding sort
nth n xs = get_elem? (sort xs) n

pub record ArrivalSpeed : Type 0 where
  pub packet_history_window : List (TimeSpan × ℕ)
  pub last_arrival_time : Option Instant

abbrev pub new_arrival_speed : ArrivalSpeed
new_arrival_speed = record { packet_history_window = []; last_arrival_time = none }

unfoldable pub record_arrival : ArrivalSpeed → Instant → ℕ → ArrivalSpeed
unfolding push_back TimeSpan.from_interval
record_arrival a now size = record {
  packet_history_window = elim a.last_arrival_time [
    | none ↦ a.packet_history_window
    | some last ↦ push_back a.packet_history_window (TimeSpan.from_interval last now, size)
  ];
  last_arrival_time = some now;
}

abbrev pub intervals : List (TimeSpan × ℕ) → List TimeSpan
intervals [] = []
intervals ((interval, size) ∷ rest) = interval ∷ intervals rest

-- `*interval / 8 < ai && *interval > ai / 8`
unfoldable pub is_typical : TimeSpan → TimeSpan → Bool
unfolding TimeSpan.div
is_typical ai interval = ltb_ℤ (TimeSpan.div interval 8) ai && ltb_ℤ (TimeSpan.div ai 8) interval

unfoldable pub filtered : TimeSpan → List (TimeSpan × ℕ) → List (TimeSpan × ℕ)
unfolding is_typical
filtered ai [] = []
filtered ai ((interval, size) ∷ rest) =
    let rest' = filtered ai rest in
    if is_typical ai interval then (interval, size) ∷ rest' else rest'

unfoldable pub sum_intervals : List (TimeSpan × ℕ) → ℤ
unfolding ◌+ℤ◌
sum_intervals [] = pos 0
sum_intervals ((interval, size) ∷ rest) = interval +ℤ sum_intervals rest

unfoldable pub sum_sizes : List (TimeSpan × ℕ) → ℕ
sum_sizes [] = 0
sum_sizes ((interval, size) ∷ rest) = size + sum_sizes rest

-- `as u64` on the sum, which is an `i64`
abbrev pub as_u64 : ℤ → ℕ
as_u64 (pos n) = n % 2 ^ 64
as_u64 (negsuc n) = 2 ^ 64 - 1 - n % 2 ^ 64

-- The packets and bytes in a second; an outer `none` is the division by zero.
unfoldable pub rates : ℕ → ℕ → ℕ → Option (Option (ℕ × ℕ))
rates count sum_bytes sum_us =
    if sum_us == 0
    then none
    else some
        (some (1000000 * count / sum_us % 2 ^ 32, sum_bytes * 1000000 % 2 ^ 64 / sum_us % 2 ^ 32))

unfoldable pub speed_of : List (TimeSpan × ℕ) → Option (Option (ℕ × ℕ))
unfolding rates sum_intervals sum_sizes
speed_of kept =
    if leb (length kept) 8
    then some none
    else rates (length kept) (sum_sizes kept) (as_u64 (sum_intervals kept))

-- The sums do not depend on the order in which the selection of the median leaves the window.
unfoldable pub calculate_speed : ArrivalSpeed → Option (Option (ℕ × ℕ))
unfolding nth filtered speed_of
calculate_speed a =
    if length a.packet_history_window == window_size
    then speed_of (
        filtered (or_else (nth 8 (intervals a.packet_history_window)) (pos 0))
          a.packet_history_window)
    else some none

pub record LinkCapacityEstimate : Type 0 where
  pub packet_pair_window : List TimeSpan
  pub probe_time : Option Instant

abbrev pub new_link_capacity : LinkCapacityEstimate
new_link_capacity = record { packet_pair_window = []; probe_time = none }

unfoldable pub record_pair : LinkCapacityEstimate → Instant → SeqNumber → LinkCapacityEstimate
unfolding push_back TimeSpan.from_interval
record_pair l now seq_number =
    let paired : LinkCapacityEstimate = record {
      packet_pair_window = elim l.probe_time [
        | none ↦ l.packet_pair_window
        | some pt ↦ push_back l.packet_pair_window (TimeSpan.from_interval pt now)
      ];
      probe_time = none;
    } in
    if seq_number % 16 == 0
    then record l { probe_time = some now }
    else if seq_number % 16 == 1
    then paired
    else l

-- `per_second` stands for `(1. / span.as_secs_f64()) as u32`, in floating point.
unfoldable pub calculate_capacity : (TimeSpan → ℕ) → LinkCapacityEstimate → Option ℕ
unfolding nth
calculate_capacity per_second l =
    if length l.packet_pair_window == window_size
    then some (per_second (or_else (nth 7 l.packet_pair_window) (pos 0)))
    else none
