-- ===== src/Receiver/History/Tests.antt =====
-- A window of two acknowledgements.
use srt_rs.Prelude.{◌≡◌, refl, some, [], ◌∷◌, pos, arith}
use srt_rs.Packet.TimeSpan
use srt_rs.Receiver.History.{AckHistoryEntry, AckHistoryWindow, calculate_ack2_rtt, next_full_ack}
use srt_rs.Receiver.History.Numbers.{GivenUnless, calculate_ack2_rtt_lem, next_full_ack-Given}

abbrev second : AckHistoryEntry
second = record { data_sequence_number = 45; ack_sequence_number = 8; departure_time = pos 20000 }

abbrev window : AckHistoryWindow
window = record {
  tsbpd_latency = 100000;
  last_ack_dsn = 45;
  largest_ack2_dsn = 30;
  buffer =
      record { data_sequence_number = 40; ack_sequence_number = 7; departure_time = pos 10000 }
      ∷ second
      ∷ [];
}

calculate_ack2_rtt_lem_example : calculate_ack2_rtt window (pos 90000) 8 ≡ (
  record window { largest_ack2_dsn = 45 },
  some (TimeSpan.from_interval (pos 20000) (pos 90000)),
)
calculate_ack2_rtt_lem_example =
    calculate_ack2_rtt_lem window 7 1 second (pos 90000) (refl, (refl, tt)) refl

next_full_ack-Given_example :
    GivenUnless window
      (pos 90000000)
      (pos 10000)
      60
      7
      (next_full_ack window (pos 90000000) (pos 10000) 60)
next_full_ack-Given_example =
    next_full_ack-Given window (pos 90000000) (pos 10000) 60 7 (refl, (refl, tt))
      (λ e. absurd (omega (arith, e))) (omega arith)
