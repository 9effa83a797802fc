-- ===== src/Packet/Control/Ack.antt =====
-- srt-protocol/src/packet/control/mod.rs: acknowledgements on the wire.
pub mod RoundTrip
use srt_rs.Prelude.{
  ℕ, ◌+◌, ◌*◌, ◌^◌, Option, none, some, List, [], ◌++◌, ℤ, ltb, ◌==◌, if◌then◌else◌, length,
}
use srt_rs.Packet.SeqNumber
use srt_rs.Packet.SeqNumber.{SeqNumber}
use srt_rs.Packet.ModularNum
use srt_rs.Packet.Control.{Acknowledgement, AckStatistics, lite, small, full}
use srt_rs.Packet.Wire.{
  Wire, Parser, ◌>>=◌, give, fail, remaining, read, read_i32, put_i32, u32, not_enough_data,
}

abbrev pub ack_number : Acknowledgement → SeqNumber
ack_number (lite n) = n
ack_number (small n stats) = n
ack_number (full n stats fasn) = n

abbrev pub full_ack_seq_number : Acknowledgement → Option ℕ
full_ack_seq_number (full n stats fasn) = some fasn
full_ack_seq_number (lite n) = none
full_ack_seq_number (small n stats) = none

abbrev pub statistics : Acknowledgement → Option AckStatistics
statistics (small n stats) = some stats
statistics (full n stats fasn) = some stats
statistics (lite n) = none

-- `FullAckSeqNumber::new`
unfoldable pub full_ack_of : ℕ → Option ℕ
full_ack_of raw = if raw == 0 then none else some raw

abbrev pub or_small : SeqNumber → AckStatistics → Option ℕ → Acknowledgement
or_small n stats none = small n stats
or_small n stats (some fasn) = full n stats fasn

module _ (wire : Wire) where
  -- A rate is left out if the one before it is.
  abbrev pub put_third : Option ℕ → List ℕ
  put_third none = []
  put_third (some drr) = wire.put u32 drr

  abbrev pub put_second : Option ℕ → Option ℕ → List ℕ
  put_second none drr = []
  put_second (some elc) drr = wire.put u32 elc ++ put_third drr

  abbrev pub put_rates : Option ℕ → Option ℕ → Option ℕ → List ℕ
  put_rates none elc drr = []
  put_rates (some prr) elc drr = wire.put u32 prr ++ put_second elc drr

  unfoldable pub put_statistics : Option AckStatistics → List ℕ
  unfolding put_i32
  put_statistics none = []
  put_statistics (some s) =
      put_i32 wire s.rtt.mean
      ++ (put_i32 wire s.rtt.variance
          ++ (wire.put u32 s.buffer_available
              ++ put_rates s.packet_receive_rate s.estimated_link_capacity s.data_receive_rate))

  unfoldable pub serialize : Acknowledgement → List ℕ
  unfolding put_statistics
  serialize a = wire.put u32 (ack_number a) ++ put_statistics (statistics a)

  -- A word, if the bytes for it are there.
  unfoldable pub read_if_left : Parser (Option ℕ)
  read_if_left = do
    left ← remaining
    if ltb left 4 then give none else read wire u32 >>= (λ n. give (some n))

  unfoldable pub parse_statistics : Parser AckStatistics
  parse_statistics = do
    rtt_mean ← read_i32 wire
    rtt_variance ← read_i32 wire
    buffer_available ← read wire u32
    packet_receive_rate ← read_if_left
    estimated_link_capacity ← read_if_left
    data_receive_rate ← read_if_left
    give (record {
      rtt = record { mean = rtt_mean; variance = rtt_variance };
      buffer_available = buffer_available;
      packet_receive_rate = packet_receive_rate;
      estimated_link_capacity = estimated_link_capacity;
      data_receive_rate = data_receive_rate;
    })

  unfoldable pub parse_rest : SeqNumber → Option ℕ → Parser Acknowledgement
  unfolding parse_statistics
  parse_rest n full_ack = remaining >>= λ left.
      if ltb left 12
      then give (lite n)
      else parse_statistics >>= (λ stats. give (or_small n stats full_ack))

  unfoldable pub parse : ℕ → Parser Acknowledgement
  unfolding parse_rest full_ack_of SeqNumber.new_truncate ModularNum.new_truncate
  parse extra_info = remaining >>= λ left.
      if ltb left 4
      then fail not_enough_data
      else read wire u32 >>= (λ n. parse_rest (SeqNumber.new_truncate n) (full_ack_of extra_info))

abbrev pub rates_size : Option ℕ → Option ℕ → Option ℕ → ℕ
rates_size none elc drr = 0
rates_size (some prr) none drr = 1
rates_size (some prr) (some elc) none = 2
rates_size (some prr) (some elc) (some drr) = 3

unfoldable pub statistics_size : Option AckStatistics → ℕ
statistics_size none = 0
statistics_size (some s) =
    4 * (3 + rates_size s.packet_receive_rate s.estimated_link_capacity s.data_receive_rate)

unfoldable pub serialized_size : Acknowledgement → ℕ
unfolding statistics_size
serialized_size a = 4 + statistics_size (statistics a)
