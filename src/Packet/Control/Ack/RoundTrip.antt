-- ===== src/Packet/Control/Ack/RoundTrip.antt =====
-- An acknowledgement survives the wire, if no rate is there without the one before it.
use srt_rs.Prelude.{
  ℕ, ◌*◌, ◌%◌, ◌^◌, ◌<◌, ◌≡◌, refl, sym, ap, ◌∙◌, Option, none, some, List, [], ◌++◌, arith, length,
  length-append, append-nil,
}
use srt_rs.Packet.ModularNum
use srt_rs.Packet.SeqNumber
use srt_rs.Packet.Control.{Acknowledgement, AckStatistics, lite, small, full}
use srt_rs.Packet.Control.Ack.{
  serialize, parse, put_statistics, parse_statistics, parse_rest, read_if_left, put_rates,
  full_ack_of, or_small, serialized_size, statistics_size, rates_size, statistics, ack_number,
}
use srt_rs.Packet.Wire.{Wire, ok, put_i32, u32, Parser, ◌>>=◌, give, fail, not_enough_data}
use srt_rs.Packet.Wire.Laws.{
  bind-put, bind_ok, bind-put_i32, length-put, length-put_i32, length-put_front, IsI32, enough,
}

-- Each rate fits 32 bits, and is there only if the one before it is.
unfoldable pub AreRates : Option ℕ → Option ℕ → Option ℕ → Type 0
AreRates none none none = Unit
AreRates (some prr) none none = prr < 2 ^ 32
AreRates (some prr) (some elc) none = (prr < 2 ^ 32) × (elc < 2 ^ 32)
AreRates (some prr) (some elc) (some drr) = (prr < 2 ^ 32) × (elc < 2 ^ 32) × (drr < 2 ^ 32)
AreRates _ _ _ = ⊥

pub record IsStatistics (s : AckStatistics) : Type 0 where
  pub mean : IsI32 s.rtt.mean
  pub variance : IsI32 s.rtt.variance
  pub available : s.buffer_available < 2 ^ 32
  pub rates : AreRates s.packet_receive_rate s.estimated_link_capacity s.data_receive_rate

unfoldable pub IsAck : Acknowledgement → Type 0
IsAck (lite n) = n < 2 ^ 31
IsAck (small n stats) = (n < 2 ^ 31) × IsStatistics stats
IsAck (full n stats fasn) = (n < 2 ^ 31) × IsStatistics stats × (0 < fasn) × (fasn < 2 ^ 32)

module _ (wire : Wire) where
  if_left-put :
      (n : ℕ) (rest : List ℕ)
      → n < 2 ^ 32
      → read_if_left wire (wire.put u32 n ++ rest) ≡ ok (some n) rest
  unfolding read_if_left
  if_left-put n rest h =
      enough 4 (give none) _ (wire.put u32 n ++ rest)
        (omega (arith, length-put_front wire u32 n rest))
      ∙ (bind-put wire u32 n rest _ ∙ ap (λ k. ok (some k) rest) (omega (arith, h)))

  bind-left {ℓ} :
      {B : Type ℓ} (n : ℕ) (rest : List ℕ) (f : Option ℕ → Parser B)
      → n < 2 ^ 32
      → (read_if_left wire >>= f) (wire.put u32 n ++ rest) ≡ f (some n) rest
  bind-left n rest f h = bind_ok (read_if_left wire) f (if_left-put n rest h)

  bind-last {ℓ} :
      {B : Type ℓ} (n : ℕ) (f : Option ℕ → Parser B)
      → n < 2 ^ 32
      → (read_if_left wire >>= f) (wire.put u32 n) ≡ f (some n) []
  bind-last n f h =
      ap (read_if_left wire >>= f) (sym (append-nil (wire.put u32 n))) ∙ bind-left n [] f h

  bind-nothing {ℓ} :
      {B : Type ℓ} (f : Option ℕ → Parser B) → (read_if_left wire >>= f) [] ≡ f none []
  unfolding read_if_left
  bind-nothing f = refl

  length-put_rates :
      (prr elc drr : Option ℕ) → length (put_rates wire prr elc drr) ≡ 4 * rates_size prr elc drr
  length-put_rates none elc drr = refl
  length-put_rates (some prr) none drr = omega (arith, length-put_front wire u32 prr [])
  length-put_rates (some prr) (some elc) none = omega (
    arith,
    length-put_front wire u32 prr (wire.put u32 elc ++ []),
    length-put_front wire u32 elc [],
  )
  length-put_rates (some prr) (some elc) (some drr) = omega (
    arith,
    length-put_front wire u32 prr (wire.put u32 elc ++ wire.put u32 drr),
    length-put_front wire u32 elc (wire.put u32 drr),
    length-put wire u32 drr,
  )

  pub length-put_statistics :
      (s : Option AckStatistics) → length (put_statistics wire s) ≡ statistics_size s
  unfolding put_statistics statistics_size
  length-put_statistics none = refl
  length-put_statistics (some s) =
      let rates =
        put_rates wire s.packet_receive_rate s.estimated_link_capacity s.data_receive_rate in
      let third = wire.put u32 s.buffer_available ++ rates in
      let second = put_i32 wire s.rtt.variance ++ third in
      omega (
        arith,
        length-append (put_i32 wire s.rtt.mean) second,
        length-append (put_i32 wire s.rtt.variance) third,
        length-put_i32 wire s.rtt.mean,
        length-put_i32 wire s.rtt.variance,
        length-put_front wire u32 s.buffer_available rates,
        length-put_rates s.packet_receive_rate s.estimated_link_capacity s.data_receive_rate,
      )

  -- The three rates are read as they were put.
  rates_lem {ℓ} :
      {B : Type ℓ} (prr elc drr : Option ℕ) (f : Option ℕ → Option ℕ → Option ℕ → Parser B)
      → AreRates prr elc drr
      → (read_if_left wire >>= λ a. read_if_left wire >>= λ b. read_if_left wire >>= λ c. f a b c)
          (put_rates wire prr elc drr)
        ≡ f prr elc drr []
  unfolding AreRates
  rates_lem none none none f h = bind-nothing _ ∙ (bind-nothing _ ∙ bind-nothing _)
  rates_lem (some prr) none none f h = bind-left prr [] _ h ∙ (bind-nothing _ ∙ bind-nothing _)
  rates_lem (some prr) (some elc) none f h =
      bind-left prr (wire.put u32 elc ++ []) _ h.0 ∙ (bind-left elc [] _ h.1 ∙ bind-nothing _)
  rates_lem (some prr) (some elc) (some drr) f h =
      bind-left prr (wire.put u32 elc ++ wire.put u32 drr) _ h.0
      ∙ (bind-left elc (wire.put u32 drr) _ h.1 ∙ bind-last drr _ h.2)
  rates_lem none (some elc) drr f h = absurd h
  rates_lem none none (some drr) f h = absurd h
  rates_lem (some prr) none (some drr) f h = absurd h

  statistics_lem :
      (s : AckStatistics)
      → IsStatistics s
      → parse_statistics wire (put_statistics wire (some s)) ≡ ok s []
  unfolding parse_statistics put_statistics
  statistics_lem s h =
      bind-put_i32 wire s.rtt.mean _ _ h.mean
      ∙ (bind-put_i32 wire s.rtt.variance _ _ h.variance
          ∙ (bind-put wire u32 s.buffer_available _ _
              ∙ (rates_lem s.packet_receive_rate s.estimated_link_capacity s.data_receive_rate _
                    h.rates
                  ∙ available)))
    where
      available : ok (record s { buffer_available = s.buffer_available % 2 ^ 32 }) [] ≡ ok s []
      available = ground (arith, h.available)

  front :
      (extra n : ℕ) (rest : List ℕ)
      → n < 2 ^ 31
      → parse wire extra (wire.put u32 n ++ rest) ≡ parse_rest wire n (full_ack_of extra) rest
  unfolding parse SeqNumber.new_truncate ModularNum.new_truncate
  front extra n rest h =
      enough 4 (fail not_enough_data) _ (wire.put u32 n ++ rest)
        (omega (arith, length-put_front wire u32 n rest))
      ∙ (bind-put wire u32 n rest _
          ∙ ap (λ k. parse_rest wire k (full_ack_of extra) rest) (omega (arith, h)))

  with_statistics :
      (n : ℕ) (s : AckStatistics) (fasn : Option ℕ)
      → IsStatistics s
      → parse_rest wire n fasn (put_statistics wire (some s)) ≡ ok (or_small n s fasn) []
  unfolding parse_rest statistics_size
  with_statistics n s fasn h =
      enough 12 (give (lite n)) _ (put_statistics wire (some s))
        (omega (arith, length-put_statistics (some s)))
      ∙ bind_ok (parse_statistics wire) _ (statistics_lem s h)

  -- The number of an acknowledgement that is full.
  abbrev pub full_number : Acknowledgement → ℕ
  full_number (full n stats fasn) = fasn
  full_number (small n stats) = 0
  full_number (lite n) = 0

  lite_lem : (n : ℕ) → parse_rest wire n none [] ≡ ok (lite n) []
  unfolding parse_rest
  lite_lem n = refl

  -- The size that is announced is that of the bytes.
  pub length-serialize_ack : (a : Acknowledgement) → length (serialize wire a) ≡ serialized_size a
  unfolding serialize serialized_size
  length-serialize_ack a = omega (
    arith,
    length-put_front wire u32 (ack_number a) (put_statistics wire (statistics a)),
    length-put_statistics (statistics a),
  )

  pub parse-serialize_ack :
      (a : Acknowledgement) → IsAck a → parse wire (full_number a) (serialize wire a) ≡ ok a []
  unfolding serialize IsAck full_ack_of
  parse-serialize_ack (lite n) h = front 0 n [] h ∙ lite_lem n
  parse-serialize_ack (small n s) h =
      front 0 n (put_statistics wire (some s)) h.0 ∙ with_statistics n s none h.1
  parse-serialize_ack (full n s fasn) h =
      let nonzero : full_ack_of fasn ≡ some fasn = ground (arith, h.2) in
      front fasn n (put_statistics wire (some s)) h.0
      ∙ (ap (λ f. parse_rest wire n f (put_statistics wire (some s))) nonzero
          ∙ with_statistics n s (some fasn) h.1)
