-- ===== src/Packet/Data/RoundTrip.antt =====
-- srt-protocol/src/packet/data.rs: a data packet survives the wire, and a buffer with a whole header
-- is parsed or refused for its key bits alone.
use srt_rs.Prelude.{
  ℕ, ◌+◌, ◌-◌, ◌*◌, ◌/◌, ◌%◌, ◌^◌, ◌<◌, ◌≡◌, ap, ◌∙◌, some, List, [], ◌++◌, arith, ◌==◌,
}
use srt_rs.Packet.ModularNum
use srt_rs.Packet.SeqNumber
use srt_rs.Packet.Data.{DataPacket}
use srt_rs.Packet.Data.Codec.{
  parse, from_words, serialize, flags, from_bits_truncate, try_encryption,
}
use srt_rs.Packet.Wire.{Wire, ok, u32}
use srt_rs.Packet.Wire.Laws.{bind-put, bind_ok}

-- The ranges of the fields' types.
pub record IsWire (p : DataPacket) : Type 0 where
  pub seq_number : p.seq_number < 2 ^ 31
  pub message_number : p.message_number < 2 ^ 26
  pub timestamp : p.timestamp < 2 ^ 32
  pub dest_sockid : p.dest_sockid < 2 ^ 32

-- The fields that a byte of flags gives, with the top bits `t` of the message number below them.
module _ (p : DataPacket) (t : ℕ) (h : t < 4) where
  location-flags : from_bits_truncate (flags p + t) ≡ p.message_loc
  unfolding from_bits_truncate flags
  location-flags = ground arith

  order-flags : ((flags p + t) / 32 % 2 == 1) ≡ p.in_order_delivery
  unfolding flags
  order-flags = ground arith

  retransmitted-flags : ((flags p + t) / 4 % 2 == 1) ≡ p.retransmitted
  unfolding flags
  retransmitted-flags = ground arith

  encryption-flags : (buf : List ℕ) → try_encryption (flags p + t) buf ≡ ok p.encryption buf
  unfolding flags try_encryption
  encryption-flags buf = ground arith

flags_bounds : (p : DataPacket) → (flags p < 2 ^ 8 - 4) × (flags p % 4 ≡ 0)
unfolding flags
flags_bounds p = ground arith

module _ (wire : Wire) (p : DataPacket) (h : IsWire p) where
  first_byte :
      (p.message_number + flags p * 2 ^ 24) % 2 ^ 32 / 2 ^ 24 % 256
      ≡ flags p + p.message_number / 2 ^ 24
  first_byte = omega (arith, flags_bounds p, h.message_number)

  low_bits : (p.message_number + flags p * 2 ^ 24) % 2 ^ 32 % 2 ^ 26 ≡ p.message_number
  low_bits = omega (arith, flags_bounds p, h.message_number)

  abbrev top : ℕ
  top = p.message_number / 2 ^ 24

  top-lt : top < 4
  top-lt = omega (arith, h.message_number)

  fields :
      from_words
        (p.seq_number % 2 ^ 32)
        ((p.message_number + flags p * 2 ^ 24) % 2 ^ 32)
        p.encryption
        (p.timestamp % 2 ^ 32)
        (p.dest_sockid % 2 ^ 32)
        p.payload
      ≡ p
  unfolding from_words SeqNumber.new_truncate ModularNum.new_truncate
  fields =
      simp
        (
          first_byte,
          location-flags p top top-lt,
          order-flags p top top-lt,
          retransmitted-flags p top top-lt,
          low_bits,
        )
        (ground (arith, h.seq_number, h.timestamp, h.dest_sockid))

  -- A packet within the ranges of its fields is serialized without a failed assertion, and parsing
  -- the bytes gives the packet back and leaves none over.
  pub parse-serialize :
      (bytes : List ℕ) × (serialize wire p ≡ some bytes) × (parse wire bytes ≡ ok p [])
  unfolding serialize parse
  parse-serialize =
      let word = p.message_number + flags p * 2 ^ 24 in
      let dest = wire.put u32 p.dest_sockid ++ p.payload in
      let stamp = wire.put u32 p.timestamp ++ dest in
      let second = wire.put u32 word ++ stamp in
      (
        wire.put u32 p.seq_number ++ second,
        ground (arith, h.seq_number),
        bind-put wire u32 p.seq_number second _
            ∙ (bind-put wire u32 word stamp _
                ∙ (bind_ok (try_encryption (word % 2 ^ 32 / 2 ^ 24 % 256)) _
                      (rw first_byte (encryption-flags p top top-lt stamp))
                    ∙ (bind-put wire u32 p.timestamp dest _
                        ∙ (bind-put wire u32 p.dest_sockid p.payload _
                            ∙ ap (λ q. ok q []) fields)))),
      )
