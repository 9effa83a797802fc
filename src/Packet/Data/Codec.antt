-- ===== src/Packet/Data/Codec.antt =====
-- srt-protocol/src/packet/data.rs: a data packet is parsed and serialized.
use srt_rs.Prelude.{
  ℕ, ◌+◌, ◌*◌, ◌/◌, ◌%◌, ◌^◌, Bool, Option, none, some, List, ◌++◌, ◌==◌, ltb, if◌then◌else◌,
}
use srt_rs.Packet.ModularNum
use srt_rs.Packet.SeqNumber
use srt_rs.Packet.Data.{DataPacket, PacketLocation, DataEncryption}
use srt_rs.Packet.Wire.{Wire, Parser, ◌>>=◌, give, fail, take_all, read, u32, bad_data_encryption}

-- `PacketLocation::from_bits_truncate` and `bits`: the two top bits of a byte.
unfoldable pub from_bits_truncate : ℕ → PacketLocation
from_bits_truncate bits = record { first = bits / 128 % 2 == 1; last = bits / 64 % 2 == 1 }

abbrev pub bit : Bool → ℕ → ℕ
bit set value = if set then value else 0

unfoldable pub bits : PacketLocation → ℕ
bits loc = bit loc.first 128 + bit loc.last 64

unfoldable pub encryption_bits : DataEncryption → ℕ
encryption_bits DataEncryption.none = 0
encryption_bits DataEncryption.even = 8
encryption_bits DataEncryption.odd = 16

-- The two bits of the key, at their place in the byte.
abbrev pub key_bits : ℕ → ℕ
key_bits value = value / 8 % 4 * 8

unfoldable pub try_encryption : ℕ → Parser DataEncryption
try_encryption value =
    if key_bits value == 0
    then give DataEncryption.none
    else if key_bits value == 8
    then give DataEncryption.even
    else if key_bits value == 16
    then give DataEncryption.odd
    else fail (bad_data_encryption (key_bits value))

-- The first byte of the second word, but for the two bits of the message number. The operands of
-- each `|` have no bit in common, so that it is their sum.
unfoldable pub flags : DataPacket → ℕ
unfolding bits encryption_bits
flags p =
    bits p.message_loc
    + bit p.in_order_delivery 32
    + encryption_bits p.encryption
    + bit p.retransmitted 4

-- The packet of the words of a header; the first byte of the second word holds the flags.
unfoldable pub from_words : ℕ → ℕ → DataEncryption → ℕ → ℕ → List ℕ → DataPacket
unfolding SeqNumber.new_truncate ModularNum.new_truncate from_bits_truncate
from_words seq_number second_word encryption timestamp dest_sockid payload =
    let swb1 = second_word / 2 ^ 24 % 256 in
    record {
      seq_number = SeqNumber.new_truncate seq_number;
      message_loc = from_bits_truncate swb1;
      in_order_delivery = swb1 / 32 % 2 == 1;
      encryption = encryption;
      retransmitted = swb1 / 4 % 2 == 1;
      message_number = ModularNum.new_truncate 26 second_word;
      timestamp = timestamp;
      dest_sockid = dest_sockid;
      payload = payload;
    }

module _ (wire : Wire) where
  unfoldable pub parse : Parser DataPacket
  unfolding from_words
  parse = do
    seq_number ← read wire u32
    second_word ← read wire u32
    encryption ← try_encryption (second_word / 2 ^ 24 % 256)
    timestamp ← read wire u32
    dest_sockid ← read wire u32
    payload ← take_all
    give (from_words seq_number second_word encryption timestamp dest_sockid payload)

  -- `none` is the failed assertion on the top bit of the sequence number.
  unfoldable pub serialize : DataPacket → Option (List ℕ)
  unfolding flags
  serialize p =
      let bytes =
        wire.put u32 p.seq_number
        ++ (wire.put u32 (p.message_number + flags p * 2 ^ 24)
            ++ (wire.put u32 p.timestamp ++ (wire.put u32 p.dest_sockid ++ p.payload))) in
      if ltb p.seq_number (2 ^ 31) then some bytes else none
