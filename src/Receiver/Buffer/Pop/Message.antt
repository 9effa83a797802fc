-- ===== src/Receiver/Buffer/Pop/Message.antt =====
-- A message that `pop_next_message` releases is a whole one.
use srt_rs.Prelude.{
  ℕ, suc, ◌+◌, ◌≡◌, refl, ◌∙◌, ap, sym, Bool, true, false, Option, none, some, List, [], ◌∷◌, ◌++◌,
  map, ◌>>=◌, ◌||◌, arith, length, take, drop, Bool-cases, inl, inr,
}
use srt_rs.Packet.Data.{DataPacket}
use srt_rs.Receiver.Buffer.{BufferPacket, lost, received, dropped, data_packet, in_message}
use srt_rs.Receiver.Buffer.Pop.{
  MessagePacketCount, new_count, accumulate, accumulate_location, calculate, count_packets,
  next_message_packet_count, front_packet, payloads,
}

-- Packets of one message up to the last one of it, which alone is marked as such.
abbrev pub Ends : ℕ → List DataPacket → Type 0
Ends m [] = ⊥
Ends m (d ∷ []) = (d.message_number ≡ m) × (d.message_loc.last ≡ true)
Ends m (d ∷ e ∷ ds) = (d.message_number ≡ m) × (d.message_loc.last ≡ false) × Ends m (e ∷ ds)

-- A whole message: it begins with a packet that is marked as the first.
pub record IsMessage (m : ℕ) (ds : List DataPacket) : Type 0 where
  pub begins :
      (d : DataPacket) × (rest : List DataPacket) × (ds ≡ d ∷ rest) × (d.message_loc.first ≡ true)
  pub ends : Ends m ds

abbrev pub concat : List DataPacket → List ℕ
concat [] = []
concat (d ∷ ds) = d.payload ++ concat ds

pub Ends-cons :
    (m : ℕ) (d : DataPacket) (ds : List DataPacket)
    → d.message_number ≡ m
    → d.message_loc.last ≡ false
    → Ends m ds
    → Ends m (d ∷ ds)
Ends-cons m d [] e l h = absurd h
Ends-cons m d (x ∷ ds) e l h = (e, l, h)

pub payloads_lem : (ds : List DataPacket) → payloads (map received ds) ≡ some (concat ds)
unfolding payloads data_packet
payloads_lem [] = refl
payloads_lem (d ∷ ds) = rw (payloads_lem ds) refl

-- Once the count is done it stays.
pub count_done :
    (m n : ℕ) (ps : List BufferPacket)
    → count_packets m (record { count = n; done = true }) ps
      ≡ some (record { count = n; done = true })
unfolding count_packets accumulate accumulate_location in_message data_packet
count_done m n [] = refl
count_done m n (lost l ∷ ps) = refl
count_done m n (dropped l ∷ ps) = refl
count_done m n (received d ∷ ps) = ground (arith, count_done m n ps)

count_step :
    (m n k : ℕ) (d : DataPacket) (ps : List BufferPacket)
    → count_packets m (record { count = n; done = false }) (received d ∷ ps)
      ≡ some (record { count = k; done = true })
    → (d.message_number ≡ m)
      × (n ≡ 0 → d.message_loc.first ≡ true)
      × (count_packets m (record { count = n + 1; done = d.message_loc.last || false }) ps
          ≡ some (record { count = k; done = true }))
unfolding count_packets accumulate accumulate_location in_message data_packet
count_step m n k d ps e = ground arith

count_of : Option MessagePacketCount → ℕ
count_of none = 0
count_of (some a) = a.count

count_last :
    (m n k : ℕ) (ps : List BufferPacket) (last : Bool)
    → last ≡ true
    → count_packets m (record { count = n + 1; done = last || false }) ps
      ≡ some (record { count = k; done = true })
    → k ≡ n + 1
unfolding count_of
count_last m n k ps true l e = ap count_of (sym e ∙ count_done m (n + 1) ps)
count_last m n k ps false l e = cc

-- A count that gets done from `n` on has counted the packets up to the last one.
counted :
    (m n k : ℕ) (ps : List BufferPacket)
    → count_packets m (record { count = n; done = false }) ps
      ≡ some (record { count = k; done = true })
    → (ds : List DataPacket) × (rest : List BufferPacket) × (ps ≡ map received ds ++ rest)
      × (k ≡ n + length ds)
      × Ends m ds
unfolding count_packets accumulate accumulate_location in_message data_packet
counted m n k [] e = cc
counted m n k (lost l ∷ ps) e = cc
counted m n k (dropped l ∷ ps) e = cc
counted m n k (received d ∷ ps) e =
    let (num, _, next) = count_step m n k d ps e in
    elim (Bool-cases d.message_loc.last) [
      | inl l ↦ (d ∷ [], ps, refl, count_last m n k ps _ l next, (num, l))
      | inr l ↦
          let (ds, rest, s, t, ends) = counted m (n + 1) k ps (rw l at next) in
          (d ∷ ds, rest, ap (received d ∷◌) s, omega (arith, t), Ends-cons m d ds num l ends)
    ]

pub length-map : (ds : List DataPacket) → length (map received ds) ≡ length ds
length-map [] = refl
length-map (d ∷ ds) = ap suc (length-map ds)

pub take-map :
    (ds : List DataPacket) (rest : List BufferPacket)
    → take (length ds) (map received ds ++ rest) ≡ map received ds
take-map [] rest = refl
take-map (d ∷ ds) rest = ap (received d ∷◌) (take-map ds rest)

pub drop-map :
    (ds : List DataPacket) (rest : List BufferPacket)
    → drop (length ds) (map received ds ++ rest) ≡ rest
drop-map [] rest = refl
drop-map (d ∷ ds) rest = drop-map ds rest

-- A count of the packets of the next message is that of a whole message at the front.
pub record Front (k : ℕ) (ps : List BufferPacket) : Type 0 where
  pub number : ℕ
  pub packets : List DataPacket
  pub rest : List BufferPacket
  pub splits : ps ≡ map received packets ++ rest
  pub counts : k ≡ length packets
  pub whole : IsMessage number packets

calculate_lem :
    (k : ℕ) (o : Option MessagePacketCount)
    → (o >>= calculate) ≡ some k
    → o ≡ some (record { count = k; done = true })
unfolding calculate
calculate_lem k none e = cc
calculate_lem k (some a) e = calculated a.count a.done e
  where
    calculated :
        (n : ℕ) (done : Bool)
        → calculate (record { count = n; done = done }) ≡ some k
        → ◌≡◌ {A = Option MessagePacketCount}
            (some (record { count = n; done = done }))
            (some (record { count = k; done = true }))
    calculated n true h = cc
    calculated n false h = cc

begins_with :
    (m : ℕ) (d : DataPacket) (ps rest : List BufferPacket) (ds : List DataPacket)
    → d.message_loc.first ≡ true
    → received d ∷ ps ≡ map received ds ++ rest
    → Ends m ds
    → IsMessage m ds
begins_with m d ps rest [] f s ends = absurd ends
begins_with m d ps rest (x ∷ ds) f s ends =
    let same : d ≡ x = cc in record { begins = (x, ds, refl, rw (← same) f); ends = ends }

pub next_message_packet_count-Front :
    (k : ℕ) (ps : List BufferPacket) → next_message_packet_count ps ≡ some k → Front k ps
unfolding next_message_packet_count front_packet calculate new_count data_packet
next_message_packet_count-Front k [] e = cc
next_message_packet_count-Front k (lost l ∷ ps) e = cc
next_message_packet_count-Front k (dropped l ∷ ps) e = cc
next_message_packet_count-Front k (received d ∷ ps) e =
    let c = calculate_lem k _ e in
    let (ds, rest, splits, counts, ends) = counted d.message_number 0 k (received d ∷ ps) c in
    record {
      number = d.message_number;
      packets = ds;
      rest = rest;
      splits = splits;
      counts = omega (arith, counts);
      whole =
          begins_with d.message_number d ps rest ds
            ((count_step d.message_number 0 k d ps c).1 refl) splits ends;
    }
