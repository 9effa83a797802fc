-- ===== src/Packet/LossList/Wrap.antt =====
-- A range of losses whose end lies across the wrap of the sequence numbers.
use srt_rs.Prelude.{ℕ, zero, suc, ◌+◌, ◌≤◌, ◌<◌, ◌^◌, ◌≡◌, refl, some, List, ◌∷◌, arith}
use srt_rs.Packet.SeqNumber.{max_value}
use srt_rs.Packet.LossList.{out_of_fuel, collect, decompress_next, decompress_loss_list}

-- The loop counts in `u32`, so it passes by an end that is behind it.
loop_passes_end :
    (f m end : ℕ) (rest : List ℕ)
    → end < m
    → m + f < 2 ^ 32
    → collect decompress_next f (record { iterator = rest; loop_next_end = some (m, end) })
      ≡ out_of_fuel
unfolding collect decompress_next
loop_passes_end zero m end rest h b = refl
loop_passes_end (suc f) m end rest h b = ground (arith, loop_passes_end f (m + 1) end rest)

-- A range that ends at or before its start, as one across the wrap does, is not finished by
-- decompression within 2 ^ 31 items, more than there are sequence numbers in the window.
pub decompress-wrapped :
    (f n end : ℕ) (rest : List ℕ)
    → n < max_value
    → end ≤ n
    → f ≤ 2 ^ 31
    → decompress_loss_list f ((n + 2 ^ 31) ∷ end ∷ rest) ≡ out_of_fuel
unfolding decompress_loss_list
decompress-wrapped zero n end rest hn h b = refl
decompress-wrapped (suc f) n end rest hn h b = ground (arith, loop_passes_end f (n + 1) end rest)
