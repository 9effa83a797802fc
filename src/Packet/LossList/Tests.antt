-- ===== src/Packet/LossList/Tests.antt =====
-- The loss lists of the unit tests, and the theorems at concrete lists.
use srt_rs.Prelude.{◌+◌, ◌-◌, ◌^◌, ◌≡◌, refl, List, ℕ, [], ◌∷◌, arith}
use srt_rs.Packet.LossList.{done, panicked, out_of_fuel, compress_loss_list, decompress_loss_list}
use srt_rs.Packet.LossList.RoundTrip.{decompress-compress}
use srt_rs.Packet.LossList.Wrap.{decompress-wrapped}

abbrev losses : List ℕ
losses = 1 ∷ 2 ∷ 3 ∷ 4 ∷ 5 ∷ 9 ∷ 11 ∷ 12 ∷ 13 ∷ 16 ∷ 17 ∷ []

compress_test :
    compress_loss_list losses
    ≡ done ((1 + 2 ^ 31) ∷ 5 ∷ 9 ∷ (11 + 2 ^ 31) ∷ 13 ∷ (16 + 2 ^ 31) ∷ 17 ∷ [])
unfolding compress_loss_list
compress_test = refl

invalid_ordering : compress_loss_list (10 ∷ 1 ∷ []) ≡ panicked
unfolding compress_loss_list
invalid_ordering = refl

decompress_test :
    decompress_loss_list 20 ((11 + 2 ^ 31) ∷ 13 ∷ 16 ∷ []) ≡ done (11 ∷ 12 ∷ 13 ∷ 16 ∷ [])
unfolding decompress_loss_list
decompress_test = refl

unterminated_loop : decompress_loss_list 20 ((10 + 2 ^ 31) ∷ []) ≡ panicked
unfolding decompress_loss_list
unterminated_loop = refl

decompress-compress_example :
    (words : List ℕ) × (compress_loss_list losses ≡ done words)
    × (decompress_loss_list 12 words ≡ done losses)
decompress-compress_example = decompress-compress losses (omega arith)

-- The words that the compressor gives for the two numbers on either side of the wrap.
compress_across_wrap :
    compress_loss_list ((2 ^ 31 - 1) ∷ 0 ∷ []) ≡ done ((2 ^ 31 - 1 + 2 ^ 31) ∷ 0 ∷ [])
unfolding compress_loss_list
compress_across_wrap = refl

decompress-wrapped_example :
    decompress_loss_list 1000000 ((2 ^ 31 - 1 + 2 ^ 31) ∷ 0 ∷ []) ≡ out_of_fuel
decompress-wrapped_example =
    decompress-wrapped 1000000 (2 ^ 31 - 1) 0 [] (omega arith) (omega arith) (omega arith)
