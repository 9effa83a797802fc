-- ===== src/Packet/LossList/RoundTrip.antt =====
-- Decompressing what was compressed gives the loss list back.
use srt_rs.Prelude.{
  true, ◌≢◌, ap, ◌∙◌, ℕ, zero, suc, ◌+◌, ◌≤◌, ◌<◌, ◌^◌, ◌≡◌, refl, none, some, List, [], ◌∷◌, arith,
  length,
}
use native.Mathlib.Decide.{ℕ_discrete}
use srt_rs.Packet.SeqNumber.{max_value, max_diff, add, lt}
use srt_rs.Packet.LossList.{
  Next, finished, yields, panics, panicked, out_of_fuel, Run, done, collect_step, prepend, collect,
  compress_next, compress_loss_list, decompress_next, decompress_loss_list,
}

-- Sequence numbers that rise, without a wrap, by less than half the number space each time.
abbrev pub Rising : ℕ → List ℕ → Type 0
Rising n [] = n < max_value
Rising n (i ∷ rest) = (n < i) × (i < n + max_diff) × Rising i rest

abbrev pub IsLossList : List ℕ → Type 0
IsLossList [] = Unit {0}
IsLossList (n ∷ rest) = Rising n rest

Rising-lt : (n : ℕ) (rest : List ℕ) → Rising n rest → n < max_value
Rising-lt n [] h = h
Rising-lt n (i ∷ rest) h = omega (arith, Rising-lt i rest h.2)

lt-Rising : (n i : ℕ) (rest : List ℕ) → Rising n (i ∷ rest) → lt n i ≡ true
unfolding lt
lt-Rising n i rest h = ground (arith, Rising-lt i rest h.2)

-- One call of each iterator, by the state that it is in.
module _ (f n i : ℕ) (rest : List ℕ) (h : Rising n (i ∷ rest)) where
  compress-plain :
      n + 1 ≢ i
      → collect compress_next
          (suc f)
          (record { iterator = i ∷ rest; next = some n; last_in_loop = none })
        ≡ prepend n (
            collect compress_next f
              (record { iterator = rest; next = some i; last_in_loop = none }))
  unfolding collect compress_next add lt
  compress-plain e = ground (arith, lt-Rising n i rest h, Rising-lt i rest h.2)

  compress-start :
      n + 1 ≡ i
      → collect compress_next
          (suc f)
          (record { iterator = i ∷ rest; next = some n; last_in_loop = none })
        ≡ prepend (n + 2 ^ 31) (
            collect compress_next f
              (record { iterator = rest; next = some i; last_in_loop = some n }))
  unfolding collect compress_next add lt
  compress-start e = ground (arith, lt-Rising n i rest h, Rising-lt i rest h.2)

  compress-continue :
      (last : ℕ)
      → last + 1 ≡ n
      → n + 1 ≡ i
      → collect compress_next
          (suc f)
          (record { iterator = i ∷ rest; next = some n; last_in_loop = some last })
        ≡ collect compress_next
            (suc f)
            (record { iterator = rest; next = some i; last_in_loop = some n })
  unfolding collect compress_next add lt
  compress-continue last e e' = ground (arith, lt-Rising n i rest h, Rising-lt i rest h.2)

  compress-stop :
      (last : ℕ)
      → last + 1 ≡ n
      → n + 1 ≢ i
      → collect compress_next
          (suc f)
          (record { iterator = i ∷ rest; next = some n; last_in_loop = some last })
        ≡ prepend n (
            collect compress_next f
              (record { iterator = rest; next = some i; last_in_loop = none }))
  unfolding collect compress_next add lt
  compress-stop last e e' = ground (arith, lt-Rising n i rest h, Rising-lt i rest h.2)

module _ (f n : ℕ) (out : List ℕ) where
  decompress-plain :
      n < max_value
      → collect decompress_next (suc f) (record { iterator = n ∷ out; loop_next_end = none })
        ≡ prepend n (collect decompress_next f (record { iterator = out; loop_next_end = none }))
  unfolding collect decompress_next
  decompress-plain h = ground arith

  decompress-start :
      (end : ℕ)
      → n + 1 < max_value
      → collect decompress_next
          (suc f)
          (record { iterator = (n + 2 ^ 31) ∷ end ∷ out; loop_next_end = none })
        ≡ prepend n (
            collect decompress_next f
              (record { iterator = out; loop_next_end = some (n + 1, end) }))
  unfolding collect decompress_next
  decompress-start end h = ground arith

  decompress-end :
      n < max_value
      → collect decompress_next (suc f) (record { iterator = out; loop_next_end = some (n, n) })
        ≡ prepend n (collect decompress_next f (record { iterator = out; loop_next_end = none }))
  unfolding collect decompress_next
  decompress-end h = ground arith

  decompress-continue :
      (end : ℕ)
      → n < end
      → end < max_value
      → collect decompress_next (suc f) (record { iterator = out; loop_next_end = some (n, end) })
        ≡ prepend n (
            collect decompress_next f
              (record { iterator = out; loop_next_end = some (n + 1, end) }))
  unfolding collect decompress_next
  decompress-continue end h h' = ground arith

prepend-eq-done :
    (w : ℕ) (r : Run) (out : List ℕ)
    → prepend w r ≡ done out
    → (ws : List ℕ) × (r ≡ done ws) × (w ∷ ws ≡ out)
prepend-eq-done w (done ws) out h = (ws, refl, cc)
prepend-eq-done w panicked out h = cc
prepend-eq-done w out_of_fuel out h = cc

-- More fuel does not change what was collected.
collect-suc :
    {S : Type 0} (next : S → Next S) (f : ℕ) (s : S) (out : List ℕ)
    → collect next f s ≡ done out
    → collect next (suc f) s ≡ done out
unfolding collect
collect-suc next zero s out h = cc
collect-suc {S} next (suc f) s out h = go (collect-suc next f) (next s) h
  where
    go :
        ((s' : S) (ws : List ℕ) → collect next f s' ≡ done ws → collect next (suc f) s' ≡ done ws)
        → (n : Next S) → collect_step (collect next f) n ≡ done out
        → collect_step (collect next (suc f)) n ≡ done out
    go ih finished h = h
    go ih panics h = cc
    go ih (yields w s') h =
        let (ws, e, e') = prepend-eq-done w (collect next f s') out h in
        ap (prepend w) (ih s' ws e) ∙ ap done e'

-- A compressor outside a loop writes words from which a fresh decompressor reads its list.
abbrev Plain : ℕ → List ℕ → Type 0
Plain n rest =
    (out : List ℕ) × (collect compress_next (suc (suc (length rest)))
        (record { iterator = rest; next = some n; last_in_loop = none })
      ≡ done out)
    × (collect decompress_next (suc (suc (length rest)))
          (record { iterator = out; loop_next_end = none })
        ≡ done (n ∷ rest))

-- One inside a loop writes the loop's end first.
abbrev Looping : ℕ → ℕ → List ℕ → Type 0
Looping last n rest =
    (end : ℕ) × (out : List ℕ) × (collect compress_next (suc (suc (length rest)))
        (record { iterator = rest; next = some n; last_in_loop = some last })
      ≡ done (end ∷ out))
    × (collect decompress_next (suc (suc (length rest)))
          (record { iterator = out; loop_next_end = some (n, end) })
        ≡ done (n ∷ rest))
    × (n ≤ end)
    × (end < max_value)

Plain-last : (n : ℕ) → n < max_value → Plain n []
unfolding collect compress_next decompress_next
Plain-last n h = (n ∷ [], ground arith, ground arith)

Looping-last : (last n : ℕ) → n < max_value → Looping last n []
unfolding collect compress_next decompress_next
Looping-last last n h = (n, [], ground arith, ground arith, ground arith, ground arith)

mutual
  plain : (n : ℕ) (rest : List ℕ) → Rising n rest → Plain n rest
  plain n [] h = Plain-last n h
  plain n (i ∷ rest) h = elim (ℕ_discrete (n + 1) i) [
    | no e ↦
        let (out, p, q) = plain i rest h.2 in
        (
          n ∷ out,
          compress-plain _ n i rest h e ∙ ap (prepend n) p,
          decompress-plain _ n out (omega (arith, Rising-lt i rest h.2)) ∙ ap (prepend n) q,
        )
    | yes e ↦
        let (end, out, p, q, le, lt) = looping n i rest e h.2 in
        (
          (n + 2 ^ 31) ∷ end ∷ out,
          compress-start _ n i rest h e ∙ ap (prepend (n + 2 ^ 31)) p,
          rw (
            decompress-start (suc (suc (length rest))) n out end
                (omega (arith, Rising-lt i rest h.2)),
            e,
            q,
          ),
        )
  ]

  looping : (last n : ℕ) (rest : List ℕ) → last + 1 ≡ n → Rising n rest → Looping last n rest
  looping last n [] e h = Looping-last last n h
  looping last n (i ∷ rest) e h = elim (ℕ_discrete (n + 1) i) [
    | no e' ↦
        let (out, p, q) = plain i rest h.2 in
        (
          n,
          out,
          compress-stop _ n i rest h last e e' ∙ ap (prepend n) p,
          decompress-end _ n out (omega (arith, Rising-lt i rest h.2)) ∙ ap (prepend n) q,
          omega arith,
          omega (arith, Rising-lt i rest h.2),
        )
    | yes e' ↦
        let (end, out, p, q, le, lt) = looping n i rest e' h.2 in
        (
          end,
          out,
          compress-continue _ n i rest h last e e' ∙ collect-suc compress_next _ _ _ p,
          rw (decompress-continue (suc (suc (length rest))) n out end (omega arith) lt, e', q),
          omega arith,
          lt,
        )
  ]

-- Compressing a loss list whose numbers rise as plain numbers, without a wrap and each by less than
-- half the number space, runs to its end, and decompressing the words that it gives, with more fuel
-- than the list has items, gives the list back.
pub decompress-compress :
    (loss_list : List ℕ)
    → IsLossList loss_list
    → (words : List ℕ) × (compress_loss_list loss_list ≡ done words)
      × (decompress_loss_list (suc (length loss_list)) words ≡ done loss_list)
unfolding compress_loss_list decompress_loss_list
decompress-compress [] h = ([], refl, refl)
decompress-compress (n ∷ rest) h = let (out, p, q) = plain n rest h in (out, first ∙ p, q)
  where
    first :
        compress_loss_list (n ∷ rest)
        ≡ collect compress_next
            (suc (suc (length rest)))
            (record { iterator = rest; next = some n; last_in_loop = none })
    first = refl
