-- ===== src/Queue/Examples.antt =====
-- A queue of numbers, with room for two.
use dottorrent.Base.{ℕ, ◌≡◌, refl, List, [], ◌∷◌, ◌++◌, arith}
use dottorrent.Queue.{Queue, push, try_push, pop}
use dottorrent.Queue.Fifo.{
  Calls, idle, call, pushes, tries_push, fails_push, pops, Fits, fifo_order, calls_fit,
}

abbrev holding : ℕ → List ℕ → Queue ℕ
holding n xs = record { capacity = n; items = xs }

abbrev two_in_one_out : Calls (holding 2 []) (7 ∷ 8 ∷ []) (7 ∷ []) (holding 2 (8 ∷ []))
unfolding push try_push pop
two_in_one_out =
    call (pushes 7 refl)
      (call (tries_push 8 refl) (call (fails_push 9 refl) (call (pops refl) idle)))

fifo_order_example : (holding 2 []).items ++ 7 ∷ 8 ∷ [] ≡ 7 ∷ [] ++ (holding 2 (8 ∷ [])).items
fifo_order_example = fifo_order two_in_one_out

calls_fit_example : Fits (holding 2 (8 ∷ []))
unfolding two_in_one_out
calls_fit_example = calls_fit two_in_one_out tt (omega arith)
