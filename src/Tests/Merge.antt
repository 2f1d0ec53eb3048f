-- ===== src/Tests/Merge.antt =====
-- Two sources, merged.
use auklet_client_c.Prelude.{ℕ, zero, suc, ◌≡◌, refl, true, List, [], ◌∷◌, ◌++◌}
use auklet_client_c.Merge.{
  Move, receive, send, hand_over, finish, close, deliver, merge, move, serve, all_finished,
}
use auklet_client_c.Merge.Progress.{serve-closes}
use auklet_client_c.Merge.Streams.{IsMerging, serve-IsMerging}

abbrev streams : ℕ → List ℕ
streams zero = 10 ∷ 11 ∷ []
streams (suc zero) = 20 ∷ []
streams (suc (suc _)) = []

-- The second source comes first.
abbrev moves : List Move
moves =
    receive 0
    ∷ receive 1
    ∷ send 1
    ∷ finish 1
    ∷ close
    ∷ send 0
    ∷ deliver
    ∷ send 0
    ∷ receive 0
    ∷ deliver
    ∷ hand_over 0
    ∷ finish 0
    ∷ close
    ∷ []

serve_test : (serve 2 1 moves (merge streams)).delivered ≡ (1, 20) ∷ (0, 10) ∷ (0, 11) ∷ []
unfolding serve move merge all_finished
serve_test = refl

serve-IsMerging_example : IsMerging 2 1 streams (serve 2 1 moves (merge streams))
serve-IsMerging_example = serve-IsMerging 2 1 streams moves

serve-closes_example :
    (more : List Move) × ((serve 2 1
        ((receive 0 ∷ receive 1 ∷ send 1 ∷ []) ++ more)
        (merge streams)).closed
      ≡ true)
    × ((serve 2 1 ((receive 0 ∷ receive 1 ∷ send 1 ∷ []) ++ more) (merge streams)).queue ≡ [])
serve-closes_example = serve-closes 2 1 streams (receive 0 ∷ receive 1 ∷ send 1 ∷ [])
