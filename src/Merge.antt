-- ===== src/Merge.antt =====
-- `Merger` of message/merge.go and agent/merge.go, which differ in the room of the output channel.
-- The goroutines' moves come in any order, as a list; a move that is not possible is not made.
pub mod Streams
pub mod Progress
use auklet_client_c.Prelude.{
  ℕ, zero, suc, ◌<◌, Bool, true, false, ◌&&◌, not, Option, none, some, List, [], ◌∷◌, ◌++◌, length,
  ltb, ◌==◌, nat_eq, if◌then◌else◌,
}

-- Sources are numbered from 0. `remaining` is what a source's channel still gives before it closes,
-- `hand` what its goroutine has received and not sent, `finished` that its goroutine has called
-- `wg.Done`. `queue` is the output channel's buffer and `delivered` what was received from it, each
-- message with the number of its source.
pub record Merging (A : Type 0) : Type 0 where
  pub remaining : ℕ → List A
  pub hand : ℕ → Option A
  pub finished : ℕ → Bool
  pub queue : List (ℕ × A)
  pub delivered : List (ℕ × A)
  pub closed : Bool

-- A goroutine receives, sends to the buffer, hands over to a waiting receiver, or ends; `serve`
-- closes the output; the receiver takes from the buffer.
pub data Move : Type 0 where
  receive send hand_over finish : ℕ → Move
  close deliver : Move

abbrev pub update : {B : Type 0} → (ℕ → B) → ℕ → B → ℕ → B
update f i b j = if i == j then b else f j

-- Whether the first `n` goroutines have ended: `wg.Wait()`.
unfoldable pub all_finished : ℕ → (ℕ → Bool) → Bool
all_finished zero f = true
all_finished (suc n) f = f n && all_finished n f

module _ {A : Type 0} where
  -- `Merge`, as it starts.
  unfoldable pub merge : (ℕ → List A) → Merging A
  merge streams = record {
    remaining = streams;
    hand = λ i. none;
    finished = λ i. false;
    queue = [];
    delivered = [];
    closed = false;
  }

  received : ℕ → Option A → List A → Merging A → Merging A
  received i none (x ∷ xs) s = record s {
    remaining = update s.remaining i xs;
    hand = update s.hand i (some x);
  }
  received i _ _ s = s

  sent : ℕ → ℕ → Option A → Merging A → Merging A
  sent room i none s = s
  sent room i (some x) s =
      if ltb (length s.queue) room
      then record s { queue = s.queue ++ ((i, x) ∷ []); hand = update s.hand i none }
      else s

  handed : ℕ → Option A → List (ℕ × A) → Merging A → Merging A
  handed i (some x) [] s = record s {
    delivered = s.delivered ++ ((i, x) ∷ []);
    hand = update s.hand i none;
  }
  handed i _ _ s = s

  ended : ℕ → Option A → List A → Merging A → Merging A
  ended i none [] s = record s { finished = update s.finished i true }
  ended i _ _ s = s

  taken : List (ℕ × A) → Merging A → Merging A
  taken [] s = s
  taken (x ∷ xs) s = record s { queue = xs; delivered = s.delivered ++ (x ∷ []) }

  -- One move, of `n` sources and an output with room for `room` messages.
  unfoldable pub move : ℕ → ℕ → Move → Merging A → Merging A
  unfolding received sent handed ended taken
  move n room (receive i) s = received i (s.hand i) (s.remaining i) s
  move n room (send i) s = sent room i (s.hand i) s
  move n room (hand_over i) s = handed i (s.hand i) s.queue s
  move n room (finish i) s = ended i (s.hand i) (s.remaining i) s
  move n room close s = if all_finished n s.finished then record s { closed = true } else s
  move n room deliver s = taken s.queue s

  unfoldable pub serve : ℕ → ℕ → List Move → Merging A → Merging A
  serve n room [] s = s
  serve n room (m ∷ ms) s = serve n room ms (move n room m s)
