-- ===== src/Client/Channel.antt =====
-- A channel of Go between one sender and one receiver, with what passes through it.
use auklet_client_c.Prelude.{ℕ, suc, Option, List, ◌++◌, get_elem?}

-- All that is sent on it, and how many of these have been received. A send does not wait for room, so
-- that a sender may be further ahead than in the program.
pub record Channel (A : Type 0) : Type 0 where
  pub sent : List A
  pub received : ℕ

module _ {A : Type 0} where
  abbrev pub holding : List A → Channel A
  holding xs = record { sent = xs; received = 0 }

  abbrev pub next : Channel A → Option A
  next c = get_elem? c.sent c.received

  abbrev pub receive : Channel A → Channel A
  receive c = record c { received = suc c.received }

  abbrev pub put : List A → Channel A → Channel A
  put xs c = record c { sent = c.sent ++ xs }
