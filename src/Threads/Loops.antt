-- ===== src/Threads/Loops.antt =====
-- threads.c: the `while (stopThreads != 1)` loop of each thread, and `threads_start`. A thread is at
-- its test, in a round, or at its end; a step is one of these changes in one of the threads.
pub mod Stopping
use p2pxineplugin.Base.{
  ℕ, suc, ◌+◌, ◌*◌, ◌≡◌, Bool, true, false, List, [], ◌∷◌, Option, some, get_elem?, set, Outcome,
  ok,
}
use p2pxineplugin.Grapes.{Grapes}
use p2pxineplugin.Output.{Machine}
use p2pxineplugin.Threads.{State}
use p2pxineplugin.Threads.Run.{
  Round, receive_round, topology_round, offer_round, send_round, login_round, round,
}

-- The functions that the threads run.
pub data Worker : Type 0 where
  receive_data_thread send_topology_thread offer_chunk_thread send_chunk_thread
        request_login_thread :
      Worker

pub data Phase : Type 0 where
  testing running ended : Phase

pub record Loop : Type 0 where
  pub worker : Worker
  pub phase : Phase

-- Where a thread is after a round: the request for the login data is not in a loop.
unfoldable pub after_round : Worker → Phase
after_round receive_data_thread = testing
after_round send_topology_thread = testing
after_round offer_chunk_thread = testing
after_round send_chunk_thread = testing
after_round request_login_thread = ended

abbrev pub at_phase : Worker → Phase → Loop
at_phase w phase = record { worker = w; phase = phase }

module _ (G : Grapes) where
  -- Which rounds a thread runs.
  abbrev pub Does : Worker → Round G → Type 0
  Does receive_data_thread (receive_round _ _) = Unit
  Does send_topology_thread (topology_round _) = Unit
  Does offer_chunk_thread (offer_round _) = Unit
  Does send_chunk_thread send_round = Unit
  Does request_login_thread login_round = Unit
  Does _ _ = ⊥

module _ (G : Grapes) (m : Machine) where
  pub record Program : Type 0 where
    pub state : State G m
    pub threads : List Loop

  -- `threads_start`. The mutexes are made, and the new threads stand in front of their loops; the
  -- one that has no loop is in its only round.
  unfoldable pub threads_start : State G m → Program
  threads_start s = record {
    state = record s { stop_threads = false };
    threads =
        at_phase receive_data_thread testing
        ∷ at_phase send_topology_thread testing
        ∷ at_phase offer_chunk_thread testing
        ∷ at_phase send_chunk_thread testing
        ∷ at_phase request_login_thread running
        ∷ [];
  }

  -- The test of the loop, which lets a thread into a round or ends it, and the end of a round. A
  -- round that does not return has no step.
  pub data Step (p q : Program) : Type 0 where
    enter :
        (i : ℕ) (w : Worker)
        → get_elem? p.threads i ≡ some (at_phase w testing)
        → p.state.stop_threads ≡ false
        → q ≡ record p { threads = set p.threads i (at_phase w running) }
        → Step p q
    leave :
        (i : ℕ) (w : Worker)
        → get_elem? p.threads i ≡ some (at_phase w testing)
        → p.state.stop_threads ≡ true
        → q ≡ record p { threads = set p.threads i (at_phase w ended) }
        → Step p q
    finish :
        (i : ℕ) (w : Worker) (r : Round G) (s : State G m)
        → get_elem? p.threads i ≡ some (at_phase w running)
        → Does G w r
        → round G m r p.state ≡ ok s
        → q ≡ record { state = s; threads = set p.threads i (at_phase w (after_round w)) }
        → Step p q

  -- `n` steps.
  pub data Steps : ℕ → Program → Program → Type 0 where
    stay : {p : Program} → Steps 0 p p
    more : {n : ℕ} {p q r : Program} → Step p q → Steps n q r → Steps (suc n) p r
