-- ===== src/Paxos/Overwrite.antt =====
-- What `paxos_receive_accept` allows when ACCEPT messages arrive out of order. It leaves
-- `promise_ballot` as it is, so an acceptor that accepted ballot 34 still accepts ballot 33, and
-- then forgets the vote that made the first value chosen.
use mini_distributed_computi.Prelude.{
  ℕ, zero, suc, ◌<◌, ◌≡◌, ◌==◌, ◌||◌, refl, true, [], ◌∷◌, get_or, length, arith,
}
use mini_distributed_computi.Paxos.Types.{Value, accepted_type}
use mini_distributed_computi.Paxos.Roles.{
  proposer_init, prepare, receive_prepare, accept, receive_accept, value_to_propose,
}
use mini_distributed_computi.Paxos.Voting.{count, Chosen}
use mini_distributed_computi.Paxos.System.{
  System, start, Collected, Reach, here, any_order, VotedIn, view,
}
use mini_distributed_computi.Paxos.Replay.{
  blank, get_or-In, two_of_three, do_prepare, do_promise, do_accept, do_vote, prepare-Reach,
  promise-Reach, accept-Reach, vote-Reach,
}

module _ (u v : Value) where
  -- proposer 1 prepares ballot 33, and acceptors 0 and 1 promise it
  s1 : System
  s1 = do_prepare start 1 33

  s2 : System
  unfolding s1
  s2 = do_promise (do_promise s1 0 0) 1 2

  -- proposer 2 prepares ballot 34, and acceptors 1 and 2 promise it
  s3 : System
  unfolding s2
  s3 = do_prepare s2 2 34

  s4 : System
  unfolding s3
  s4 = do_promise (do_promise s3 1 1) 2 3

  -- proposer 2 proposes `u` in ballot 34, and acceptors 0 and 1 vote for it
  s5 : System
  unfolding s4
  s5 = do_accept s4 2 0 1 u

  s6 : System
  unfolding s5
  s6 = do_vote (do_vote s5 0 0) 1 2

  -- proposer 1 proposes `v` in ballot 33, and acceptor 0 votes for it
  s7 : System
  unfolding s6
  s7 = do_accept s6 1 10 11 v

  s8 : System
  unfolding s7
  s8 = do_vote s7 0 0

  -- proposer 3 prepares ballot 35, and acceptors 0 and 2 promise it
  s9 : System
  unfolding s8
  s9 = do_promise (do_promise (do_prepare s8 3 35) 0 0) 2 3

  -- proposer 3 adopts `v`, and acceptors 0 and 2 vote for it
  s10 : System
  unfolding s9
  s10 = do_accept s9 3 0 1 u

  s11 : System
  unfolding s10
  s11 = do_vote (do_vote s10 0 0) 2 3

  Reach-four : Reach 3 any_order s4
  unfolding s4 prepare receive_prepare proposer_init
  Reach-four = promise-Reach 2 3 (omega arith) refl (
      promise-Reach 1 1 (omega arith) refl (
        prepare-Reach 2 34 (omega arith) refl (
          promise-Reach 1 2 (omega arith) refl
            (promise-Reach 0 0 (omega arith) refl (prepare-Reach 1 33 (omega arith) refl here)))))

  promises_of_34 : Collected 3 s4 2 (get_or s4.network 0 blank ∷ get_or s4.network 1 blank ∷ [])
  unfolding s4 prepare receive_prepare proposer_init
  promises_of_34 =
      two_of_three 2 1 _ _ (omega arith) (omega arith) (omega arith)
        (get_or-In s4.network 0 (omega arith)) (get_or-In s4.network 1 (omega arith))
        (refl, refl, refl) (refl, refl, refl)

  Reach-six : Reach 3 any_order s6
  unfolding s6 prepare receive_prepare proposer_init accept receive_accept value_to_propose
  Reach-six = vote-Reach 1 2 (omega arith) refl tt (
      vote-Reach 0 0 (omega arith) refl tt
        (accept-Reach 2 0 1 u (omega arith) refl promises_of_34 Reach-four))

  promises_of_33 : Collected 3 s6 1 (get_or s6.network 10 blank ∷ get_or s6.network 11 blank ∷ [])
  unfolding s6 prepare receive_prepare proposer_init accept receive_accept value_to_propose
  promises_of_33 =
      two_of_three 1 0 _ _ (omega arith) (omega arith) (omega arith)
        (get_or-In s6.network 10 (omega arith)) (get_or-In s6.network 11 (omega arith))
        (refl, refl, refl) (refl, refl, refl)

  Reach-nine : Reach 3 any_order s9
  unfolding s9 prepare receive_prepare proposer_init accept receive_accept value_to_propose
  Reach-nine = promise-Reach 2 3 (omega arith) refl (
      promise-Reach 0 0 (omega arith) refl (
        prepare-Reach 3 35 (omega arith) refl (
          vote-Reach 0 0 (omega arith) refl tt
            (accept-Reach 1 10 11 v (omega arith) refl promises_of_33 Reach-six))))

  promises_of_35 : Collected 3 s9 3 (get_or s9.network 0 blank ∷ get_or s9.network 1 blank ∷ [])
  unfolding s9 prepare receive_prepare proposer_init accept receive_accept value_to_propose
  promises_of_35 =
      two_of_three 2 0 _ _ (omega arith) (omega arith) (omega arith)
        (get_or-In s9.network 0 (omega arith)) (get_or-In s9.network 1 (omega arith))
        (refl, refl, refl) (refl, refl, refl)

  Reach-eleven : Reach 3 any_order s11
  unfolding s11 prepare receive_prepare proposer_init accept receive_accept value_to_propose
  Reach-eleven = vote-Reach 2 3 (omega arith) refl tt (
      vote-Reach 0 0 (omega arith) refl tt
        (accept-Reach 3 0 1 u (omega arith) refl promises_of_35 Reach-nine))

  voted_at :
      (a b k : ℕ) (w : Value)
      → k < length s11.network
      → ((get_or s11.network k blank).type ≡ accepted_type)
        × ((get_or s11.network k blank).from ≡ a)
        × ((get_or s11.network k blank).ballot ≡ b)
        × ((get_or s11.network k blank).value ≡ w)
      → VotedIn s11.network a b w
  voted_at a b k w h (t, f, g, e) =
      (get_or s11.network k blank, get_or-In s11.network k h, t, f, g, e)

  first-Chosen : Chosen 3 (view s11) 34 u
  unfolding s11 prepare receive_prepare proposer_init accept receive_accept value_to_propose count
  first-Chosen = (λ a. a == 0 || a == 1, omega arith, votes)
    where
      votes : (a : ℕ) → a < 3 → (a == 0 || a == 1) ≡ true → VotedIn s11.network a 34 u
      votes zero h m = voted_at 0 34 15 u (omega arith) (refl, refl, refl, refl)
      votes (suc zero) h m = voted_at 1 34 14 u (omega arith) (refl, refl, refl, refl)
      votes (suc (suc a)) h m = ground arith

  second-Chosen : Chosen 3 (view s11) 35 v
  unfolding s11 prepare receive_prepare proposer_init accept receive_accept value_to_propose count
  second-Chosen = (λ a. a == 0 || a == 2, omega arith, votes)
    where
      votes : (a : ℕ) → a < 3 → (a == 0 || a == 2) ≡ true → VotedIn s11.network a 35 v
      votes zero h m = voted_at 0 35 1 v (omega arith) (refl, refl, refl, refl)
      votes (suc zero) h m = cc
      votes (suc (suc zero)) h m = voted_at 2 35 0 v (omega arith) (refl, refl, refl, refl)
      votes (suc (suc (suc a))) h m = absurd (omega arith)

  -- Without the order, agreement fails: for any two values there is a run of three acceptors and
  -- three proposers after which majorities have voted for each of them.
  pub both-Chosen :
      (s : System) × Reach 3 any_order s × Chosen 3 (view s) 34 u × Chosen 3 (view s) 35 v
  both-Chosen = (s11, Reach-eleven, first-Chosen, second-Chosen)
