-- ===== src/Paxos/Examples.antt =====
-- Runs on which the theorems about Basic Paxos apply.
use mini_distributed_computi.Prelude.{
  ℕ, zero, suc, ◌<◌, ◌≡◌, refl, ◌==◌, ◌||◌, if◌then◌else◌, true, false, not, ◌&&◌, [], ◌∷◌, get_or,
  pos, arith,
}
use mini_distributed_computi.Paxos.Types.{Value}
use mini_distributed_computi.Paxos.Roles.{
  proposer_init, prepare, receive_prepare, accept, receive_accept, value_to_propose,
}
use mini_distributed_computi.Paxos.Voting.{count, Chosen, IsSound}
use mini_distributed_computi.Paxos.System.{
  System, start, Collected, Reach, here, in_order, any_order, VotedIn, view,
}
use mini_distributed_computi.Paxos.Selection.{Selected, value_to_propose-Selected}
use mini_distributed_computi.Paxos.Instance.{run_instance, first_ballot}
use mini_distributed_computi.Paxos.InstanceRun.{in_range, run_instance_lem}
use mini_distributed_computi.Paxos.Agreement.{one_value-Chosen, view-IsSound}
use mini_distributed_computi.Paxos.Overwrite.{both-Chosen}
use mini_distributed_computi.Paxos.Replay.{
  blank, get_or-In, two_of_three, do_prepare, do_promise, do_accept, do_vote, prepare-Reach,
  promise-Reach, accept-Reach, vote-Reach,
}

abbrev apple : Value
apple = record { bytes = 1 ∷ 2 ∷ []; length = 2 }

abbrev pear : Value
pear = record { bytes = 3 ∷ []; length = 1 }

-- proposer 1 prepares ballot 33, and acceptors 0 and 1 promise it
prepared : System
prepared = do_promise (do_promise (do_prepare start 1 33) 0 0) 1 2

-- it proposes, and acceptors 0 and 1 vote
voted : System
unfolding prepared
voted = do_vote (do_vote (do_accept prepared 1 0 1 apple) 0 0) 1 2

prepared-Reach : Reach 3 in_order prepared
unfolding prepared prepare receive_prepare proposer_init
prepared-Reach =
    promise-Reach 1 2 (omega arith) refl
      (promise-Reach 0 0 (omega arith) refl (prepare-Reach 1 33 (omega arith) refl here))

collected :
    Collected 3 prepared 1 (get_or prepared.network 0 blank ∷ get_or prepared.network 1 blank ∷ [])
unfolding prepared prepare receive_prepare proposer_init
collected =
    two_of_three 1 0 _ _ (omega arith) (omega arith) (omega arith)
      (get_or-In prepared.network 0 (omega arith)) (get_or-In prepared.network 1 (omega arith))
      (refl, refl, refl) (refl, refl, refl)

voted-Reach : Reach 3 in_order voted
unfolding voted prepare receive_prepare proposer_init accept receive_accept value_to_propose
voted-Reach = vote-Reach 1 2 (omega arith) refl (omega arith) (
    vote-Reach 0 0 (omega arith) refl (omega arith)
      (accept-Reach 1 0 1 apple (omega arith) refl collected prepared-Reach))

apple-Chosen : Chosen 3 (view voted) 33 apple
unfolding voted prepare receive_prepare proposer_init accept receive_accept value_to_propose count
apple-Chosen = (λ a. a == 0 || a == 1, omega arith, votes)
  where
    votes : (a : ℕ) → a < 3 → (a == 0 || a == 1) ≡ true → VotedIn voted.network a 33 apple
    votes zero h m = (
      get_or voted.network 1 blank,
      get_or-In voted.network 1 (omega arith),
      refl,
      refl,
      refl,
      refl,
    )
    votes (suc zero) h m = (
      get_or voted.network 0 blank,
      get_or-In voted.network 0 (omega arith),
      refl,
      refl,
      refl,
      refl,
    )
    votes (suc (suc a)) h m = ground arith

one_value-Chosen_example : apple ≡ apple
one_value-Chosen_example = one_value-Chosen 33 33 apple apple voted-Reach apple-Chosen apple-Chosen

view-IsSound_example : IsSound 3 (view voted)
view-IsSound_example = view-IsSound voted-Reach

both-Chosen_example :
    (s : System) × Reach 3 any_order s × Chosen 3 (view s) 34 apple × Chosen 3 (view s) 35 pear
both-Chosen_example = both-Chosen apple pear

value_to_propose_example : Selected (blank ∷ []) apple (value_to_propose (blank ∷ []) apple)
value_to_propose_example = value_to_propose-Selected (blank ∷ []) apple

run_instance_example :
    run_instance blank pear 7 apple (pos 5) pear
    ≡ (if in_range (pos 5) && not (first_ballot 7 == 0) then (true, apple) else (false, pear))
run_instance_example = run_instance_lem blank pear 7 apple (pos 5) pear
