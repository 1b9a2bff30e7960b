-- ===== src/Paxos/Instance.antt =====
-- `paxos_run_instance`, and the checks of the safety of a set of acceptors.
-- What the C arrays hold before they are written is the parameter `junk`, and `junk_value` for the
-- values: no theorem depends on it.
use mini_distributed_computi.Prelude.{
  ℕ, zero, suc, ◌+◌, ◌-◌, ◌*◌, ◌/◌, ◌%◌, ◌^◌, ◌==◌, ltb, leb, if◌then◌else◌, Bool, true, false, not,
  ◌&&◌, ◌||◌, List, [], ◌∷◌, ◌++◌, map, length, take, get_or, set, replicate, Option, none, some, ℤ,
  pos, negsuc,
}
use mini_distributed_computi.Paxos.Types.{Value, same_value, max_nodes, Message, Acceptor, Proposer}
use mini_distributed_computi.Paxos.Roles.{
  proposer_init, prepare, receive_prepare, accept, receive_accept,
}

-- k + 1, …, k + n: the identifiers that `paxos_run_instance` gives out
abbrev pub ids_from : ℕ → ℕ → List ℕ
ids_from zero k = []
ids_from (suc n) k = suc k ∷ ids_from n (suc k)

-- `(ballot_t)(1 * MAX_NODES + proposer_id)`, a sum of 32-bit unsigned integers
abbrev pub first_ballot : ℕ → ℕ
first_ballot proposer_id = (1 * max_nodes + proposer_id) % 2 ^ 32

-- the value of the first acceptor that accepted at `ballot`, as `paxos_run_instance` and
-- `paxos_leader_completeness_holds` look for it
unfoldable pub find_accepted : ℕ → List Acceptor → Option Value
find_accepted ballot [] = none
find_accepted ballot (a ∷ accs) =
    if a.has_accepted && a.accepted_ballot == ballot
    then some a.accepted_value
    else find_accepted ballot accs

abbrev pub chosen_result : Option Value → Value → Bool × Value
chosen_result none result = (false, result)
chosen_result (some v) result = (true, v)

module _ (junk : Message) (junk_value : Value) where
  abbrev pub instance_acceptor : ℕ → Acceptor
  instance_acceptor id = record {
    node_id = id;
    promise_ballot = 0;
    accepted_ballot = 0;
    accepted_value = junk_value;
    has_accepted = false;
  }

  -- phase 1b over the PREPARE messages: the acceptors and `promises`
  unfoldable pub promise_loop :
      List Message → List Acceptor → List Message → List Acceptor × List Message
  promise_loop [] accs promises = (accs, promises)
  promise_loop (m ∷ ms) accs promises =
      let r = receive_prepare (get_or accs (m.to - 1) (instance_acceptor 0)) m junk in
      promise_loop ms (set accs (m.to - 1) r.1) (if r.0 then promises ++ (r.2 ∷ []) else promises)

  -- phase 2b over the ACCEPT messages: the acceptors and `accepted_count`
  unfoldable pub accept_loop : List Message → List ℕ → List Acceptor → ℕ → List Acceptor × ℕ
  accept_loop [] learners accs count = (accs, count)
  accept_loop (m ∷ ms) learners accs count =
      let r =
        receive_accept (get_or accs (m.to - 1) (instance_acceptor 0)) m learners
          (replicate max_nodes junk) in
      accept_loop ms learners (set accs (m.to - 1) r.1) (count + r.0)

  -- phase 2, once the promises are there
  unfoldable pub second_phase :
      ℕ → Proposer → List Acceptor → List Message → List Message → ℕ → Value → Value → Bool × Value
  second_phase n p accs promises msgs ballot value result =
      let r = accept p promises value (ids_from n 0) msgs in
      let s = accept_loop (take r.0 r.2) (ids_from n n) accs 0 in
      if not (r.0 == n)
      then (false, result)
      else if leb ((n / 2 + 1) * n) s.1
      then chosen_result (find_accepted ballot s.0) result
      else (false, result)

  unfoldable pub first_phase : ℕ → ℕ → Value → Value → Bool × Value
  first_phase n proposer_id value result =
      let ballot = first_ballot proposer_id in
      let r =
        prepare (proposer_init proposer_id) ballot (ids_from n 0) (replicate max_nodes junk) in
      let s = promise_loop (take r.0 r.2) (map instance_acceptor (ids_from n 0)) [] in
      if not (r.0 == n)
      then (false, result)
      else if ltb (length s.1) (n / 2 + 1)
      then (false, result)
      else second_phase n r.1 s.0 s.1 r.2 ballot value result

  -- `paxos_run_instance`, with what it leaves in `*result`
  unfoldable pub run_instance : ℕ → Value → ℤ → Value → Bool × Value
  run_instance proposer_id value (negsuc n) result = (false, result)
  run_instance proposer_id value (pos n) result =
      if leb n 0 || ltb max_nodes n then (false, result) else first_phase n proposer_id value result

-- the inner loop of `paxos_verify_safety_invariant`
unfoldable pub agrees_with_all : Acceptor → List Acceptor → Bool
agrees_with_all a [] = true
agrees_with_all a (b ∷ bs) =
    let rest = agrees_with_all a bs in
    if not b.has_accepted
    then rest
    else if a.accepted_ballot == b.accepted_ballot
        && not (same_value a.accepted_value b.accepted_value)
    then false
    else rest

-- `paxos_verify_safety_invariant`
unfoldable pub verify_safety_invariant : List Acceptor → Bool
unfolding agrees_with_all
verify_safety_invariant [] = true
verify_safety_invariant (a ∷ accs) =
    let rest = verify_safety_invariant accs in
    if not a.has_accepted then rest else if agrees_with_all a accs then rest else false

-- the last loop of `paxos_leader_completeness_holds`
unfoldable pub later_agree : ℕ → Value → List Acceptor → Bool
later_agree ballot v [] = true
later_agree ballot v (a ∷ accs) =
    let rest = later_agree ballot v accs in
    if a.has_accepted && ltb ballot a.accepted_ballot && not (same_value a.accepted_value v)
    then false
    else rest

abbrev pub agree_from : ℕ → List Acceptor → Option Value → Bool
agree_from ballot accs none = true
agree_from ballot accs (some v) = later_agree ballot v accs

-- `paxos_leader_completeness_holds`, whose `max_accepted` is not used
unfoldable pub leader_completeness_holds : List Acceptor → ℕ → Bool
unfolding find_accepted later_agree
leader_completeness_holds accs highest_chosen =
    if highest_chosen == 0
    then true
    else agree_from highest_chosen accs (find_accepted highest_chosen accs)
