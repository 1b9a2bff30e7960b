-- ===== src/Paxos/InstanceRun.antt =====
-- What a whole run of `paxos_run_instance` gives.
use mathlib.Core.List.{append-nil, append_assoc}
use mini_distributed_computi.Prelude.{
  ℕ, zero, suc, ◌+◌, ◌-◌, ◌*◌, ◌/◌, ◌<◌, ◌≤◌, ◌≡◌, ◌∙◌, refl, ap, arith, ◌==◌, ltb, leb, le→leb,
  if◌then◌else◌, Bool, true, false, not, ◌&&◌, List, [], ◌∷◌, ◌++◌, map, length, take, replicate,
  length-replicate, length-map, length-append, get_or-append_mid, set-append_mid, some, ℤ, pos,
  negsuc, inl, inr, Bool-cases,
}
use mini_distributed_computi.Paxos.Types.{
  Value, no_value, max_nodes, prepare_type, promise_type, accept_type, Message, Acceptor, Proposer,
}
use mini_distributed_computi.Paxos.Roles.{
  proposer_init, prepare, write_prepares, receive_prepare, accept, write_accepts, value_to_propose,
  receive_accept,
}
use mini_distributed_computi.Paxos.System.{In}
use mini_distributed_computi.Paxos.Selection.{Selected, free, adopted, value_to_propose-Selected}
use mini_distributed_computi.Paxos.Instance.{
  ids_from, first_ballot, find_accepted, instance_acceptor, promise_loop, accept_loop, second_phase,
  first_phase, run_instance,
}

-- 1 to `max_nodes` acceptors
abbrev pub in_range : ℤ → Bool
in_range (pos n) = leb 1 n && leb n max_nodes
in_range (negsuc n) = false

length-ids_from : (n k : ℕ) → length (ids_from n k) ≡ n
length-ids_from zero k = refl
length-ids_from (suc n) k = ap suc (length-ids_from n (suc k))

module _ (junk : Message) (junk_value : Value) (from ballot : ℕ) where
  -- an acceptor after its promise, and its answer
  abbrev promised : ℕ → Acceptor
  promised id = record (instance_acceptor junk junk_value id) { promise_ballot = ballot }

  abbrev answer : ℕ → Message
  answer id = record junk {
    type = promise_type;
    from = id;
    to = from;
    ballot = ballot;
    accepted_ballot = 0;
    accepted_value = no_value;
  }

  abbrev prepare_to : Message → ℕ → Message
  prepare_to m id = record m { type = prepare_type; from = from; to = id; ballot = ballot }

  receive_prepare-fresh :
      (m : Message) (id : ℕ)
      → 0 < ballot
      → receive_prepare (instance_acceptor junk junk_value id) (prepare_to m id) junk
        ≡ (true, promised id, answer id)
  unfolding receive_prepare
  receive_prepare-fresh m id h = let t : leb ballot 0 ≡ false = ground arith in rw t

  promise_loop-step :
      (m : Message) (ms : List Message) (k : ℕ) (before rest : List Acceptor)
      (promises : List Message)
      → 0 < ballot
      → k ≡ length before
      → promise_loop junk junk_value
          (prepare_to m (suc k) ∷ ms)
          (before ++ (instance_acceptor junk junk_value (suc k) ∷ rest))
          promises
        ≡ promise_loop junk junk_value ms
            (before ++ (promised (suc k) ∷ rest))
            (promises ++ (answer (suc k) ∷ []))
  unfolding promise_loop
  promise_loop-step m ms k before rest promises h e =
      let at : suc k - 1 ≡ length before = omega arith in
      rw (
        get_or-append_mid before _ rest (suc k - 1) _ at,
        receive_prepare-fresh m (suc k) h,
        set-append_mid before _ rest (suc k - 1) _ at,
      )

  promise_loop-nil :
      (accs : List Acceptor) (promises : List Message)
      → promise_loop junk junk_value [] accs promises ≡ (accs, promises)
  unfolding promise_loop
  promise_loop-nil accs promises = refl

  -- Every acceptor promises, in turn.
  promise_loop-all :
      (n k : ℕ) (out : List Message) (before : List Acceptor) (promises : List Message)
      → 0 < ballot
      → k ≡ length before
      → n ≤ length out
      → promise_loop junk junk_value
          (take (length (ids_from n k)) (write_prepares from ballot (ids_from n k) out))
          (before ++ map (instance_acceptor junk junk_value) (ids_from n k))
          promises
        ≡ (before ++ map promised (ids_from n k), promises ++ map answer (ids_from n k))
  unfolding write_prepares
  promise_loop-all zero k out before promises h e room =
      promise_loop-nil (before ++ []) promises ∙ rw (append-nil promises)
  promise_loop-all (suc n) k [] before promises h e room = absurd (omega arith)
  promise_loop-all (suc n) k (m ∷ out) before promises h e room =
      promise_loop-step m
        (take (length (ids_from n (suc k))) (write_prepares from ballot (ids_from n (suc k)) out)) k
        before (map (instance_acceptor junk junk_value) (ids_from n (suc k))) promises h e
      ∙ (simp append_assoc at (
          promise_loop-all n (suc k) out (before ++ (promised (suc k) ∷ []))
            (promises ++ (answer (suc k) ∷ [])) h
            (omega (arith, length-append before (promised (suc k) ∷ []))) (omega arith)))

  module _ (v : Value) (learners : List ℕ) where
    -- an acceptor after its vote
    abbrev voted : ℕ → Acceptor
    voted id = record (promised id) {
      accepted_ballot = ballot;
      accepted_value = v;
      has_accepted = true;
    }

    abbrev accept_to : Message → ℕ → Message
    accept_to m id = record m {
      type = accept_type;
      from = from;
      to = id;
      ballot = ballot;
      value = v;
    }

    receive_accept-promised :
        (m : Message) (id : ℕ) (out : List Message)
        → ((receive_accept (promised id) (accept_to m id) learners out).0 ≡ length learners)
          × ((receive_accept (promised id) (accept_to m id) learners out).1 ≡ voted id)
    unfolding receive_accept
    receive_accept-promised m id out =
        let t : ltb ballot ballot ≡ false = ground arith in (rw t, rw t)

    accept_loop-nil :
        (accs : List Acceptor) (c : ℕ) → accept_loop junk junk_value [] learners accs c ≡ (accs, c)
    unfolding accept_loop
    accept_loop-nil accs c = refl

    accept_loop-step :
        (m : Message) (ms : List Message) (k : ℕ) (before rest : List Acceptor) (c : ℕ)
        → k ≡ length before
        → accept_loop junk junk_value
            (accept_to m (suc k) ∷ ms)
            learners
            (before ++ (promised (suc k) ∷ rest))
            c
          ≡ accept_loop junk junk_value ms learners
              (before ++ (voted (suc k) ∷ rest))
              (c + length learners)
    unfolding accept_loop
    accept_loop-step m ms k before rest c e =
        let at : suc k - 1 ≡ length before = omega arith in
        let done = receive_accept-promised m (suc k) (replicate max_nodes junk) in
        rw (
          get_or-append_mid before _ rest (suc k - 1) _ at,
          done.0,
          done.1,
          set-append_mid before _ rest (suc k - 1) _ at,
        )

    -- Every acceptor votes, in turn, and tells all learners.
    accept_loop-all :
        (n k : ℕ) (out : List Message) (before : List Acceptor) (c : ℕ)
        → k ≡ length before
        → n ≤ length out
        → accept_loop junk junk_value
            (take (length (ids_from n k)) (write_accepts from ballot v (ids_from n k) out))
            learners
            (before ++ map promised (ids_from n k))
            c
          ≡ (before ++ map voted (ids_from n k), c + n * length learners)
    unfolding write_accepts
    accept_loop-all zero k out before c e room =
        accept_loop-nil (before ++ []) c ∙ ap (λ (t : ℕ). (before ++ [], t)) (omega arith)
    accept_loop-all (suc n) k [] before c e room = absurd (omega arith)
    accept_loop-all (suc n) k (m ∷ out) before c e room =
        accept_loop-step m
          (take (length (ids_from n (suc k)))
            (write_accepts from ballot v (ids_from n (suc k)) out))
          k before (map promised (ids_from n (suc k))) c e
        ∙ (simp append_assoc at (
            accept_loop-all n (suc k) out (before ++ (voted (suc k) ∷ [])) (c + length learners)
              (omega (arith, length-append before (voted (suc k) ∷ []))) (omega arith)))
        ∙ ap (λ (t : ℕ). (before ++ map voted (ids_from (suc n) k), t)) (grind arith)

    find_accepted-voted : (n k : ℕ) → find_accepted ballot (map voted (ids_from (suc n) k)) ≡ some v
    unfolding find_accepted
    find_accepted-voted n k = let t : (ballot == ballot) ≡ true = ground arith in rw t

  answer-unused : (ids : List ℕ) (m : Message) → In m (map answer ids) → m.accepted_ballot ≡ 0
  answer-unused [] m h = elim h [ ]
  answer-unused (id ∷ ids) m (inl e) = rw e
  answer-unused (id ∷ ids) m (inr h) = answer-unused ids m h

  value_to_propose-answers :
      (ids : List ℕ) (own : Value) → value_to_propose (map answer ids) own ≡ own
  value_to_propose-answers ids own = own_value (value_to_propose-Selected (map answer ids) own)
    where
      own_value : {v : Value} → Selected (map answer ids) own v → v ≡ own
      own_value (free _ e) = e
      own_value (adopted m here pos_ballot _ _) = absurd (omega (arith, answer-unused ids m here))

-- a majority of `n` acceptors that tell `n` learners each
majority_square : (n : ℕ) → 0 < n → (n / 2 + 1) * n ≤ n * n
majority_square n h = grind arith

module _ (junk : Message) (junk_value : Value) where
  length-write_prepares :
      (from ballot : ℕ) (ids : List ℕ) (out : List Message)
      → length (write_prepares from ballot ids out) ≡ length out
  unfolding write_prepares
  length-write_prepares from ballot [] out = refl
  length-write_prepares from ballot (id ∷ ids) [] = refl
  length-write_prepares from ballot (id ∷ ids) (m ∷ out) =
      ap suc (length-write_prepares from ballot ids out)

  accept-some :
      (p : Proposer) (m : Message) (ms : List Message) (own : Value) (ids : List ℕ)
      (out : List Message)
      → accept p (m ∷ ms) own ids out ≡ (
        length ids,
        record p { proposed_value = value_to_propose (m ∷ ms) own; phase = 2 },
        write_accepts p.node_id p.current_ballot (value_to_propose (m ∷ ms) own) ids out,
      )
  unfolding accept
  accept-some p m ms own ids out = refl

  second_phase_lem :
      (n : ℕ) (p : Proposer) (msgs : List Message) (value result : Value)
      → suc n ≤ length msgs
      → second_phase junk junk_value
          (suc n)
          p
          (map (promised junk junk_value p.node_id p.current_ballot) (ids_from (suc n) 0))
          (map (answer junk junk_value p.node_id p.current_ballot) (ids_from (suc n) 0))
          msgs
          p.current_ballot
          value
          result
        ≡ (true, value)
  unfolding second_phase
  second_phase_lem n p msgs value result room =
      let count = length-ids_from (suc n) 0 in
      let own =
        value_to_propose-answers junk junk_value p.node_id p.current_ballot (ids_from (suc n) 0)
          value in
      let votes =
        accept_loop-all junk junk_value p.node_id p.current_ballot value (ids_from (suc n) (suc n))
          (suc n) 0 msgs [] 0 refl room in
      let same : (length (ids_from (suc n) 0) == suc n) ≡ true = ground (arith, count) in
      let enough : leb ((suc n / 2 + 1) * suc n) (0 + suc n * length (ids_from (suc n) (suc n)))
          ≡ true =
        le→leb _ _ (
          omega (
            arith,
            majority_square (suc n) (omega arith),
            ap (λ (t : ℕ). suc n * t) (length-ids_from (suc n) (suc n)),
          )) in
      rw (
        accept-some p _ _ value (ids_from (suc n) 0) msgs,
        own,
        votes,
        same,
        enough,
        find_accepted-voted junk junk_value p.node_id p.current_ballot value [] n 0,
      )

  prepare-fresh :
      (id ballot : ℕ) (ids : List ℕ) (out : List Message)
      → prepare (proposer_init id) ballot ids out ≡ (
          if leb ballot 0 then (0, proposer_init id, out) else (
            length ids,
            record (proposer_init id) { current_ballot = ballot; phase = 1 },
            write_prepares id ballot ids out,
          ))
  unfolding prepare proposer_init
  prepare-fresh id ballot ids out = refl

  first_phase-ok :
      (n id : ℕ) (value result : Value)
      → suc n ≤ max_nodes
      → 0 < first_ballot id
      → first_phase junk junk_value (suc n) id value result ≡ (true, value)
  unfolding first_phase proposer_init
  first_phase-ok n id value result small positive =
      let ids = ids_from (suc n) 0 in
      let out = replicate max_nodes junk in
      let b = first_ballot id in
      let count = length-ids_from (suc n) 0 in
      let fresh : leb b 0 ≡ false = ground arith in
      let same : (length ids == suc n) ≡ true = ground (arith, count) in
      let promises =
        promise_loop-all junk junk_value id b (suc n) 0 out [] [] positive refl
          (omega (arith, length-replicate max_nodes junk)) in
      let majority : ltb (length (map (answer junk junk_value id b) ids)) (suc n / 2 + 1) ≡ false =
        ground (arith, length-map (answer junk junk_value id b) ids, count) in
      rw (prepare-fresh id b ids out, fresh, same, promises, majority)
        (second_phase_lem n (record (proposer_init id) { current_ballot = b; phase = 1 })
          (write_prepares id b ids out) value result
          (omega (arith, length-write_prepares id b ids out, length-replicate max_nodes junk)))

  first_phase-wrapped :
      (n id : ℕ) (value result : Value)
      → first_ballot id ≡ 0
      → first_phase junk junk_value (suc n) id value result ≡ (false, result)
  unfolding first_phase
  first_phase-wrapped n id value result wrapped =
      let refused : prepare (proposer_init id) (first_ballot id) (ids_from (suc n) 0)
            (replicate max_nodes junk)
          ≡ (0, proposer_init id, replicate max_nodes junk) =
        prepare-fresh id (first_ballot id) _ _ ∙ rw wrapped in
      let differs : (0 == suc n) ≡ false = ground arith in rw (refused, differs)

-- With 1 to 32 acceptors a run of `paxos_run_instance` decides the proposer's own value, whatever
-- the arrays held, unless the sum of 32 and the proposer's identifier is 0 modulo 2 ^ 32. In that
-- case, and with any other number of acceptors, it returns false and leaves the result alone.
pub run_instance_lem :
    (junk : Message) (junk_value : Value) (id : ℕ) (value : Value) (n : ℤ) (result : Value)
    → run_instance junk junk_value id value n result
      ≡ (if in_range n && not (first_ballot id == 0) then (true, value) else (false, result))
unfolding run_instance
run_instance_lem junk junk_value id value (negsuc n) result = refl
run_instance_lem junk junk_value id value (pos zero) result = refl
run_instance_lem junk junk_value id value (pos (suc n)) result =
    elim (Bool-cases (ltb max_nodes (suc n))) [
      | inl many ↦ ground arith
      | inr few ↦ elim (Bool-cases (first_ballot id == 0)) [
        | inl wrapped ↦ ground (arith, first_phase-wrapped junk junk_value n id value result)
        | inr fine ↦ ground (arith, first_phase-ok junk junk_value n id value result)
      ]
    ]
