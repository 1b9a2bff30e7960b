-- ===== src/Paxos/Roles.antt =====
-- src/paxos_basic.c: what a proposer, an acceptor and a learner do with one message.
use mini_distributed_computi.Prelude.{
  ℕ, ltb, leb, if◌then◌else◌, Bool, true, false, not, List, [], ◌∷◌, length, Option, none, some,
}
use mini_distributed_computi.Paxos.Types.{
  Value, same_value, no_value, MessageType, prepare_type, promise_type, accept_type, accepted_type,
  Message, Acceptor, Proposer, Learner,
}

-- `paxos_proposer_init`
unfoldable pub proposer_init : ℕ → Proposer
proposer_init id = record { node_id = id; current_ballot = 0; proposed_value = no_value; phase = 0 }

-- the first slots of `out_msgs` with PREPARE messages, one to each acceptor
unfoldable pub write_prepares : ℕ → ℕ → List ℕ → List Message → List Message
write_prepares from ballot [] out = out
write_prepares from ballot (id ∷ ids) [] = []
write_prepares from ballot (id ∷ ids) (m ∷ out) =
    record m { type = prepare_type; from = from; to = id; ballot = ballot }
    ∷ write_prepares from ballot ids out

-- `paxos_prepare`: the number of messages, the proposer, the messages
unfoldable pub prepare : Proposer → ℕ → List ℕ → List Message → ℕ × Proposer × List Message
unfolding write_prepares
prepare p ballot ids out = if leb ballot p.current_ballot then (0, p, out) else (
  length ids,
  record p { current_ballot = ballot; phase = 1 },
  write_prepares p.node_id ballot ids out,
)

abbrev pub is_prepare : MessageType → Bool
is_prepare prepare_type = true
is_prepare _ = false

abbrev pub is_accept : MessageType → Bool
is_accept accept_type = true
is_accept _ = false

-- the promise that `paxos_receive_prepare` writes into `out_msg`
abbrev pub promise_of : Acceptor → Message → Message → Message
promise_of a msg out = record out {
  type = promise_type;
  from = a.node_id;
  to = msg.from;
  ballot = msg.ballot;
  accepted_ballot = if a.has_accepted then a.accepted_ballot else 0;
  accepted_value = if a.has_accepted then a.accepted_value else no_value;
}

-- `paxos_receive_prepare`: whether it promises, the acceptor, the response
unfoldable pub receive_prepare : Acceptor → Message → Message → Bool × Acceptor × Message
receive_prepare a msg out =
    if not (is_prepare msg.type)
    then (false, a, out)
    else if leb msg.ballot a.promise_ballot
    then (false, a, out)
    else (true, record a { promise_ballot = msg.ballot }, promise_of a msg out)

-- The loop of `paxos_accept` over the promises. `best` is the promise at `highest_idx`.
unfoldable pub find_highest : List Message → ℕ → Option Message → ℕ × Option Message
find_highest [] highest best = (highest, best)
find_highest (m ∷ ms) highest best =
    find_highest ms (if ltb highest m.accepted_ballot then m.accepted_ballot else highest)
      (if ltb highest m.accepted_ballot then some m else best)

abbrev pub pick_value : ℕ → Option Message → Value → Value
pick_value highest none own = own
pick_value highest (some m) own = if ltb 0 highest then m.accepted_value else own

-- the value that `paxos_accept` proposes
unfoldable pub value_to_propose : List Message → Value → Value
unfolding find_highest
value_to_propose promises own =
    pick_value (find_highest promises 0 none).0 (find_highest promises 0 none).1 own

-- the first slots of `out_msgs` with ACCEPT messages
unfoldable pub write_accepts : ℕ → ℕ → Value → List ℕ → List Message → List Message
write_accepts from ballot v [] out = out
write_accepts from ballot v (id ∷ ids) [] = []
write_accepts from ballot v (id ∷ ids) (m ∷ out) =
    record m { type = accept_type; from = from; to = id; ballot = ballot; value = v }
    ∷ write_accepts from ballot v ids out

-- `paxos_accept`; `num_promises` is the length of the list
unfoldable pub accept :
    Proposer → List Message → Value → List ℕ → List Message → ℕ × Proposer × List Message
unfolding write_accepts
accept p [] own ids out = (0, p, out)
accept p (m ∷ ms) own ids out =
    let v = value_to_propose (m ∷ ms) own in
    (
      length ids,
      record p { proposed_value = v; phase = 2 },
      write_accepts p.node_id p.current_ballot v ids out,
    )

-- the first slots of `out_msgs` with ACCEPTED messages, one to each learner
unfoldable pub write_accepteds : ℕ → ℕ → Value → List ℕ → List Message → List Message
write_accepteds from ballot v [] out = out
write_accepteds from ballot v (id ∷ ids) [] = []
write_accepteds from ballot v (id ∷ ids) (m ∷ out) =
    record m { type = accepted_type; from = from; to = id; ballot = ballot; value = v }
    ∷ write_accepteds from ballot v ids out

-- `paxos_receive_accept`: the number of messages, the acceptor, the messages
unfoldable pub receive_accept :
    Acceptor → Message → List ℕ → List Message → ℕ × Acceptor × List Message
unfolding write_accepteds
receive_accept a msg learners out =
    if not (is_accept msg.type)
    then (0, a, out)
    else if ltb msg.ballot a.promise_ballot
    then (0, a, out)
    else (
      length learners,
      record a { accepted_ballot = msg.ballot; accepted_value = msg.value; has_accepted = true },
      write_accepteds a.node_id msg.ballot msg.value learners out,
    )

-- `paxos_learner_receive`, which leaves `num_acceptors` unread
unfoldable pub learner_receive : Learner → Message → Bool × Learner
learner_receive l msg =
    if l.has_learned
    then (same_value msg.value l.learned_value, l)
    else (true, record l { learned_value = msg.value; has_learned = true })
