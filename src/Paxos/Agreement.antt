-- ===== src/Paxos/Agreement.antt =====
-- Agreement of Basic Paxos, when ACCEPT messages reach each acceptor in the order of their ballots.
use mini_distributed_computi.Prelude.{ℕ, ◌≡◌}
use mini_distributed_computi.Paxos.Types.{Value}
use mini_distributed_computi.Paxos.Voting.{Chosen, IsSound, agreement}
use mini_distributed_computi.Paxos.System.{
  System, Step, propose, promise, select, vote, Reach, here, next, in_order, view,
}
use mini_distributed_computi.Paxos.Invariant.{
  Inv, Inv-start, Inv-prepare, Inv-promise, Inv-accept, Inv-vote,
}

pub Step-Inv : {n : ℕ} {s t : System} → Step n in_order s t → Inv n s → Inv n t
Step-Inv (propose p ballot ids out small convention) inv =
    Inv-prepare p ballot ids out small convention inv
Step-Inv (promise i m out sent to) inv = Inv-promise i m out inv
Step-Inv (select p promises own ids out small busy got) inv =
    Inv-accept p promises own ids out busy got inv
Step-Inv (vote i m learners out sent to latest some_learner room) inv =
    Inv-vote i m learners out sent latest some_learner room inv

pub Reach-Inv : {n : ℕ} {s : System} → Reach n in_order s → Inv n s
Reach-Inv {n} here = Inv-start n
Reach-Inv (next r st) = Step-Inv st (Reach-Inv r)

-- Whatever proposers do, and however messages are lost, repeated and delayed: if no ACCEPT message
-- reaches an acceptor after one of a higher ballot that it accepted, then two values for which
-- majorities of the acceptors have voted, each in one ballot, are the same value.
pub one_value-Chosen :
    {n : ℕ} {s : System} (b c : ℕ) (v w : Value)
    → Reach n in_order s
    → Chosen n (view s) b v
    → Chosen n (view s) c w
    → v ≡ w
one_value-Chosen {n} b c v w r p p' = agreement n b c v w (Reach-Inv r).sound p p'

-- Under the same condition the system refines the voting specification in every reachable state: a
-- ballot has one proposed value, acceptors vote for proposed values only, and each proposed value is
-- safe at every lower ballot, where a majority has voted for it or never will vote.
pub view-IsSound : {n : ℕ} {s : System} → Reach n in_order s → IsSound n (view s)
view-IsSound r = (Reach-Inv r).sound
