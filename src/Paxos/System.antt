-- ===== src/Paxos/System.antt =====
-- Basic Paxos at work: any number of proposers and `n` acceptors, which run the functions of
-- `Paxos.Roles` over a network that loses, repeats and reorders messages as it likes.
-- Acceptor `i` has the identifier `i`, and so has proposer `p`, below `max_nodes`. A proposer
-- chooses its ballots as the comment on `paxos_prepare` says, round * max_nodes + id, and calls
-- `paxos_accept` once a majority of acceptors has promised its current ballot.
use mini_distributed_computi.Prelude.{
  ℕ, ◌%◌, ◌<◌, ◌≤◌, ◌≡◌, ◌⊎◌, ◌==◌, if◌then◌else◌, Bool, true, false, List, [], ◌∷◌, ◌++◌, length,
  take,
}
use mini_distributed_computi.Paxos.Types.{
  Value, max_nodes, no_value, promise_type, accept_type, accepted_type, Message, Acceptor, Proposer,
}
use mini_distributed_computi.Paxos.Roles.{
  proposer_init, prepare, receive_prepare, accept, receive_accept,
}
use mini_distributed_computi.Paxos.Voting.{IsMajority, View}

-- the fields of one acceptor as `paxos_run_instance` sets them
abbrev pub fresh_acceptor : ℕ → Acceptor
fresh_acceptor id = record {
  node_id = id;
  promise_ballot = 0;
  accepted_ballot = 0;
  accepted_value = no_value;
  has_accepted = false;
}

-- Every message that was sent stays in the network.
pub record System : Type 0 where
  pub acceptors : ℕ → Acceptor
  pub proposers : ℕ → Proposer
  pub network : List Message

abbrev pub start : System
start = record { acceptors = fresh_acceptor; proposers = proposer_init; network = [] }

abbrev pub In : Message → List Message → Type 0
In m [] = ⊥
In m (x ∷ xs) = (m ≡ x) ⊎ In m xs

abbrev pub put {ℓ} : {A : Type ℓ} → (ℕ → A) → ℕ → A → ℕ → A
put f i a j = if i == j then a else f j

-- Promises of a majority of the `n` acceptors for the current ballot of proposer `p`.
pub record Collected (n : ℕ) (s : System) (p : ℕ) (promises : List Message) : Type 0 where
  pub members : ℕ → Bool
  pub majority : IsMajority n members
  pub answered : (i : ℕ) → i < n → members i ≡ true → (m : Message) × In m promises × (m.from ≡ i)
  pub sent : (m : Message) → In m promises → In m s.network
  pub promising : (m : Message) → In m promises → m.type ≡ promise_type
  pub current : (m : Message) → In m promises → m.ballot ≡ (s.proposers p).current_ballot

-- What `deliver a m` says of an ACCEPT message `m` that reaches acceptor `a`: everything that the
-- network guarantees about the order of these messages.
abbrev pub Policy : Type 1
Policy = Acceptor → Message → Type 0

abbrev pub any_order : Policy
any_order a m = Unit

-- No ACCEPT message reaches an acceptor after one of a higher ballot that it accepted.
abbrev pub in_order : Policy
in_order a m = a.accepted_ballot ≤ m.ballot

pub data Step (n : ℕ) (deliver : Policy) (s : System) : System → Type 0 where
  propose :
      (p ballot : ℕ) (ids : List ℕ) (out : List Message)
      → p < max_nodes
      → ballot % max_nodes ≡ p
      → Step n deliver s (record s {
        proposers = put s.proposers p (prepare (s.proposers p) ballot ids out).1;
        network =
            take
              (prepare (s.proposers p) ballot ids out).0
              (prepare (s.proposers p) ballot ids out).2
            ++ s.network;
      })
  promise :
      (i : ℕ) (m out : Message)
      → In m s.network
      → m.to ≡ i
      → Step n deliver s (record s {
        acceptors = put s.acceptors i (receive_prepare (s.acceptors i) m out).1;
        network =
            if (receive_prepare (s.acceptors i) m out).0
            then (receive_prepare (s.acceptors i) m out).2 ∷ s.network
            else s.network;
      })
  select :
      (p : ℕ) (promises : List Message) (own : Value) (ids : List ℕ) (out : List Message)
      → p < max_nodes
      → (s.proposers p).phase ≡ 1
      → Collected n s p promises
      → Step n deliver s (record s {
        proposers = put s.proposers p (accept (s.proposers p) promises own ids out).1;
        network =
            take
              (accept (s.proposers p) promises own ids out).0
              (accept (s.proposers p) promises own ids out).2
            ++ s.network;
      })
  vote :
      (i : ℕ) (m : Message) (learners : List ℕ) (out : List Message)
      → In m s.network
      → m.to ≡ i
      → deliver (s.acceptors i) m
      → 0 < length learners
      → length learners ≤ length out
      → Step n deliver s (record s {
        acceptors = put s.acceptors i (receive_accept (s.acceptors i) m learners out).1;
        network =
            take
              (receive_accept (s.acceptors i) m learners out).0
              (receive_accept (s.acceptors i) m learners out).2
            ++ s.network;
      })

pub data Reach (n : ℕ) (deliver : Policy) : System → Type 0 where
  here : Reach n deliver start
  next : {s t : System} → Reach n deliver s → Step n deliver s t → Reach n deliver t

-- a vote that the network carries to the learners
abbrev pub VotedIn : List Message → ℕ → ℕ → Value → Type 0
VotedIn net a b v =
    (m : Message) × In m net
    × (m.type ≡ accepted_type)
    × (m.from ≡ a)
    × (m.ballot ≡ b)
    × (m.value ≡ v)

abbrev pub ProposedIn : List Message → ℕ → Value → Type 0
ProposedIn net b v =
    (m : Message) × In m net × (m.type ≡ accept_type) × (m.ballot ≡ b) × (m.value ≡ v)

-- The ballots and votes of a system.
abbrev pub view : System → View Value
view s = record {
  promised = λ a. (s.acceptors a).promise_ballot;
  Voted = VotedIn s.network;
  Proposed = ProposedIn s.network;
}
