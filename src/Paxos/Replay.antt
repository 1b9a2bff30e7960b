-- ===== src/Paxos/Replay.antt =====
-- Concrete steps of a system of three acceptors, by the place of a message in the network.
use mini_distributed_computi.Prelude.{
  ℕ, zero, suc, ◌<◌, ◌≡◌, ◌≢◌, inl, inr, refl, ◌==◌, ◌||◌, ◌%◌, if◌then◌else◌, Bool-cases, List, [],
  ◌∷◌, ◌++◌, length, take, get_or, arith,
}
use mini_distributed_computi.Paxos.Types.{Value, max_nodes, prepare_type, promise_type, Message}
use mini_distributed_computi.Paxos.Roles.{prepare, receive_prepare, accept, receive_accept}
use mini_distributed_computi.Paxos.Voting.{count}
use mini_distributed_computi.Paxos.System.{
  System, In, put, Collected, propose, promise, select, vote, Reach, next, Policy,
}

-- an unused slot of an array of messages
abbrev pub blank : Message
blank = record {
  type = prepare_type;
  from = 0;
  to = 0;
  ballot = 0;
  accepted_ballot = 0;
  accepted_value = record { bytes = []; length = 0 };
  value = record { bytes = []; length = 0 };
}

abbrev pub slots : List Message
slots = blank ∷ blank ∷ blank ∷ []

abbrev pub three : List ℕ
three = 0 ∷ 1 ∷ 2 ∷ []

pub get_or-In : (net : List Message) (k : ℕ) → k < length net → In (get_or net k blank) net
get_or-In [] k h = absurd (omega arith)
get_or-In (m ∷ net) zero h = inl refl
get_or-In (m ∷ net) (suc k) h = inr (get_or-In net k (omega arith))

-- Two promises of different acceptors are those of a majority of three.
pub two_of_three :
    {s : System} {p : ℕ} (i j : ℕ) (m m' : Message)
    → i < 3
    → j < 3
    → i ≢ j
    → In m s.network
    → In m' s.network
    → (m.type ≡ promise_type) × (m.from ≡ i) × (m.ballot ≡ (s.proposers p).current_ballot)
    → (m'.type ≡ promise_type) × (m'.from ≡ j) × (m'.ballot ≡ (s.proposers p).current_ballot)
    → Collected 3 s p (m ∷ m' ∷ [])
unfolding count
two_of_three {s} {p} i j m m' hi hj ne a a' f f' = record {
  members = λ k. k == i || k == j;
  majority = ground arith;
  answered = λ k below member. elim (Bool-cases (k == i)) [
    | inl e ↦ (m, inl refl, ground arith)
    | inr e ↦ (m', inr (inl refl), ground arith)
  ];
  sent = λ x h. elim h [
    | inl e ↦ rw e a
    | inr h' ↦ elim h' [ inl e ↦ rw e a' | inr none ↦ elim none [ ] ]
  ];
  promising = λ x h. elim h [
    | inl e ↦ rw e f.0
    | inr h' ↦ elim h' [ inl e ↦ rw e f'.0 | inr none ↦ elim none [ ] ]
  ];
  current = λ x h. elim h [
    | inl e ↦ rw e f.2
    | inr h' ↦ elim h' [ inl e ↦ rw e f'.2 | inr none ↦ elim none [ ] ]
  ];
}

abbrev pub do_prepare : System → ℕ → ℕ → System
do_prepare s p ballot = record s {
  proposers = put s.proposers p (prepare (s.proposers p) ballot three slots).1;
  network =
      take (prepare (s.proposers p) ballot three slots).0
        (prepare (s.proposers p) ballot three slots).2
      ++ s.network;
}

-- acceptor `i` receives the message at place `k` of the network
abbrev pub do_promise : System → ℕ → ℕ → System
do_promise s i k =
    let r = receive_prepare (s.acceptors i) (get_or s.network k blank) blank in
    record s {
      acceptors = put s.acceptors i r.1;
      network = if r.0 then r.2 ∷ s.network else s.network;
    }

abbrev pub do_accept : System → ℕ → ℕ → ℕ → Value → System
do_accept s p k l own =
    let r =
      accept (s.proposers p) (get_or s.network k blank ∷ get_or s.network l blank ∷ []) own three
        slots in
    record s { proposers = put s.proposers p r.1; network = take r.0 r.2 ++ s.network }

abbrev pub do_vote : System → ℕ → ℕ → System
do_vote s i k =
    let r = receive_accept (s.acceptors i) (get_or s.network k blank) (0 ∷ []) (blank ∷ []) in
    record s { acceptors = put s.acceptors i r.1; network = take r.0 r.2 ++ s.network }

-- What the theorems about a run want: that each step is one of the system.
module _ {deliver : Policy} {s : System} where
  pub prepare-Reach :
      (p ballot : ℕ)
      → p < max_nodes
      → ballot % max_nodes ≡ p
      → Reach 3 deliver s
      → Reach 3 deliver (do_prepare s p ballot)
  prepare-Reach p ballot small convention r = next r (propose p ballot three slots small convention)

  pub promise-Reach :
      (i k : ℕ)
      → k < length s.network
      → (get_or s.network k blank).to ≡ i
      → Reach 3 deliver s
      → Reach 3 deliver (do_promise s i k)
  promise-Reach i k h to r = next r (promise i _ blank (get_or-In s.network k h) to)

  pub accept-Reach :
      (p k l : ℕ) (own : Value)
      → p < max_nodes
      → (s.proposers p).phase ≡ 1
      → Collected 3 s p (get_or s.network k blank ∷ get_or s.network l blank ∷ [])
      → Reach 3 deliver s
      → Reach 3 deliver (do_accept s p k l own)
  accept-Reach p k l own small busy got r = next r (select p _ own three slots small busy got)

  pub vote-Reach :
      (i k : ℕ)
      → k < length s.network
      → (get_or s.network k blank).to ≡ i
      → deliver (s.acceptors i) (get_or s.network k blank)
      → Reach 3 deliver s
      → Reach 3 deliver (do_vote s i k)
  vote-Reach i k h to order r = next r (
      vote i _ (0 ∷ []) (blank ∷ []) (get_or-In s.network k h) to order (omega arith) (omega arith))
