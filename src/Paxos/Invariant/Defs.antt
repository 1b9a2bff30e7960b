-- ===== src/Paxos/Invariant/Defs.antt =====
-- What holds of the messages, the acceptors and the proposers of a reachable system.
use mini_distributed_computi.Prelude.{
  ℕ, ◌%◌, ◌<◌, ◌≤◌, ◌≡◌, ◌⊎◌, inl, inr, refl, true, fun_ext, ℕ_discrete, arith,
}
use mini_distributed_computi.Paxos.Types.{
  Value, max_nodes, promise_type, accept_type, Message, Proposer,
}
use mini_distributed_computi.Paxos.Roles.{proposer_init}
use mini_distributed_computi.Paxos.Voting.{Grows, IsSound}
use mini_distributed_computi.Paxos.System.{System, start, In, put, VotedIn, view}

-- A promise of ballot `m.ballot`: it reports the latest vote of its sender below that ballot, or a
-- later one, and the sender votes below the ballot no more.
pub record PromiseHolds (s : System) (m : Message) : Type 0 where
  pub below : m.ballot ≤ (s.acceptors m.from).promise_ballot
  pub reported : 0 < m.accepted_ballot → VotedIn s.network m.from m.accepted_ballot m.accepted_value
  pub silent :
      (c : ℕ) (w : Value) → m.accepted_ballot < c → c < m.ballot → ¬ VotedIn s.network m.from c w

-- An acceptor remembers its latest vote.
pub record AcceptorHolds (s : System) (i : ℕ) : Type 0 where
  pub held :
      (s.acceptors i).has_accepted ≡ true
      → VotedIn s.network i (s.acceptors i).accepted_ballot (s.acceptors i).accepted_value
  pub latest :
      (c : ℕ) (w : Value)
      → VotedIn s.network i c w
      → ((s.acceptors i).has_accepted ≡ true) × (c ≤ (s.acceptors i).accepted_ballot)

-- A proposal was made in a ballot of its sender, which has left that ballot's first phase.
pub record AcceptHolds (s : System) (m : Message) : Type 0 where
  pub positive : 0 < m.ballot
  pub of_sender : m.ballot % max_nodes ≡ m.from
  pub used : m.ballot ≤ (s.proposers m.from).current_ballot
  pub closed : (s.proposers m.from).phase ≡ 1 → m.ballot < (s.proposers m.from).current_ballot

pub record Inv (n : ℕ) (s : System) : Type 0 where
  pub acceptor_id : (i : ℕ) → (s.acceptors i).node_id ≡ i
  pub proposer_id : (p : ℕ) → (s.proposers p).node_id ≡ p
  pub sound : IsSound n (view s)
  pub promises : (m : Message) → In m s.network → m.type ≡ promise_type → PromiseHolds s m
  pub acceptors : (i : ℕ) → AcceptorHolds s i
  pub accepts : (m : Message) → In m s.network → m.type ≡ accept_type → AcceptHolds s m
  pub working :
      (p : ℕ)
      → (s.proposers p).phase ≡ 1
      → (0 < (s.proposers p).current_ballot) × ((s.proposers p).current_ballot % max_nodes ≡ p)

pub put_self {ℓ} : {A : Type ℓ} (f : ℕ → A) (i : ℕ) → put f i (f i) ≡ f
put_self f i =
    fun_ext (λ j. elim (ℕ_discrete i j) [ yes e ↦ rw (← e) (ground arith) | no ne ↦ ground arith ])

pub Inv-start : (n : ℕ) → Inv n start
unfolding proposer_init
Inv-start n = record {
  acceptor_id = λ i. refl;
  proposer_id = λ p. refl;
  sound = record {
    one_value = λ b v w p p'. elim (p.1) [ ];
    voted_proposed = λ a b v p. elim (p.1) [ ];
    safe = λ b c v p lt. elim (p.1) [ ];
  };
  promises = λ m h. elim h [ ];
  acceptors = λ i. record { held = λ h. cc; latest = λ c w h. elim (h.1) [ ] };
  accepts = λ m h. elim h [ ];
  working = λ p h. absurd (omega arith);
}

-- What a step keeps of the facts about old messages.
pub PromiseHolds-Grows :
    {s t : System} {m : Message} → Grows (view s) (view t) → PromiseHolds s m → PromiseHolds t m
PromiseHolds-Grows {m} g h = record {
  below = omega (arith, h.below, g.promised_le m.from);
  reported = λ some_vote. g.voted_kept _ _ _ (h.reported some_vote);
  silent = λ c w low high voted. elim (g.new_vote m.from c w voted) [
    | inl old ↦ h.silent c w low high old
    | inr above ↦ omega (arith, h.below)
  ];
}

pub AcceptorHolds-same :
    {s t : System} (i : ℕ)
    → Grows (view s) (view t)
    → ((t.acceptors i).has_accepted ≡ (s.acceptors i).has_accepted)
      × ((t.acceptors i).accepted_ballot ≡ (s.acceptors i).accepted_ballot)
      × ((t.acceptors i).accepted_value ≡ (s.acceptors i).accepted_value)
    → ((c : ℕ) (w : Value) → VotedIn t.network i c w → VotedIn s.network i c w)
    → AcceptorHolds s i
    → AcceptorHolds t i
AcceptorHolds-same i g (has, ballot, value) votes h = record {
  held = λ e. rw (ballot, value) (g.voted_kept i _ _ (h.held (cc)));
  latest =
      λ c w voted. let old = h.latest c w (votes c w voted) in (cc (old.0), omega (arith, old.1));
}

-- What a proposer does between two states of the system.
pub record Advances (p q : Proposer) : Type 0 where
  pub grown : p.current_ballot ≤ q.current_ballot
  pub restarts :
      q.phase ≡ 1
      → (p.phase ≡ 1) × (p.current_ballot ≡ q.current_ballot)
        ⊎ (p.current_ballot < q.current_ballot)

pub Advances-refl : (p : Proposer) → Advances p p
Advances-refl p = record { grown = omega arith; restarts = λ e. inl (e, refl) }

pub AcceptHolds-Advances :
    {s t : System} (m : Message)
    → Advances (s.proposers m.from) (t.proposers m.from)
    → AcceptHolds s m
    → AcceptHolds t m
AcceptHolds-Advances m a h = record {
  positive = h.positive;
  of_sender = h.of_sender;
  used = omega (arith, h.used, a.grown);
  closed = λ e. elim (a.restarts e) [
    | inl (e', same) ↦ omega (arith, h.closed e', same)
    | inr more ↦ omega (arith, h.used)
  ];
}

pub Advances-put :
    (f : ℕ → Proposer) (p : ℕ) (q : Proposer)
    → Advances (f p) q
    → (j : ℕ) → Advances (f j) (put f p q j)
Advances-put f p q a j = elim (ℕ_discrete p j) [
  | yes e ↦ let hit : put f p q j ≡ q = ground arith in rw (hit, ← e) a
  | no ne ↦ let miss : put f p q j ≡ f j = ground arith in rw miss (Advances-refl (f j))
]
