-- ===== src/Paxos/Invariant/Promise.antt =====
-- A promise keeps the invariant.
use mini_distributed_computi.Prelude.{
  ℕ, ◌<◌, ◌≡◌, ◌⊎◌, inl, inr, subst, leb, Bool-cases, true, false, ◌∷◌, if◌then◌else◌, ℕ_discrete,
  arith,
}
use mini_distributed_computi.Paxos.Types.{Value, no_value, Message, Acceptor}
use mini_distributed_computi.Paxos.Roles.{receive_prepare, promise_of, is_prepare}
use mini_distributed_computi.Paxos.Voting.{Grows, IsSound-vote}
use mini_distributed_computi.Paxos.System.{System, put, VotedIn, ProposedIn, view}
use mini_distributed_computi.Paxos.Invariant.Defs.{
  Inv, PromiseHolds, PromiseHolds-Grows, AcceptorHolds-same, AcceptHolds-Advances, Advances-refl,
  put_self,
}

-- The two outcomes of `paxos_receive_prepare`: it ignores the message, or it raises the promise to
-- the message's ballot and answers.
pub receive_prepare-cases :
    (a : Acceptor) (m out : Message)
    → (receive_prepare a m out ≡ (false, a, out))
      ⊎ (a.promise_ballot < m.ballot)
        × (receive_prepare a m out
            ≡ (true, record a { promise_ballot = m.ballot }, promise_of a m out))
unfolding receive_prepare
receive_prepare-cases a m out = elim (Bool-cases (is_prepare m.type)) [
  | inr other ↦ inl (rw other)
  | inl right ↦ elim (Bool-cases (leb m.ballot a.promise_ballot)) [
    | inl low ↦ inl (rw (right, low))
    | inr high ↦ inr (ground arith, rw (right, high))
  ]
]

abbrev after_promise : System → ℕ → Message → Message → System
after_promise s i m out = record s {
  acceptors = put s.acceptors i (record (s.acceptors i) { promise_ballot = m.ballot });
  network = promise_of (s.acceptors i) m out ∷ s.network;
}

module _ {n : ℕ} {s : System} (i : ℕ) (m out : Message) (inv : Inv n s)
    (higher : (s.acceptors i).promise_ballot < m.ballot) where
  old_votes :
      (a b : ℕ) (v : Value)
      → VotedIn (after_promise s i m out).network a b v
      → VotedIn s.network a b v
  old_votes a b v (x, inl e, ty, f, g, h) = absurd (cc (e, ty))
  old_votes a b v (x, inr old, ty, f, g, h) = (x, old, ty, f, g, h)

  old_proposals :
      (b : ℕ) (v : Value)
      → ProposedIn (after_promise s i m out).network b v
      → ProposedIn s.network b v
  old_proposals b v (x, inl e, ty, g, h) = absurd (cc (e, ty))
  old_proposals b v (x, inr old, ty, g, h) = (x, old, ty, g, h)

  Grows-promise : Grows (view s) (view (after_promise s i m out))
  Grows-promise = record {
    promised_le =
        λ a. elim (ℕ_discrete i a) [ yes e ↦ rw (← e) (ground arith) | no ne ↦ ground arith ];
    voted_kept = λ a b v (x, old, r0, r1, r2, r3). (x, inr old, r0, r1, r2, r3);
    proposed_kept = λ b v (x, old, r0, r1, r2). (x, inr old, r0, r1, r2);
    new_vote = λ a b v voted. inl (old_votes a b v voted);
  }

  -- the acceptor's last vote is what it reports
  PromiseHolds-new : PromiseHolds (after_promise s i m out) (promise_of (s.acceptors i) m out)
  PromiseHolds-new =
      let a = s.acceptors i in
      let own = inv.acceptors i in
      let id = inv.acceptor_id i in
      record {
        below = rw id (ground arith);
        reported = λ some_vote. elim (Bool-cases a.has_accepted) [
          | inr none ↦ absurd (ground arith)
          | inl has ↦
              let voted : VotedIn s.network a.node_id
                  (if a.has_accepted then a.accepted_ballot else 0)
                  (if a.has_accepted then a.accepted_value else no_value) =
                rw (id, has) (own.held has) in
              Grows-promise.voted_kept _ _ _ voted
        ];
        silent = λ c w low high voted.
            let (has, le) =
              own.latest c w
                (subst (λ k. VotedIn s.network k c w) id (old_votes a.node_id c w voted)) in
            ground arith;
      }

  Inv-promise_of : Inv n (after_promise s i m out)
  Inv-promise_of = record {
    acceptor_id = λ j. elim (ℕ_discrete i j) [
      | yes e ↦ ground (arith, inv.acceptor_id j)
      | no ne ↦ ground (arith, inv.acceptor_id j)
    ];
    proposer_id = inv.proposer_id;
    sound =
        IsSound-vote n Grows-promise (λ a b v voted. inl (old_votes a b v voted)) old_proposals
          inv.sound;
    promises = λ x here ty. elim here [
      | inl e ↦ rw e PromiseHolds-new
      | inr old ↦ PromiseHolds-Grows Grows-promise (inv.promises x old ty)
    ];
    acceptors = λ j.
        AcceptorHolds-same j Grows-promise (ground arith, ground arith, ground arith) (old_votes j)
          (inv.acceptors j);
    accepts = λ x here ty. elim here [
      | inl e ↦ absurd (cc (e, ty))
      | inr old ↦ AcceptHolds-Advances x (Advances-refl _) (inv.accepts x old ty)
    ];
    working = inv.working;
  }

-- Phase 1b.
pub Inv-promise :
    {n : ℕ} {s : System} (i : ℕ) (m out : Message)
    → Inv n s
    → Inv n (record s {
      acceptors = put s.acceptors i (receive_prepare (s.acceptors i) m out).1;
      network =
          if (receive_prepare (s.acceptors i) m out).0
          then (receive_prepare (s.acceptors i) m out).2 ∷ s.network
          else s.network;
    })
Inv-promise {n} {s} i m out inv = elim (receive_prepare-cases (s.acceptors i) m out) [
  | inl ignored ↦ rw (ignored, put_self s.acceptors i) inv
  | inr (higher, answered) ↦ rw answered (Inv-promise_of i m out inv higher)
]
