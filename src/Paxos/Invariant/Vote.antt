-- ===== src/Paxos/Invariant/Vote.antt =====
-- A vote keeps the invariant, if it is not in a ballot below the last one.
use mini_distributed_computi.Prelude.{
  ℕ, ◌<◌, ◌≤◌, ◌≡◌, ◌⊎◌, inl, inr, refl, sym, subst, Bool-cases, true, List, ◌++◌, ℕ_discrete,
  arith, ltb, length, take,
}
use mini_distributed_computi.Paxos.Types.{Value, accept_type, Message, Acceptor}
use mini_distributed_computi.Paxos.Roles.{receive_accept, write_accepteds, is_accept}
use mini_distributed_computi.Paxos.Voting.{Grows, IsSound-vote}
use mini_distributed_computi.Paxos.System.{System, In, put, VotedIn, ProposedIn, view}
use mini_distributed_computi.Paxos.Messages.{
  In-append, VotedIn-append, VotedIn-append_left, VotedIn-append_right, ProposedIn-append,
  ProposedIn-append_right, IsAccepted, write_accepteds-IsAccepted, write_accepteds-VotedIn,
}
use mini_distributed_computi.Paxos.Invariant.Defs.{
  Inv, AcceptorHolds, PromiseHolds-Grows, AcceptorHolds-same, AcceptHolds-Advances, Advances-refl,
  put_self,
}

abbrev voter : Acceptor → Message → Acceptor
voter a m = record a { accepted_ballot = m.ballot; accepted_value = m.value; has_accepted = true }

-- The two outcomes of `paxos_receive_accept`: it ignores the message, or it accepts the proposal
-- and tells the learners.
pub receive_accept-cases :
    (a : Acceptor) (m : Message) (learners : List ℕ) (out : List Message)
    → (receive_accept a m learners out ≡ (0, a, out))
      ⊎ (m.type ≡ accept_type)
        × (a.promise_ballot ≤ m.ballot)
        × (receive_accept a m learners out ≡ (
          length learners,
          record a { accepted_ballot = m.ballot; accepted_value = m.value; has_accepted = true },
          write_accepteds a.node_id m.ballot m.value learners out,
        ))
unfolding receive_accept
receive_accept-cases a m learners out = elim (Bool-cases (is_accept m.type)) [
  | inr other ↦ inl (rw other)
  | inl right ↦ elim (Bool-cases (ltb m.ballot a.promise_ballot)) [
    | inl low ↦ inl (rw (right, low))
    | inr high ↦ inr (ground arith, ground arith, rw (right, high))
  ]
]

abbrev after_vote : System → ℕ → Message → List Message → System
after_vote s i m ms = record s {
  acceptors = put s.acceptors i (voter (s.acceptors i) m);
  network = ms ++ s.network;
}

-- `ms` are the ACCEPTED messages that tell of the vote.
module _ {n : ℕ} {s : System} (i : ℕ) (m : Message) (ms : List Message) (inv : Inv n s)
    (here : In m s.network) (proposal : m.type ≡ accept_type)
    (allowed : (s.acceptors i).promise_ballot ≤ m.ballot)
    (latest : (s.acceptors i).accepted_ballot ≤ m.ballot)
    (filled : (x : Message) → In x ms → IsAccepted i m.ballot m.value x)
    (told : VotedIn ms i m.ballot m.value) where
  votes :
      (a b : ℕ) (v : Value)
      → VotedIn (ms ++ s.network) a b v
      → VotedIn s.network a b v ⊎ (a ≡ i) × (b ≡ m.ballot) × (v ≡ m.value)
  votes a b v voted = elim (VotedIn-append ms s.network a b v voted) [
    | inr old ↦ inl old
    | inl (x, new, _, is_a, is_b, is_v) ↦
        let f = filled x new in inr (cc (f.sender), cc (f.ballot), cc (f.value))
  ]

  old_proposals : (b : ℕ) (v : Value) → ProposedIn (ms ++ s.network) b v → ProposedIn s.network b v
  old_proposals b v proposed = elim (ProposedIn-append ms s.network b v proposed) [
    | inr old ↦ old
    | inl (x, new, ty, _, _) ↦ let f = filled x new in absurd (cc (f.type, ty))
  ]

  Grows-vote : Grows (view s) (view (after_vote s i m ms))
  Grows-vote = record {
    promised_le =
        λ a. elim (ℕ_discrete i a) [ yes e ↦ rw (← e) (ground arith) | no ne ↦ ground arith ];
    voted_kept = VotedIn-append_right ms s.network;
    proposed_kept = ProposedIn-append_right ms s.network;
    new_vote = λ a b v voted. elim (votes a b v voted) [
      | inl old ↦ inl old
      | inr (e, e', _) ↦ inr (rw (e, e') allowed)
    ];
  }

  AcceptorHolds-voter : AcceptorHolds (after_vote s i m ms) i
  AcceptorHolds-voter =
      let at : put s.acceptors i (voter (s.acceptors i) m) i ≡ voter (s.acceptors i) m =
        ground arith in
      record {
        held = λ h. rw at (VotedIn-append_left ms s.network i m.ballot m.value told);
        latest = λ c w voted. rw at (
          refl,
          elim (votes i c w voted) [
            | inl old ↦ omega (arith, ((inv.acceptors i).latest c w old).1)
            | inr (_, e, _) ↦ omega arith
          ],
        );
      }

  Inv-voter : Inv n (after_vote s i m ms)
  Inv-voter = record {
    acceptor_id = λ j. elim (ℕ_discrete i j) [
      | yes e ↦ ground (arith, inv.acceptor_id j)
      | no ne ↦ ground (arith, inv.acceptor_id j)
    ];
    proposer_id = inv.proposer_id;
    sound =
        IsSound-vote n Grows-vote
          (λ a b v voted. elim (votes a b v voted) [
            | inl old ↦ inl old
            | inr (_, e, e') ↦ inr (rw (e, e') (m, here, proposal, refl, refl))
          ])
          old_proposals inv.sound;
    promises = λ x at ty. elim (In-append x ms s.network at) [
      | inl new ↦ absurd (cc ((filled x new).type))
      | inr old ↦ PromiseHolds-Grows Grows-vote (inv.promises x old ty)
    ];
    acceptors = λ j. elim (ℕ_discrete i j) [
      | yes e ↦ subst (AcceptorHolds (after_vote s i m ms)) e AcceptorHolds-voter
      | no ne ↦
          AcceptorHolds-same j Grows-vote (ground arith, ground arith, ground arith)
            (λ c w voted. elim (votes j c w voted) [
              | inl old ↦ old
              | inr (e, _, _) ↦ absurd (ne (sym e))
            ])
            (inv.acceptors j)
    ];
    accepts = λ x at ty. elim (In-append x ms s.network at) [
      | inl new ↦ absurd (cc ((filled x new).type))
      | inr old ↦ AcceptHolds-Advances x (Advances-refl _) (inv.accepts x old ty)
    ];
    working = inv.working;
  }

-- Phase 2b.
pub Inv-vote :
    {n : ℕ} {s : System} (i : ℕ) (m : Message) (learners : List ℕ) (out : List Message)
    → In m s.network
    → (s.acceptors i).accepted_ballot ≤ m.ballot
    → 0 < length learners
    → length learners ≤ length out
    → Inv n s
    → Inv n (record s {
      acceptors = put s.acceptors i (receive_accept (s.acceptors i) m learners out).1;
      network =
          take
            (receive_accept (s.acceptors i) m learners out).0
            (receive_accept (s.acceptors i) m learners out).2
          ++ s.network;
    })
Inv-vote {n} {s} i m learners out here latest some_learner room inv =
    elim (receive_accept-cases (s.acceptors i) m learners out) [
      | inl ignored ↦ rw (ignored, put_self s.acceptors i) inv
      | inr (ty, allowed, done) ↦ rw done (
          Inv-voter i m
            (take (length learners)
              (write_accepteds (s.acceptors i).node_id m.ballot m.value learners out))
            inv here ty allowed latest
            (λ x new.
              subst (λ k. IsAccepted k m.ballot m.value x) (inv.acceptor_id i)
                (write_accepteds-IsAccepted _ _ _ learners out x new))
            (subst
              (λ k.
                VotedIn
                  (take (length learners)
                    (write_accepteds (s.acceptors i).node_id m.ballot m.value learners out))
                  k m.ballot m.value)
              (inv.acceptor_id i) (write_accepteds-VotedIn _ _ _ learners out some_learner room)))
    ]
