-- ===== src/Paxos/Invariant/Propose.antt =====
-- The steps of a proposer keep the invariant.
use mini_distributed_computi.Prelude.{
  ℕ, ◌%◌, ◌<◌, ◌≤◌, ◌≡◌, ◌≢◌, ◌⊎◌, inl, inr, refl, ◌∙◌, subst, leb, Bool-cases, true, List, [], ◌∷◌,
  ◌++◌, length, take, ℕ_discrete, dec_lt, arith,
}
use mini_distributed_computi.Paxos.Types.{
  Value, max_nodes, promise_type, accept_type, accepted_type, Message, Proposer,
}
use mini_distributed_computi.Paxos.Roles.{
  prepare, write_prepares, accept, write_accepts, value_to_propose,
}
use mini_distributed_computi.Paxos.Voting.{Grows, IsSound, IsSound-vote, IsSound-propose, Safe}
use mini_distributed_computi.Paxos.System.{System, In, put, VotedIn, ProposedIn, view, Collected}
use mini_distributed_computi.Paxos.Messages.{
  In-append, VotedIn-append, VotedIn-append_right, ProposedIn-append, ProposedIn-append_right,
  write_prepares-type, IsAccept, write_accepts-IsAccept,
}
use mini_distributed_computi.Paxos.Selection.{Selected, free, adopted, value_to_propose-Selected}
use mini_distributed_computi.Paxos.Invariant.Defs.{
  Inv, AcceptHolds, Advances, PromiseHolds-Grows, AcceptorHolds-same, AcceptHolds-Advances,
  Advances-put, put_self,
}

abbrev after_proposer : System → ℕ → Proposer → List Message → System
after_proposer s p q ms = record s { proposers = put s.proposers p q; network = ms ++ s.network }

-- Messages that proposers send are no promises and no votes.
module _ (s : System) (p : ℕ) (q : Proposer) (ms : List Message)
    (quiet : (m : Message) → In m ms → (m.type ≢ promise_type) × (m.type ≢ accepted_type)) where
  old_votes : (a b : ℕ) (v : Value) → VotedIn (ms ++ s.network) a b v → VotedIn s.network a b v
  old_votes a b v voted = elim (VotedIn-append ms s.network a b v voted) [
    | inl (m, here, t, _, _, _) ↦ absurd ((quiet m here).1 t)
    | inr old ↦ old
  ]

  Grows-proposer : Grows (view s) (view (after_proposer s p q ms))
  Grows-proposer = record {
    promised_le = λ a. omega arith;
    voted_kept = VotedIn-append_right ms s.network;
    proposed_kept = ProposedIn-append_right ms s.network;
    new_vote = λ a b v voted. inl (old_votes a b v voted);
  }

  Inv-proposer :
      {n : ℕ}
      → Inv n s
      → Advances (s.proposers p) q
      → q.node_id ≡ p
      → (q.phase ≡ 1 → (0 < q.current_ballot) × (q.current_ballot % max_nodes ≡ p))
      → IsSound n (view (after_proposer s p q ms))
      → ((m : Message) → In m ms → m.type ≡ accept_type → AcceptHolds (after_proposer s p q ms) m)
      → Inv n (after_proposer s p q ms)
  Inv-proposer inv adv named busy sound new = record {
    acceptor_id = inv.acceptor_id;
    proposer_id = λ j. elim (ℕ_discrete p j) [
      | yes e ↦ ground (arith, inv.proposer_id j)
      | no ne ↦ ground (arith, inv.proposer_id j)
    ];
    sound = sound;
    promises = λ m here t. elim (In-append m ms s.network here) [
      | inl fresh ↦ absurd ((quiet m fresh).0 t)
      | inr old ↦ PromiseHolds-Grows Grows-proposer (inv.promises m old t)
    ];
    acceptors =
        λ i. AcceptorHolds-same i Grows-proposer (refl, refl, refl) (old_votes i) (inv.acceptors i);
    accepts = λ m here t. elim (In-append m ms s.network here) [
      | inl fresh ↦ new m fresh t
      | inr old ↦
          AcceptHolds-Advances m (Advances-put s.proposers p q adv m.from) (inv.accepts m old t)
    ];
    working = λ j. elim (ℕ_discrete p j) [
      | yes e ↦ λ h. ground (arith, busy)
      | no ne ↦ λ h. ground (arith, inv.working j)
    ];
  }

-- Phase 1a.
pub Inv-prepare :
    {n : ℕ} {s : System} (p ballot : ℕ) (ids : List ℕ) (out : List Message)
    → p < max_nodes
    → ballot % max_nodes ≡ p
    → Inv n s
    → Inv n (
        after_proposer s p (prepare (s.proposers p) ballot ids out).1 (
          take
            (prepare (s.proposers p) ballot ids out).0
            (prepare (s.proposers p) ballot ids out).2))
unfolding prepare
Inv-prepare {n} {s} p ballot ids out small convention inv =
    elim (Bool-cases (leb ballot (s.proposers p).current_ballot)) [
      | inl stale ↦ rw (stale, put_self s.proposers p) inv
      | inr newer ↦ rw newer (
          Inv-proposer s p (record (s.proposers p) { current_ballot = ballot; phase = 1 })
            (take (length ids) (write_prepares (s.proposers p).node_id ballot ids out))
            (λ m here. ((quiet m here).0, (quiet m here).1)) inv
            (record { grown = ground arith; restarts = λ _. inr (ground arith) })
            (inv.proposer_id p) (λ _. (ground arith, convention))
            (IsSound-vote n
              (Grows-proposer s p (record (s.proposers p) { current_ballot = ballot; phase = 1 }) _
                (λ m here. ((quiet m here).0, (quiet m here).1)))
              (λ a b v voted. inl (
                old_votes s p (s.proposers p) _ (λ m here. ((quiet m here).0, (quiet m here).1)) a b
                  v voted))
              (λ b v proposed. elim (ProposedIn-append _ s.network b v proposed) [
                | inl (m, here, t, _, _) ↦ absurd ((quiet m here).2 t)
                | inr old ↦ old
              ])
              inv.sound)
            (λ m here t. absurd ((quiet m here).2 t)))
    ]
  where
    quiet :
        (m : Message)
        → In m (take (length ids) (write_prepares (s.proposers p).node_id ballot ids out))
        → (m.type ≢ promise_type) × (m.type ≢ accepted_type) × (m.type ≢ accept_type)
    quiet m here =
        let t = write_prepares-type (s.proposers p).node_id ballot ids out m here in
        (λ e. cc, λ e. cc, λ e. cc)

-- The promises of a majority make the selected value safe.
module _ {n : ℕ} {s : System} (p : ℕ) (promises : List Message) (inv : Inv n s) where
  abbrev ballot_of : ℕ
  ballot_of = (s.proposers p).current_ballot

  frozen :
      (got : Collected n s p promises) (m : Message) (c : ℕ)
      → In m promises
      → c < ballot_of
      → m.accepted_ballot < c ⊎ (c ≡ 0)
      → (c < (s.acceptors m.from).promise_ballot) × ((w : Value) → ¬ VotedIn s.network m.from c w)
  frozen got m c here low why =
      let holds = inv.promises m (got.sent m here) (got.promising m here) in
      let current = got.current m here in
      (
        omega (arith, holds.below),
        λ w voted. elim why [
          | inl silent ↦ holds.silent c w silent (omega arith) voted
          | inr first ↦
              let (a, in_net, t, b, _) = inv.sound.voted_proposed m.from c w voted in
              omega (arith, (inv.accepts a in_net t).positive)
        ],
      )

  Selected-Safe :
      (own v : Value)
      → Collected n s p promises
      → Selected promises own v
      → (c : ℕ) → c < ballot_of
      → Safe n (view s) c v
  Selected-Safe own v got (free none _) c low = (
    got.members,
    got.majority,
    λ a below in_q.
        let (m, here, e) = got.answered a below in_q in
        inr (
          subst
            (λ k. (c < (s.acceptors k).promise_ballot) × ((w : Value) → ¬ VotedIn s.network k c w))
            e
            (frozen got m c here low (elim (ℕ_discrete c 0) [
              | yes z ↦ inr z
              | no pos ↦ inl (omega (arith, none m here))
            ]))),
  )
  Selected-Safe own v got (adopted best here some_vote e highest) c low =
      elim (dec_lt c best.accepted_ballot) [
        | yes lt ↦ inv.sound.safe best.accepted_ballot c v best_proposed lt
        | no ge ↦ (got.members, got.majority, λ a below in_q. fate (omega arith) a below in_q)
      ]
    where
      best_voted : VotedIn s.network best.from best.accepted_ballot v
      best_voted =
          rw e
            ((inv.promises best (got.sent best here) (got.promising best here)).reported some_vote)

      best_proposed : ProposedIn s.network best.accepted_ballot v
      best_proposed = inv.sound.voted_proposed best.from best.accepted_ballot v best_voted

      fate :
          best.accepted_ballot ≤ c
          → (a : ℕ) → a < n
          → got.members a ≡ true
          → VotedIn s.network a c v
            ⊎ ((c < (s.acceptors a).promise_ballot) × ((w : Value) → ¬ VotedIn s.network a c w))
      fate ge a below in_q =
          let (m, m_here, from_a) = got.answered a below in_q in
          let holds = inv.promises m (got.sent m m_here) (got.promising m m_here) in
          elim (ℕ_discrete m.accepted_ballot c) [
            | no ne ↦ inr (
                subst
                  (λ k.
                    (c < (s.acceptors k).promise_ballot)
                    × ((w : Value) → ¬ VotedIn s.network k c w))
                  from_a (frozen got m c m_here low (inl (omega (arith, highest m m_here)))))
            | yes same ↦
                let voted = holds.reported (omega arith) in
                let c_best : best.accepted_ballot ≡ m.accepted_ballot =
                  omega (arith, highest m m_here) in
                let value =
                  inv.sound.one_value m.accepted_ballot m.accepted_value v
                    (inv.sound.voted_proposed m.from m.accepted_ballot m.accepted_value voted)
                    (rw c_best at best_proposed) in
                inl (rw (← from_a, ← same, ← value) voted)
          ]

module _ {n : ℕ} {s : System} (p : ℕ) (inv : Inv n s) (busy : (s.proposers p).phase ≡ 1) where
  -- no proposal was made in the current ballot of a proposer in phase 1
  unused : (v : Value) → ¬ ProposedIn s.network (ballot_of p [] inv) v
  unused v (m, here, t, b, _) =
      let holds = inv.accepts m here t in
      let mine : m.from ≡ p = cc (holds.of_sender, (inv.working p busy).1) in
      omega (
        arith,
        subst (λ k. (s.proposers k).phase ≡ 1 → m.ballot < (s.proposers k).current_ballot) mine
            holds.closed busy,
      )

-- Phase 2a.
pub Inv-accept :
    {n : ℕ} {s : System} (p : ℕ) (promises : List Message) (own : Value) (ids : List ℕ)
    (out : List Message)
    → (s.proposers p).phase ≡ 1
    → Collected n s p promises
    → Inv n s
    → Inv n (
        after_proposer s p (accept (s.proposers p) promises own ids out).1 (
          take
            (accept (s.proposers p) promises own ids out).0
            (accept (s.proposers p) promises own ids out).2))
unfolding accept
Inv-accept {n} {s} p [] own ids out busy got inv = rw (put_self s.proposers p) inv
Inv-accept {n} {s} p (x ∷ promises) own ids out busy got inv =
    Inv-proposer s p q _ quiet inv
      (record { grown = omega arith; restarts = λ h. absurd (omega arith) }) (inv.proposer_id p)
      (λ h. absurd (omega arith))
      (IsSound-propose n (s.proposers p).current_ballot v (Grows-proposer s p q _ quiet)
        (old_votes s p q _ quiet)
        (λ b w proposed. elim (ProposedIn-append _ s.network b w proposed) [
          | inl (m, here, t, is_b, is_w) ↦
              let a = filled m here in inr (cc (a.ballot), cc (a.value))
          | inr old ↦ inl old
        ])
        (unused p inv busy)
        (Selected-Safe p (x ∷ promises) inv own v got
          (value_to_propose-Selected (x ∷ promises) own))
        inv.sound)
      fresh
  where
    v : Value
    v = value_to_propose (x ∷ promises) own

    q : Proposer
    q = record (s.proposers p) { proposed_value = v; phase = 2 }

    filled :
        (m : Message)
        → In m (
            take
              (length ids)
              (write_accepts (s.proposers p).node_id (s.proposers p).current_ballot v ids out))
        → IsAccept (s.proposers p).node_id (s.proposers p).current_ballot v m
    filled m here = write_accepts-IsAccept _ _ v ids out m here

    quiet :
        (m : Message)
        → In m (
            take
              (length ids)
              (write_accepts (s.proposers p).node_id (s.proposers p).current_ballot v ids out))
        → (m.type ≢ promise_type) × (m.type ≢ accepted_type)
    quiet m here = let a = filled m here in (λ e. cc (a.type), λ e. cc (a.type))

    fresh :
        (m : Message)
        → In m (
            take
              (length ids)
              (write_accepts (s.proposers p).node_id (s.proposers p).current_ballot v ids out))
        → m.type ≡ accept_type
        → AcceptHolds
            (after_proposer s p q (
              take
                (length ids)
                (write_accepts (s.proposers p).node_id (s.proposers p).current_ballot v ids out)))
            m
    fresh m here t =
        let a = filled m here in
        let mine : m.from ≡ p = a.sender ∙ inv.proposer_id p in
        let at : put s.proposers p q m.from ≡ q = rw mine (ground arith) in
        record {
          positive = omega (arith, a.ballot, (inv.working p busy).0);
          of_sender = rw (a.ballot, mine) (inv.working p busy).1;
          used = rw at (omega (arith, a.ballot));
          closed = rw at (λ h. absurd (omega arith));
        }
