-- ===== src/Raft/Ballots.antt =====
-- The invariant of an election: servers stand by the votes that they cast, cast one in each term,
-- and lead with the votes of a majority.
use mini_distributed_computi.Prelude.{
  ℕ, ◌≤◌, ◌<◌, ◌≡◌, ◌⊎◌, ◌≢◌, inl, inr, ap, sym, ◌∙◌, subst, Bool, true, false, List, ◌∷◌, arith,
  Bool-cases, ◌==◌, ==_iff,
}
use mini_distributed_computi.Paxos.Voting.{count}
use mini_distributed_computi.Paxos.System.{put}
use mini_distributed_computi.Raft.Types.{leader, Server, not_voted}
use mini_distributed_computi.Raft.Election.{has_election_majority}
use mini_distributed_computi.Raft.Keeps.{Keeps}
use mini_distributed_computi.Raft.System.{Ballot, In}

pub put_all :
    {A : Type 0} (P : ℕ → A → Type 0) (f : ℕ → A) (i : ℕ) (a : A)
    → P i a
    → ((j : ℕ) → i ≢ j → P j (f j))
    → (j : ℕ) → P j (put f i a j)
put_all P f i a new old j = elim (Bool-cases (i == j)) [
  | inl e ↦ rw e (subst (λ k. P k a) ((==_iff i j).0 e) new)
  | inr ne ↦ rw ne (old j (ground arith))
]

-- a granted vote
pub record Vote (bs : List Ballot) (voter to term : ℕ) : Type 0 where
  pub ballot : Ballot
  pub sent : In ballot bs
  pub from : ballot.voter ≡ voter
  pub for : ballot.to ≡ to
  pub in_term : ballot.reply.term ≡ term
  pub granted : ballot.reply.vote_granted ≡ true

-- server `i` has the votes of a majority in a term
abbrev pub Backed : ℕ → List Ballot → ℕ → ℕ → Type 0
Backed n bs i t =
    (q : ℕ → Bool) × (has_election_majority (count n q) n ≡ true)
    × ((j : ℕ) → j < n → q j ≡ true → Vote bs j i t)

pub record ServerInv (n : ℕ) (bs : List Ballot) (i : ℕ) (s : Server) : Type 0 where
  pub own_id : s.node_id ≡ i
  pub held :
      (to t : ℕ) → Vote bs i to t → (t ≤ s.current_term) × (t ≡ s.current_term → s.voted_for ≡ to)
  pub backed : s.state ≡ leader → Backed n bs i s.current_term

pub record Inv (n : ℕ) (f : ℕ → Server) (bs : List Ballot) : Type 0 where
  pub server : (i : ℕ) → ServerInv n bs i (f i)
  pub one_vote : (i to to' t : ℕ) → Vote bs i to t → Vote bs i to' t → to ≡ to'
  pub member : (i to t : ℕ) → Vote bs i to t → to < n

Vote-add : {bs : List Ballot} {i to t : ℕ} (b : Ballot) → Vote bs i to t → Vote (b ∷ bs) i to t
Vote-add b v = record {
  ballot = v.ballot;
  sent = inr v.sent;
  from = v.from;
  for = v.for;
  in_term = v.in_term;
  granted = v.granted;
}

Backed-add :
    {n : ℕ} {bs : List Ballot} {i t : ℕ} (b : Ballot) → Backed n bs i t → Backed n (b ∷ bs) i t
Backed-add b (q, big, votes) = (q, big, λ j lt p. Vote-add b (votes j lt p))

-- a vote among one ballot more
Vote-cases :
    {bs : List Ballot} {i to t : ℕ} (b : Ballot)
    → Vote (b ∷ bs) i to t
    → (b.voter ≡ i) × (b.to ≡ to) × (b.reply.term ≡ t) × (b.reply.vote_granted ≡ true)
      ⊎ Vote bs i to t
Vote-cases b v = elim v.sent [
  | inl e ↦ inl (
    sym (ap (λ x. x.voter) e) ∙ v.from,
    sym (ap (λ x. x.to) e) ∙ v.for,
    sym (ap (λ x. x.reply.term) e) ∙ v.in_term,
    sym (ap (λ x. x.reply.vote_granted) e) ∙ v.granted,
  )
  | inr old ↦ inr (record {
    ballot = v.ballot;
    sent = old;
    from = v.from;
    for = v.for;
    in_term = v.in_term;
    granted = v.granted;
  })
]

ServerInv-Keeps :
    {n : ℕ} {bs : List Ballot} {i : ℕ} {s t : Server}
    → Keeps s t
    → ServerInv n bs i s
    → ServerInv n bs i t
ServerInv-Keeps {n} {bs} {i} {s} {t} k inv = record {
  own_id = k.same_id ∙ inv.own_id;
  held = λ to u v.
      let (low, same) = inv.held to u v in
      (
        omega (arith, k.term_le),
        λ e. k.same_vote (omega (arith, k.term_le)) ∙ same (omega (arith, k.term_le)),
      );
  backed = λ leads.
      let (before, term) = k.led leads in
      subst (λ u. Backed n bs i u) (sym term) (inv.backed before);
}

-- An operation that keeps the election's part of a server keeps the invariant.
pub Inv-Keeps :
    {n : ℕ} {f : ℕ → Server} {bs : List Ballot} (i : ℕ) (s : Server)
    → Keeps (f i) s
    → Inv n f bs
    → Inv n (put f i s) bs
Inv-Keeps {n} {f} {bs} i s k inv = record {
  server = put_all (ServerInv n bs) f i s (ServerInv-Keeps k (inv.server i)) (λ j _. inv.server j);
  one_vote = inv.one_vote;
  member = inv.member;
}

-- A ballot that server `i` does not cast.
ServerInv-add :
    {n : ℕ} {bs : List Ballot} {i : ℕ} {s : Server} (b : Ballot)
    → (b.reply.vote_granted ≡ true → b.voter ≢ i)
    → ServerInv n bs i s
    → ServerInv n (b ∷ bs) i s
ServerInv-add b other inv = record {
  own_id = inv.own_id;
  held = λ to t v. elim (Vote-cases b v) [
    | inl (mine, _, _, yes_vote) ↦ absurd (other yes_vote mine)
    | inr old ↦ inv.held to t old
  ];
  backed = λ leads. Backed-add b (inv.backed leads);
}

-- A refusal keeps the invariant.
pub Inv-refusal :
    {n : ℕ} {f : ℕ → Server} {bs : List Ballot} (b : Ballot)
    → b.reply.vote_granted ≡ false
    → Inv n f bs
    → Inv n f (b ∷ bs)
Inv-refusal {n} {f} {bs} b no_vote inv = record {
  server = λ i. ServerInv-add b (λ e. absurd (cc (e, no_vote))) (inv.server i);
  one_vote = λ i to to' t v w. inv.one_vote i to to' t (old v) (old w);
  member = λ i to t v. inv.member i to t (old v);
}
  where
    old : {i to t : ℕ} → Vote (b ∷ bs) i to t → Vote bs i to t
    old v = elim (Vote-cases b v) [
      | inl (_, _, _, yes_vote) ↦ absurd (cc (yes_vote, no_vote))
      | inr w ↦ w
    ]

-- Server `s` votes for `to` and is then `t`.
pub record Grants (s t : Server) (to : ℕ) : Type 0 where
  pub same_id : t.node_id ≡ s.node_id
  pub term_le : s.current_term ≤ t.current_term
  pub free : t.current_term ≡ s.current_term → (s.voted_for ≡ not_voted) ⊎ (s.voted_for ≡ to)
  pub vote : t.voted_for ≡ to
  pub led : t.state ≡ leader → (s.state ≡ leader) × (t.current_term ≡ s.current_term)

-- A vote keeps the invariant.
module _ {n : ℕ} {f : ℕ → Server} {bs : List Ballot} (i : ℕ) (s : Server) (to : ℕ)
    (small : n ≤ not_voted) (candidate_small : to < n) (g : Grants (f i) s to)
    (inv : Inv n f bs) where
  abbrev new_vote : Ballot
  new_vote = record {
    voter = i;
    to = to;
    reply = record { term = s.current_term; vote_granted = true };
  }

  -- an earlier vote of the server in the same term went to the same candidate
  same_candidate : (to' : ℕ) → Vote bs i to' s.current_term → to ≡ to'
  same_candidate to' v =
      let (low, same) = (inv.server i).held to' s.current_term v in
      let term : s.current_term ≡ (f i).current_term = omega (arith, g.term_le) in
      elim (g.free term) [
        | inr again ↦ sym again ∙ same term
        | inl none_yet ↦ absurd (omega (arith, inv.member i to' s.current_term v, same term))
      ]

  voter_inv : ServerInv n (new_vote ∷ bs) i s
  voter_inv = record {
    own_id = g.same_id ∙ (inv.server i).own_id;
    held = λ to' t v. elim (Vote-cases new_vote v) [
      | inl (_, it, term, _) ↦ (omega arith, λ _. g.vote ∙ it)
      | inr old ↦ (
        omega (arith, g.term_le, ((inv.server i).held to' t old).0),
        λ e. g.vote ∙ same_candidate to' (subst (λ u. Vote bs i to' u) e old),
      )
    ];
    backed = λ leads.
        let (before, term) = g.led leads in
        subst (λ u. Backed n (new_vote ∷ bs) i u) (sym term)
          (Backed-add new_vote ((inv.server i).backed before));
  }

  pub Inv-vote : Inv n (put f i s) (new_vote ∷ bs)
  Inv-vote = record {
    server =
        put_all (ServerInv n (new_vote ∷ bs)) f i s voter_inv
          (λ j ne. ServerInv-add new_vote (λ _. ne) (inv.server j));
    one_vote = λ j a b t v w. one j a b t (Vote-cases new_vote v) (Vote-cases new_vote w);
    member = λ j a t v. elim (Vote-cases new_vote v) [
      | inl (_, it, _, _) ↦ omega arith
      | inr old ↦ inv.member j a t old
    ];
  }
    where
      New : ℕ → ℕ → ℕ → Type 0
      New j a t = (i ≡ j) × (to ≡ a) × (s.current_term ≡ t) × (true ≡ true)

      met : (j a b t : ℕ) → New j a t → Vote bs j b t → a ≡ b
      met j a b t (me, it, term, _) old =
          sym it
          ∙ same_candidate b
              (subst (λ u. Vote bs i b u) (sym term) (subst (λ k. Vote bs k b t) (sym me) old))

      one : (j a b t : ℕ) → New j a t ⊎ Vote bs j a t → New j b t ⊎ Vote bs j b t → a ≡ b
      one j a b t (inl (_, e, _, _)) (inl (_, e', _, _)) = sym e ∙ e'
      one j a b t (inl x) (inr old) = met j a b t x old
      one j a b t (inr old) (inl x) = sym (met j b a t x old)
      one j a b t (inr old) (inr old') = inv.one_vote j a b t old old'
