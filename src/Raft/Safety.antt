-- ===== src/Raft/Safety.antt =====
-- Election safety: at most one leader in each term, if candidates count the votes of their term.
use mini_distributed_computi.Prelude.{
  ℕ, ◌+◌, ◌^◌, ◌≤◌, ◌<◌, ◌≡◌, ◌⊎◌, inl, inr, refl, ap, sym, subst, Bool, true, false, ◌∷◌, ltb,
  ◌&&◌, arith, Bool-cases,
}
use mini_distributed_computi.Paxos.Types.{max_nodes}
use mini_distributed_computi.Paxos.Voting.{majorities_meet}
use mini_distributed_computi.Paxos.System.{put}
use mini_distributed_computi.Raft.Types.{Server, RequestVoteArgs, not_voted}
use mini_distributed_computi.Raft.Election.{
  server_init, become_candidate, observe_term, can_vote, log_ok, grants, handle_request_vote,
  become_leader, has_election_majority,
}
use mini_distributed_computi.Raft.Keeps.{
  Keeps, Keeps-refl, Keeps-observe_term, Keeps-append_command, Keeps-handle_append_entries,
  Keeps-handle_append_entries_reply, Keeps-handle_request_vote_reply,
}
use mini_distributed_computi.Raft.Ballots.{
  put_all, Vote, ServerInv, Inv, Inv-Keeps, Inv-refusal, Grants, Inv-vote,
}
use mini_distributed_computi.Raft.System.{
  Cluster, In, of_its_term, Elected, Step, time_out, request, hear, win, command, entries,
  acknowledge, start, Reach, at_start, after, Leads,
}

Grants-become_candidate :
    (s : Server) → s.current_term + 1 < 2 ^ 64 → Grants s (become_candidate s).1 s.node_id
unfolding become_candidate
Grants-become_candidate s h = record {
  same_id = refl;
  term_le = omega arith;
  free = λ e. absurd (omega arith);
  vote = refl;
  led = λ e. absurd (ground arith);
}

-- The two outcomes of `raft_handle_request_vote`.
handle_request_vote-cases :
    (s : Server) (args : RequestVoteArgs)
    → (t : Server) × ((handle_request_vote s args
            ≡ (t, record { term = t.current_term; vote_granted = false }))
          × Keeps s t
        ⊎ (handle_request_vote s args ≡ (t, record { term = t.current_term; vote_granted = true }))
          × Grants s t args.candidate_id)
unfolding handle_request_vote
handle_request_vote-cases s args = elim (Bool-cases (ltb args.term s.current_term)) [
  | inl old ↦ (s, inl (rw old, Keeps-refl s))
  | inr new ↦ elim (Bool-cases (grants seen args)) [
    | inr refused ↦ (seen, inl (rw (new, refused), Keeps-observe_term s args.term))
    | inl good ↦ (
      record seen { voted_for = args.candidate_id; election_elapsed_ms = 0 },
      inr (
        rw (new, good),
        record {
          same_id = k.same_id;
          term_le = k.term_le;
          free = λ e. free seen (log_ok seen.log args) (k.same_vote e) good;
          vote = refl;
          led = k.led;
        },
      ),
    )
  ]
]
  where
    seen : Server
    seen = observe_term s args.term

    free :
        (u : Server) (ok : Bool)
        → u.voted_for ≡ s.voted_for
        → (can_vote u args.candidate_id && ok) ≡ true
        → (s.voted_for ≡ not_voted) ⊎ (s.voted_for ≡ args.candidate_id)
    free u ok e h = ground arith

    k : Keeps s seen
    k = Keeps-observe_term s args.term

record ClusterInv (n : ℕ) (c : Cluster) : Type 0 where
  votes : Inv n c.servers c.ballots
  candidates : (args : RequestVoteArgs) → In args c.requests → args.candidate_id < n

become_leader-Inv :
    {n : ℕ} (c : Cluster) (i : ℕ) (q : ℕ → Bool)
    → Elected n of_its_term c i q
    → Inv n c.servers c.ballots
    → Inv n (put c.servers i (become_leader (c.servers i))) c.ballots
unfolding become_leader
become_leader-Inv {n} c i q won inv = record {
  server =
      put_all (ServerInv n c.ballots) c.servers i (become_leader (c.servers i))
        (record {
          own_id = (inv.server i).own_id;
          held = (inv.server i).held;
          backed = λ _. (
            q,
            won.majority,
            λ j lt p.
                let (b, sent, from, for, granted, term) = won.granted j lt p in
                record {
                  ballot = b;
                  sent = sent;
                  from = from;
                  for = for;
                  in_term = term;
                  granted = granted;
                },
          );
        })
        (λ j _. inv.server j);
  one_vote = inv.one_vote;
  member = inv.member;
}

request-Inv :
    {n : ℕ} (c : Cluster) (i : ℕ) (args : RequestVoteArgs)
    → n ≤ not_voted
    → In args c.requests
    → ClusterInv n c
    → Inv n (put c.servers i (handle_request_vote (c.servers i) args).0) (
        record {
          voter = i;
          to = args.candidate_id;
          reply = (handle_request_vote (c.servers i) args).1;
        }
        ∷ c.ballots)
request-Inv {n} c i args small sent inv =
    let (t, cases) = handle_request_vote-cases (c.servers i) args in
    elim cases [
      | inl (e, k) ↦ rw e (Inv-refusal _ refl (Inv-Keeps i t k inv.votes))
      | inr (e, g) ↦
          rw e (Inv-vote i t args.candidate_id small (inv.candidates args sent) g inv.votes)
    ]

Step-ClusterInv :
    {n : ℕ} {c d : Cluster}
    → n ≤ not_voted
    → Step n of_its_term c d
    → ClusterInv n c
    → ClusterInv n d
Step-ClusterInv {n} {c} small (time_out i last_index last_term lt room) inv = record {
  votes =
      Inv-vote i (become_candidate (c.servers i)).1 i small lt
        (subst (Grants (c.servers i) (become_candidate (c.servers i)).1) (inv.votes.server i).own_id
          (Grants-become_candidate (c.servers i) room))
        inv.votes;
  candidates = λ args sent. elim sent [
    | inl e ↦ subst (λ k. k < n) (sym (ap (λ x. x.candidate_id) e)) lt
    | inr old ↦ inv.candidates args old
  ];
}
Step-ClusterInv {n} {c} small (request i args lt sent) inv = record {
  votes = request-Inv c i args small sent inv;
  candidates = inv.candidates;
}
Step-ClusterInv {n} {c} small (hear i b sent) inv = record {
  votes = Inv-Keeps i _ (Keeps-handle_request_vote_reply (c.servers i) b.reply) inv.votes;
  candidates = inv.candidates;
}
Step-ClusterInv {n} {c} small (win i q lt standing won) inv = record {
  votes = become_leader-Inv c i q won inv.votes;
  candidates = inv.candidates;
}
Step-ClusterInv {n} {c} small (command i v) inv = record {
  votes = Inv-Keeps i _ (Keeps-append_command (c.servers i) v) inv.votes;
  candidates = inv.candidates;
}
Step-ClusterInv {n} {c} small (entries i args) inv = record {
  votes = Inv-Keeps i _ (Keeps-handle_append_entries (c.servers i) args) inv.votes;
  candidates = inv.candidates;
}
Step-ClusterInv {n} {c} small (acknowledge i from reply) inv = record {
  votes = Inv-Keeps i _ (Keeps-handle_append_entries_reply (c.servers i) from reply n) inv.votes;
  candidates = inv.candidates;
}

ClusterInv-start : (n : ℕ) (timeout : ℕ → ℕ) → ClusterInv n (start timeout)
unfolding server_init
ClusterInv-start n timeout = record {
  votes = record {
    server = λ i. record {
      own_id = refl;
      held = λ to t v. absurd v.sent;
      backed = λ e. absurd (ground arith);
    };
    one_vote = λ i to to' t v w. absurd v.sent;
    member = λ i to t v. absurd v.sent;
  };
  candidates = λ args sent. absurd sent;
}

Reach-ClusterInv :
    {n : ℕ} {timeout : ℕ → ℕ} {c : Cluster}
    → n ≤ not_voted
    → Reach n of_its_term timeout c
    → ClusterInv n c
Reach-ClusterInv {n} {timeout} small at_start = ClusterInv-start n timeout
Reach-ClusterInv small (after r st) = Step-ClusterInv small st (Reach-ClusterInv small r)

-- In a cluster of at most 32 servers, whatever the servers do and however messages are lost,
-- repeated and delayed: two leaders of the same term are the same server, if candidates count only
-- replies that carry their own term.
pub one_leader-Leads :
    {n : ℕ} {timeout : ℕ → ℕ} {c : Cluster} (i j : ℕ)
    → n ≤ max_nodes
    → Reach n of_its_term timeout c
    → Leads c i
    → Leads c j
    → (c.servers i).current_term ≡ (c.servers j).current_term
    → i ≡ j
unfolding has_election_majority
one_leader-Leads {n} {timeout} {c} i j small r leads leads' same_term =
    let inv = (Reach-ClusterInv small r).votes in
    let (q, big, votes) = (inv.server i).backed leads in
    let (q', big', votes') = (inv.server j).backed leads' in
    let (k, lt, p, p') = majorities_meet n q q' (ground arith) (ground arith) in
    inv.one_vote k i j (c.servers j).current_term
      (subst (λ t. Vote c.ballots k i t) same_term (votes k lt p)) (votes' k lt p')
