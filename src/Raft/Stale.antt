-- ===== src/Raft/Stale.antt =====
-- Two leaders of one term, in a cluster of three whose candidates count the replies for which
-- `raft_handle_request_vote_reply` returns true.
use mini_distributed_computi.Prelude.{
  ℕ, zero, suc, ◌<◌, ◌≡◌, refl, inl, inr, Bool, true, ◌∷◌, arith, ◌==◌, ◌||◌,
}
use mini_distributed_computi.Paxos.Voting.{count}
use mini_distributed_computi.Raft.Types.{RequestVoteArgs}
use mini_distributed_computi.Raft.Election.{
  server_init, become_candidate, log_ok, handle_request_vote, handle_request_vote_reply,
  become_leader, has_election_majority,
}
use mini_distributed_computi.Raft.System.{
  Ballot, Cluster, In, as_told, Elected, time_out, request, win, start, Reach, at_start, after,
  update, Leads,
}
use mini_distributed_computi.Paxos.System.{put}

abbrev request_of : ℕ → ℕ → RequestVoteArgs
request_of i t = record { term = t; candidate_id = i; last_log_index = 0; last_log_term = 0 }

abbrev ballot_of : ℕ → ℕ → ℕ → Ballot
ballot_of voter i t = record {
  voter = voter;
  to = i;
  reply = record { term = t; vote_granted = true };
}

abbrev both : ℕ → ℕ → ℕ → Bool
both i j k = k == i || k == j

-- The servers' part of the steps below.
abbrev timed_out : Cluster → ℕ → Cluster
timed_out c i = record c {
  servers = put c.servers i (become_candidate (c.servers i)).1;
  requests =
      record {
        term = (become_candidate (c.servers i)).1.current_term;
        candidate_id = i;
        last_log_index = 0;
        last_log_term = 0;
      }
      ∷ c.requests;
  ballots =
      record {
        voter = i;
        to = i;
        reply = record {
          term = (become_candidate (c.servers i)).1.current_term;
          vote_granted = true;
        };
      }
      ∷ c.ballots;
}

abbrev asked : Cluster → ℕ → RequestVoteArgs → Cluster
asked c i args = record c {
  servers = put c.servers i (handle_request_vote (c.servers i) args).0;
  ballots =
      record {
        voter = i;
        to = args.candidate_id;
        reply = (handle_request_vote (c.servers i) args).1;
      }
      ∷ c.ballots;
}

module _ (timeout : ℕ → ℕ) where
  -- Server 0 asks server 2 in term 1, times out again, and wins term 2 with the vote of term 1.
  abbrev first_asked : Cluster
  first_asked = asked (timed_out (start timeout) 0) 2 (request_of 0 1)

  abbrev first_waits : Cluster
  first_waits = timed_out first_asked 0

  abbrev first_leads : Cluster
  first_leads = update first_waits 0 (become_leader (first_waits.servers 0))

  -- Server 1 times out twice, asks server 2 in term 2, and wins.
  abbrev second_asked : Cluster
  second_asked = asked (timed_out (timed_out first_leads 1) 1) 2 (request_of 1 2)

  abbrev second_leads : Cluster
  second_leads = update second_asked 1 (become_leader (second_asked.servers 1))

  first_Reach : Reach 3 as_told timeout first_waits
  unfolding server_init become_candidate handle_request_vote
  first_Reach =
      after
        (after (after at_start (time_out 0 0 0 (omega arith) (omega arith)))
          (request 2 (request_of 0 1) (omega arith) (inl refl)))
        (time_out 0 0 0 (omega arith) (omega arith))

  first_Elected : Elected 3 as_told first_waits 0 (both 0 2)
  unfolding count has_election_majority server_init become_candidate handle_request_vote
      handle_request_vote_reply log_ok
  first_Elected = record { majority = refl; granted = first_granted }
    where
      first_granted :
          (j : ℕ)
          → j < 3
          → both 0 2 j ≡ true
          → (b : Ballot) × In b first_waits.ballots
            × (b.voter ≡ j)
            × (b.to ≡ 0)
            × (b.reply.vote_granted ≡ true)
            × as_told (first_waits.servers 0) b
      first_granted zero lt p = (ballot_of 0 0 2, inl refl, refl, refl, refl, refl)
      first_granted (suc zero) lt p = absurd (ground arith)
      first_granted (suc (suc zero)) lt p =
          (ballot_of 2 0 1, inr (inl refl), refl, refl, refl, refl)
      first_granted (suc (suc (suc j))) lt p = absurd (omega arith)

  second_Elected : Elected 3 as_told second_asked 1 (both 1 2)
  unfolding count has_election_majority server_init become_candidate handle_request_vote
      handle_request_vote_reply log_ok
  second_Elected = record { majority = refl; granted = second_granted }
    where
      second_granted :
          (j : ℕ)
          → j < 3
          → both 1 2 j ≡ true
          → (b : Ballot) × In b second_asked.ballots
            × (b.voter ≡ j)
            × (b.to ≡ 1)
            × (b.reply.vote_granted ≡ true)
            × as_told (second_asked.servers 1) b
      second_granted zero lt p = absurd (ground arith)
      second_granted (suc zero) lt p = (ballot_of 1 1 2, inr (inl refl), refl, refl, refl, refl)
      second_granted (suc (suc zero)) lt p = (ballot_of 2 1 2, inl refl, refl, refl, refl, refl)
      second_granted (suc (suc (suc j))) lt p = absurd (omega arith)

  -- If candidates count the granted replies for which `raft_handle_request_vote_reply` returns true,
  -- then a cluster of three servers, whatever their timeouts, can reach a state in which servers 0
  -- and 1 are leaders of the same term.
  pub two_leaders-Reach :
      (c : Cluster) × Reach 3 as_told timeout c
      × Leads c 0
      × Leads c 1
      × ((c.servers 0).current_term ≡ (c.servers 1).current_term)
  unfolding server_init become_candidate handle_request_vote become_leader log_ok
  two_leaders-Reach = (
    second_leads,
    after
        (after
          (after
            (after (after first_Reach (win 0 (both 0 2) (omega arith) refl first_Elected))
              (time_out 1 0 0 (omega arith) (omega arith)))
            (time_out 1 0 0 (omega arith) (omega arith)))
          (request 2 (request_of 1 2) (omega arith) (inl refl)))
        (win 1 (both 1 2) (omega arith) refl second_Elected),
    refl,
    refl,
    refl,
  )
