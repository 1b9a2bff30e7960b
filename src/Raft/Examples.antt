-- ===== src/Raft/Examples.antt =====
-- Servers and clusters on which the theorems about Raft apply.
use mini_distributed_computi.Prelude.{
  ℕ, zero, suc, ◌+◌, ◌<◌, ◌≡◌, ◌≢◌, ◌≤◌, ◌⊎◌, refl, inl, inr, true, false, List, [], ◌∷◌, length,
  replicate, drop, arith, some, ◌==◌, ◌||◌,
}
use mini_distributed_computi.Paxos.Types.{no_value, max_nodes}
use mini_distributed_computi.Paxos.Voting.{count}
use mini_distributed_computi.Paxos.System.{put}
use mini_distributed_computi.Raft.Types.{
  leader, candidate, LogEntry, Server, RequestVoteArgs, AppendEntriesArgs, term_at,
}
use mini_distributed_computi.Raft.Election.{
  server_init, become_candidate, log_ok, handle_request_vote, become_leader, has_election_majority,
}
use mini_distributed_computi.Raft.Replication.{
  append_loop, receive_entries, handle_append_entries, prepare_append_entries, advance_commit_index,
  handle_append_entries_reply,
}
use mini_distributed_computi.Raft.System.{
  Ballot, Cluster, In, of_its_term, as_told, Elected, Step, time_out, request, win, start, Reach,
  at_start, after, update, Leads,
}
use mini_distributed_computi.Raft.Tick.{RaftMessage, request_vote, tick}
use mini_distributed_computi.Raft.TickVotes.{count_others, IsCandidate, IsGranted, tick-IsGranted}
use mini_distributed_computi.Raft.Safety.{one_leader-Leads}
use mini_distributed_computi.Raft.Stale.{two_leaders-Reach}
use mini_distributed_computi.Raft.Log.{Stored}
use mini_distributed_computi.Raft.Follower.{
  handle_append_entries-twice, handle_append_entries-mismatch,
}
use mini_distributed_computi.Raft.FullLog.{handle_append_entries-Stored}
use mini_distributed_computi.Raft.Commit.{Committable, advance_commit_index-Last}
use mini_distributed_computi.Raft.Unsafe.{
  handle_append_entries_reply-commits, handle_request_vote-shorter,
}
use mini_distributed_computi.Raft.Advances.{IsBounded, AllPositive-replicate}
use mini_distributed_computi.Raft.Bounds.{IsBounded-Reach}
use mini_distributed_computi.Raft.Replicate.{handle_append_entries-prepared}

abbrev entry : ℕ → LogEntry
entry t = record { term = t; command = no_value }

-- the leader of term 2 with three entries, of which a majority has the third
abbrev leading : Server
leading = record {
  node_id = 0;
  state = leader;
  current_term = 2;
  voted_for = 0;
  log = entry 1 ∷ entry 1 ∷ entry 2 ∷ [];
  commit_index = 1;
  last_applied = 0;
  next_index = replicate max_nodes 2;
  match_index = 3 ∷ 1 ∷ 3 ∷ replicate 29 0;
  election_timeout_ms = 100;
  election_elapsed_ms = 0;
  heartbeat_timeout_ms = 25;
}

-- a candidate of term 1, whose second entry differs from the leader's
abbrev behind : Server
behind = record leading {
  node_id = 1;
  state = candidate;
  current_term = 1;
  log = entry 1 ∷ entry 0 ∷ [];
  commit_index = 0;
}

abbrev copy : AppendEntriesArgs
copy = record {
  term = 2;
  leader_id = 0;
  prev_log_index = 1;
  prev_log_term = 1;
  entries = entry 1 ∷ entry 2 ∷ [];
  leader_commit = 1;
}

abbrev copied : List LogEntry
copied = entry 1 ∷ entry 1 ∷ entry 2 ∷ []

copy-succeeds : (handle_append_entries behind copy).1.success ≡ true
unfolding handle_append_entries receive_entries
copy-succeeds = refl

copy-log : (handle_append_entries behind copy).0.log ≡ copied
unfolding handle_append_entries receive_entries append_loop
copy-log = refl

handle_append_entries-Stored_example :
    Stored behind.log 1 (entry 1 ∷ entry 2 ∷ []) (handle_append_entries behind copy).0.log
handle_append_entries-Stored_example =
    handle_append_entries-Stored behind copy (omega arith) copy-succeeds

handle_append_entries-twice_example :
    handle_append_entries (handle_append_entries behind copy).0 copy
    ≡ handle_append_entries behind copy
handle_append_entries-twice_example =
    handle_append_entries-twice behind copy (omega arith) (omega arith) copy-succeeds

abbrev next_copy : AppendEntriesArgs
next_copy = record copy { prev_log_index = 2; prev_log_term = 1; entries = entry 2 ∷ [] }

handle_append_entries-mismatch_example :
    ((handle_append_entries behind next_copy).1.success ≡ false)
    × (length (handle_append_entries behind next_copy).0.log ≡ 2)
    × (term_at (handle_append_entries behind next_copy).0.log 2 ≢ 1)
handle_append_entries-mismatch_example =
    handle_append_entries-mismatch behind next_copy (omega arith) (omega arith) (omega arith)
      (λ e. omega arith)

leading-IsBounded : IsBounded leading
leading-IsBounded = record {
  log_le = omega arith;
  match_size = refl;
  next_size = refl;
  next_positive = AllPositive-replicate max_nodes 2 (omega arith);
}

behind-IsBounded : IsBounded behind
behind-IsBounded = record {
  log_le = omega arith;
  match_size = refl;
  next_size = refl;
  next_positive = AllPositive-replicate max_nodes 2 (omega arith);
}

prepared : prepare_append_entries leading 1 ≡ some copy
unfolding prepare_append_entries
prepared = refl

handle_append_entries-prepared_example :
    ((handle_append_entries behind copy).1.success ≡ true)
    × Stored behind.log 1 (drop 1 leading.log) (handle_append_entries behind copy).0.log
handle_append_entries-prepared_example =
    handle_append_entries-prepared leading behind 1 copy leading-IsBounded behind-IsBounded prepared
      (omega arith) (omega arith) (omega arith) (λ _. refl)

advance_commit_index-Last_example :
    ((k : ℕ) → ¬ Committable leading 3 k) × (advance_commit_index leading 3 ≡ leading)
    ⊎ (i : ℕ) × Committable leading 3 i
      × ((k : ℕ) → Committable leading 3 k → k ≤ i)
      × (advance_commit_index leading 3 ≡ record leading { commit_index = i })
advance_commit_index-Last_example = advance_commit_index-Last leading 3 refl

advance_commit_index_commits : (advance_commit_index leading 3).commit_index ≡ 3
unfolding advance_commit_index
advance_commit_index_commits = refl

-- a leader whose third entry nobody else is known to have
abbrev alone : Server
alone = record leading { match_index = 3 ∷ 0 ∷ replicate 30 0 }

handle_append_entries_reply-commits_example :
    (handle_append_entries_reply alone 1 (record { term = 2; success = true }) 3).commit_index ≡ 3
handle_append_entries_reply-commits_example =
    handle_append_entries_reply-commits alone 3 0 (replicate 30 0)
      (record { term = 2; success = true }) refl refl (omega arith) (omega arith) refl (omega arith)
      refl

abbrev shorter : RequestVoteArgs
shorter = record { term = 3; candidate_id = 2; last_log_index = 2; last_log_term = 2 }

handle_request_vote-shorter_example :
    ((handle_request_vote leading shorter).1.vote_granted ≡ true)
    × ((handle_request_vote leading shorter).0.voted_for ≡ 2)
handle_request_vote-shorter_example =
    handle_request_vote-shorter leading shorter (omega arith) (omega arith) refl

-- server 0 of three asks server 1 in term 1
abbrev timeouts : ℕ → ℕ
timeouts i = 100 + i

abbrev ask : RequestVoteArgs
ask = record { term = 1; candidate_id = 0; last_log_index = 0; last_log_term = 0 }

abbrev grant_of : ℕ → Ballot
grant_of voter = record { voter = voter; to = 0; reply = record { term = 1; vote_granted = true } }

abbrev asked : Cluster
asked = record {
  servers =
      put (put (start timeouts).servers 0 (become_candidate (server_init 0 100)).1) 1
        (handle_request_vote (server_init 1 101) ask).0;
  requests = ask ∷ [];
  ballots = grant_of 1 ∷ grant_of 0 ∷ [];
}

abbrev elected : Cluster
elected = update asked 0 (become_leader (asked.servers 0))

asked-Reach : Reach 3 of_its_term timeouts asked
unfolding server_init become_candidate handle_request_vote log_ok
asked-Reach =
    after (after at_start (time_out 0 0 0 (omega arith) (omega arith)))
      (request 1 ask (omega arith) (inl refl))

asked-Elected : Elected 3 of_its_term asked 0 (λ k. k == 0 || k == 1)
unfolding count has_election_majority server_init become_candidate handle_request_vote log_ok
asked-Elected = record { majority = refl; granted = granted }
  where
    granted :
        (j : ℕ)
        → j < 3
        → (j == 0 || j == 1) ≡ true
        → (b : Ballot) × In b asked.ballots
          × (b.voter ≡ j)
          × (b.to ≡ 0)
          × (b.reply.vote_granted ≡ true)
          × of_its_term (asked.servers 0) b
    granted zero lt p = (grant_of 0, inr (inl refl), refl, refl, refl, refl)
    granted (suc zero) lt p = (grant_of 1, inl refl, refl, refl, refl, refl)
    granted (suc (suc j)) lt p = absurd (ground arith)

asked-wins : Step 3 of_its_term asked elected
unfolding server_init become_candidate
asked-wins = win 0 (λ k. k == 0 || k == 1) (omega arith) refl asked-Elected

elected-Reach : Reach 3 of_its_term timeouts elected
elected-Reach = after asked-Reach asked-wins

elected-Leads : Leads elected 0
unfolding become_leader
elected-Leads = refl

one_leader-Leads_example : ◌≡◌ {A = ℕ} 0 0
one_leader-Leads_example =
    one_leader-Leads {n = 3} {c = elected} 0 0 (omega arith) elected-Reach elected-Leads
      elected-Leads refl

two_leaders-Reach_example :
    (c : Cluster) × Reach 3 as_told timeouts c
    × Leads c 0
    × Leads c 1
    × ((c.servers 0).current_term ≡ (c.servers 1).current_term)
two_leaders-Reach_example = two_leaders-Reach timeouts

IsBounded-Reach_example : IsBounded (elected.servers 0)
IsBounded-Reach_example = IsBounded-Reach 0 elected-Reach

-- a voter of the same term whose log is shorter
abbrev late_voter : Server
late_voter = record behind { node_id = 2; log = entry 0 ∷ [] }

tick-IsGranted_example :
    IsCandidate (tick behind 150 (0 ∷ 1 ∷ 2 ∷ [])).0 1 2
    × (length (tick behind 150 (0 ∷ 1 ∷ 2 ∷ [])).1 ≡ count_others 1 (0 ∷ 1 ∷ 2 ∷ []))
    × ((m : RaftMessage)
        → In m (tick behind 150 (0 ∷ 1 ∷ 2 ∷ [])).1
        → (args : RequestVoteArgs) × (m ≡ request_vote args)
          × IsGranted (tick behind 150 (0 ∷ 1 ∷ 2 ∷ [])).0 late_voter args)
tick-IsGranted_example =
    tick-IsGranted behind late_voter 150 (0 ∷ 1 ∷ 2 ∷ []) (λ e. absurd (ground arith)) (omega arith)
      (omega arith) (inr (refl, omega arith))

two_others : count_others 1 (0 ∷ 1 ∷ 2 ∷ []) ≡ 2
unfolding count_others
two_others = refl
