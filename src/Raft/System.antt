-- ===== src/Raft/System.antt =====
-- A cluster of `n` Raft servers, which run the functions of `Raft.Election` and `Raft.Replication`
-- in any order, on messages that are lost, repeated and reordered. Server `i` has the identifier
-- `i`. The sources leave the count of the votes to the caller of `raft_handle_request_vote_reply`:
-- here a candidate wins with granted replies to its requests from a majority of the servers, its
-- own vote among them, that the policy `counts` lets it count.
use mini_distributed_computi.Prelude.{ℕ, ◌+◌, ◌^◌, ◌<◌, ◌≡◌, ◌⊎◌, Bool, true, List, [], ◌∷◌}
use mini_distributed_computi.Paxos.Types.{Value}
use mini_distributed_computi.Paxos.Voting.{count}
use mini_distributed_computi.Paxos.System.{put}
use mini_distributed_computi.Raft.Types.{
  candidate, leader, Server, RequestVoteArgs, RequestVoteReply, AppendEntriesArgs,
  AppendEntriesReply,
}
use mini_distributed_computi.Raft.Election.{
  server_init, become_candidate, handle_request_vote, handle_request_vote_reply, become_leader,
  has_election_majority,
}
use mini_distributed_computi.Raft.Replication.{
  append_command, handle_append_entries, handle_append_entries_reply,
}

-- a reply of server `voter` to a request of `to`
pub record Ballot : Type 0 where
  pub voter : ℕ
  pub to : ℕ
  pub reply : RequestVoteReply

-- Every request and every reply that was sent stays in the network.
pub record Cluster : Type 0 where
  pub servers : ℕ → Server
  pub requests : List RequestVoteArgs
  pub ballots : List Ballot

abbrev pub In : {A : Type 0} → A → List A → Type 0
In m [] = ⊥
In m (x ∷ xs) = (m ≡ x) ⊎ In m xs

-- `counts s b`: the candidate `s` counts the ballot `b`.
abbrev pub Policy : Type 1
Policy = Server → Ballot → Type 0

-- the result of `raft_handle_request_vote_reply`
abbrev pub as_told : Policy
as_told s b = (handle_request_vote_reply s b.reply).0 ≡ true

abbrev pub of_its_term : Policy
of_its_term s b = b.reply.term ≡ s.current_term

-- What a candidate has received.
pub record Elected (n : ℕ) (counts : Policy) (c : Cluster) (i : ℕ) (q : ℕ → Bool) : Type 0 where
  pub majority : has_election_majority (count n q) n ≡ true
  pub granted :
      (j : ℕ)
      → j < n
      → q j ≡ true
      → (b : Ballot) × In b c.ballots
        × (b.voter ≡ j)
        × (b.to ≡ i)
        × (b.reply.vote_granted ≡ true)
        × counts (c.servers i) b

abbrev pub update : Cluster → ℕ → Server → Cluster
update c i s = record c { servers = put c.servers i s }

pub data Step (n : ℕ) (counts : Policy) (c : Cluster) : Cluster → Type 0 where
  time_out :
      (i last_index last_term : ℕ)
      → i < n
      → (c.servers i).current_term + 1 < 2 ^ 64
      → Step n counts c (record c {
        servers = put c.servers i (become_candidate (c.servers i)).1;
        requests =
            record {
              term = (become_candidate (c.servers i)).1.current_term;
              candidate_id = i;
              last_log_index = last_index;
              last_log_term = last_term;
            }
            ∷ c.requests;
        ballots =
            record {
              voter = i;
              to = i;
              reply = record {
                term = (become_candidate (c.servers i)).1.current_term;
                vote_granted = true;
              };
            }
            ∷ c.ballots;
      })
  request :
      (i : ℕ) (args : RequestVoteArgs)
      → i < n
      → In args c.requests
      → Step n counts c (record c {
        servers = put c.servers i (handle_request_vote (c.servers i) args).0;
        ballots =
            record {
              voter = i;
              to = args.candidate_id;
              reply = (handle_request_vote (c.servers i) args).1;
            }
            ∷ c.ballots;
      })
  hear :
      (i : ℕ) (b : Ballot)
      → In b c.ballots
      → Step n counts c (update c i (handle_request_vote_reply (c.servers i) b.reply).1)
  win :
      (i : ℕ) (q : ℕ → Bool)
      → i < n
      → (c.servers i).state ≡ candidate
      → Elected n counts c i q
      → Step n counts c (update c i (become_leader (c.servers i)))
  command : (i : ℕ) (v : Value) → Step n counts c (update c i (append_command (c.servers i) v).1)
  entries :
      (i : ℕ) (args : AppendEntriesArgs)
      → Step n counts c (update c i (handle_append_entries (c.servers i) args).0)
  acknowledge :
      (i from : ℕ) (reply : AppendEntriesReply)
      → Step n counts c (update c i (handle_append_entries_reply (c.servers i) from reply n))

-- `timeout i` is the election timeout of server `i`.
abbrev pub start : (ℕ → ℕ) → Cluster
start timeout = record { servers = λ i. server_init i (timeout i); requests = []; ballots = [] }

pub data Reach (n : ℕ) (counts : Policy) (timeout : ℕ → ℕ) : Cluster → Type 0 where
  at_start : Reach n counts timeout (start timeout)
  after : {c d : Cluster} → Reach n counts timeout c → Step n counts c d → Reach n counts timeout d

abbrev pub Leads : Cluster → ℕ → Type 0
Leads c i = (c.servers i).state ≡ leader
