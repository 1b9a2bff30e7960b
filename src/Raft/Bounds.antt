-- ===== src/Raft/Bounds.antt =====
-- The bounds of a server's arrays, and its commit index, in every step of a cluster.
use mini_distributed_computi.Prelude.{ℕ, ◌≤◌, refl, arith, length-replicate}
use mini_distributed_computi.Paxos.Types.{max_nodes}
use mini_distributed_computi.Paxos.System.{put}
use mini_distributed_computi.Raft.Types.{Server}
use mini_distributed_computi.Raft.Election.{server_init}
use mini_distributed_computi.Raft.Advances.{
  IsBounded, Advances, AllPositive-replicate, become_candidate-Advances,
  handle_request_vote-Advances, handle_request_vote_reply-Advances, become_leader-Advances,
  SameStore-Advances,
}
use mini_distributed_computi.Raft.LogBounds.{
  append_command-Advances, handle_append_entries-Advances, handle_append_entries_reply-Advances,
}
use mini_distributed_computi.Raft.System.{
  Cluster, Policy, Step, time_out, request, hear, win, command, entries, acknowledge, Reach,
  at_start, after,
}
use mini_distributed_computi.Raft.Ballots.{put_all}

put-Advances :
    (f : ℕ → Server) (i : ℕ) (s : Server)
    → Advances (f i) s
    → (j : ℕ) → Advances (f j) (put f i s j)
put-Advances f i s a =
    put_all (λ j t. Advances (f j) t) f i s a
      (λ j _. SameStore-Advances (f j) (f j) (refl, refl, refl, refl))

Step-Advances :
    {n : ℕ} {counts : Policy} {c d : Cluster}
    → Step n counts c d
    → (j : ℕ) → Advances (c.servers j) (d.servers j)
Step-Advances {n} {counts} {c} (time_out i a b lt room) =
    put-Advances c.servers i _ (become_candidate-Advances (c.servers i))
Step-Advances {n} {counts} {c} (request i args lt sent) =
    put-Advances c.servers i _ (handle_request_vote-Advances (c.servers i) args)
Step-Advances {n} {counts} {c} (hear i b sent) =
    put-Advances c.servers i _ (handle_request_vote_reply-Advances (c.servers i) b.reply)
Step-Advances {n} {counts} {c} (win i q lt standing won) =
    put-Advances c.servers i _ (become_leader-Advances (c.servers i))
Step-Advances {n} {counts} {c} (command i v) =
    put-Advances c.servers i _ (append_command-Advances (c.servers i) v)
Step-Advances {n} {counts} {c} (entries i args) =
    put-Advances c.servers i _ (handle_append_entries-Advances (c.servers i) args)
Step-Advances {n} {counts} {c} (acknowledge i from reply) =
    put-Advances c.servers i _ (handle_append_entries_reply-Advances (c.servers i) from reply n)

-- No step of a cluster lowers the commit index of a server.
pub commit_index_le-Step :
    {n : ℕ} {counts : Policy} {c d : Cluster} (i : ℕ)
    → Step n counts c d
    → (c.servers i).commit_index ≤ (d.servers i).commit_index
commit_index_le-Step i st = (Step-Advances st i).commit_le

server_init-IsBounded : (i timeout : ℕ) → IsBounded (server_init i timeout)
unfolding server_init
server_init-IsBounded i timeout = record {
  log_le = omega arith;
  match_size = length-replicate {A = ℕ} max_nodes 0;
  next_size = length-replicate {A = ℕ} max_nodes 1;
  next_positive = AllPositive-replicate max_nodes 1 (omega arith);
}

-- In every state that a cluster reaches, whatever is delivered and whichever replies count, the log
-- of each server has at most 256 entries, the arrays of indices have 32, and no next index is 0.
pub IsBounded-Reach :
    {n : ℕ} {counts : Policy} {timeout : ℕ → ℕ} {c : Cluster} (i : ℕ)
    → Reach n counts timeout c
    → IsBounded (c.servers i)
IsBounded-Reach {n} {counts} {timeout} i at_start = server_init-IsBounded i (timeout i)
IsBounded-Reach i (after r st) = (Step-Advances st i).bounded (IsBounded-Reach i r)
