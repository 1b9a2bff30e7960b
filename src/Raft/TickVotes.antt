-- ===== src/Raft/TickVotes.antt =====
-- The election that `raft_tick` starts, and the answers of `raft_handle_request_vote` to it.
use mini_distributed_computi.Prelude.{
  ℕ, ◌+◌, ◌%◌, ◌^◌, ◌≤◌, ◌<◌, ◌≡◌, ◌≢◌, ◌⊎◌, refl, leb, ltb, ◌==◌, if◌then◌else◌, true, false, List,
  [], ◌∷◌, length, le→leb, arith, Bool-cases, inl, inr,
}
use mini_distributed_computi.Raft.Types.{
  RaftState, follower, candidate, leader, LogEntry, Server, RequestVoteArgs,
}
use mini_distributed_computi.Raft.Election.{
  become_candidate, log_ok, handle_request_vote, handle_request_vote_reply,
}
use mini_distributed_computi.Raft.System.{In}
use mini_distributed_computi.Raft.Tick.{
  RaftMessage, request_vote, last_term, vote_request, vote_requests, run_timer, tick_as,
  tick_election, tick,
}

-- the number of the identifiers other than `id`
unfoldable pub count_others : ℕ → List ℕ → ℕ
count_others id [] = 0
count_others id (x ∷ xs) = (if x == id then 0 else 1) + count_others id xs

-- The first log ends in a lower term than the second, or in the same term and is not longer.
abbrev pub NotAhead : List LogEntry → List LogEntry → Type 0
NotAhead a b = (last_term a < last_term b) ⊎ ((last_term a ≡ last_term b) × (length a ≤ length b))

length-vote_requests :
    (s : Server) (ids : List ℕ) → length (vote_requests s ids) ≡ count_others s.node_id ids
unfolding vote_requests count_others
length-vote_requests s [] = refl
length-vote_requests s (id ∷ ids) = elim (Bool-cases (id == s.node_id)) [
  | inl own ↦ rw own (omega (arith, length-vote_requests s ids))
  | inr other ↦ rw other (omega (arith, length-vote_requests s ids))
]

In-vote_requests :
    (s : Server) (ids : List ℕ) (m : RaftMessage) → In m (vote_requests s ids) → m ≡ vote_request s
unfolding vote_requests
In-vote_requests s [] m = λ h. absurd h
In-vote_requests s (id ∷ ids) m = elim (Bool-cases (id == s.node_id)) [
  | inl own ↦ rw own (In-vote_requests s ids m)
  | inr other ↦
      rw other (λ h. elim h [ inl first ↦ first | inr later ↦ In-vote_requests s ids m later ])
]

log_ok-last_term :
    (log : List LogEntry) (args : RequestVoteArgs)
    → (last_term log < args.last_log_term)
      ⊎ ((last_term log ≡ args.last_log_term) × (length log ≤ args.last_log_index))
    → log_ok log args ≡ true
unfolding log_ok
log_ok-last_term [] args h = refl
log_ok-last_term (e ∷ es) args (inl lower) = ground arith
log_ok-last_term (e ∷ es) args (inr (same, short)) = ground arith

-- A server of a lower term grants the request of a candidate whose log it is not ahead of.
handle_request_vote-NotAhead :
    (r : Server) (args : RequestVoteArgs)
    → r.current_term < args.term
    → log_ok r.log args ≡ true
    → ((handle_request_vote r args).1 ≡ record { term = args.term; vote_granted = true })
      × ((handle_request_vote r args).0.voted_for ≡ args.candidate_id)
unfolding handle_request_vote
handle_request_vote-NotAhead r args older ok =
    let current : ltb args.term r.current_term ≡ false = ground arith in
    let seen : ltb r.current_term args.term ≡ true = ground arith in
    rw (current, seen, ok) (refl, refl)

tick-election :
    (s : Server) (elapsed : ℕ) (ids : List ℕ)
    → s.state ≢ leader
    → s.election_timeout_ms ≤ (s.election_elapsed_ms + elapsed) % 2 ^ 64
    → tick s elapsed ids ≡ (
      (become_candidate (run_timer s elapsed)).1,
      vote_requests (become_candidate (run_timer s elapsed)).1 ids,
    )
unfolding tick tick_election
tick-election s elapsed ids not_leader late = by_state s.state not_leader
  where
    due : leb s.election_timeout_ms ((s.election_elapsed_ms + elapsed) % 2 ^ 64) ≡ true
    due = le→leb s.election_timeout_ms ((s.election_elapsed_ms + elapsed) % 2 ^ 64) late

    by_state :
        (a : RaftState)
        → a ≢ leader
        → tick_as a (run_timer s elapsed) ids ≡ (
          (become_candidate (run_timer s elapsed)).1,
          vote_requests (become_candidate (run_timer s elapsed)).1 ids,
        )
    by_state follower h = rw due refl
    by_state candidate h = rw due refl
    by_state leader h = absurd (h refl)

-- what becomes of a message of the candidate `s` at the server `r`
pub record IsGranted (s r : Server) (args : RequestVoteArgs) : Type 0 where
  pub reply : (handle_request_vote r args).1 ≡ record { term = s.current_term; vote_granted = true }
  pub vote : (handle_request_vote r args).0.voted_for ≡ s.node_id
  pub counted : (handle_request_vote_reply s (handle_request_vote r args).1).0 ≡ true

-- a server that has become a candidate in the term `t`
pub record IsCandidate (s : Server) (id t : ℕ) : Type 0 where
  pub state : s.state ≡ candidate
  pub own_vote : s.voted_for ≡ id
  pub term : s.current_term ≡ t

-- the content of `vote_request s`
abbrev asked_by : Server → RequestVoteArgs
asked_by s = record {
  term = s.current_term;
  candidate_id = s.node_id;
  last_log_index = length s.log;
  last_log_term = last_term s.log;
}

asked_by-IsGranted :
    (s r : Server)
    → r.current_term < s.current_term
    → NotAhead r.log s.log
    → IsGranted s r (asked_by s)
unfolding handle_request_vote_reply
asked_by-IsGranted s r older fresh =
    let (reply, vote) =
      handle_request_vote-NotAhead r (asked_by s) older
        (log_ok-last_term r.log (asked_by s) fresh) in
    let current : ltb s.current_term s.current_term ≡ false = ground arith in
    record { reply = reply; vote = vote; counted = rw (reply, current) refl }

-- When the election timeout of a server that is not a leader has passed, a tick makes it a
-- candidate of the next term that has voted for itself, and it sends one message for each other
-- identifier. Each message is a request that any server grants whose term is lower than the new one
-- and whose log ends in a lower term, or in the same term and is not longer: it votes for the
-- candidate, its reply is of the new term, and the candidate counts it.
pub tick-IsGranted :
    (s r : Server) (elapsed : ℕ) (ids : List ℕ)
    → s.state ≢ leader
    → s.election_timeout_ms ≤ (s.election_elapsed_ms + elapsed) % 2 ^ 64
    → r.current_term < (s.current_term + 1) % 2 ^ 64
    → NotAhead r.log s.log
    → IsCandidate (tick s elapsed ids).0 s.node_id ((s.current_term + 1) % 2 ^ 64)
      × (length (tick s elapsed ids).1 ≡ count_others s.node_id ids)
      × ((m : RaftMessage)
          → In m (tick s elapsed ids).1
          → (args : RequestVoteArgs) × (m ≡ request_vote args)
            × IsGranted (tick s elapsed ids).0 r args)
unfolding become_candidate
tick-IsGranted s r elapsed ids not_leader late older fresh =
    rw (tick-election s elapsed ids not_leader late) (
      record { state = refl; own_vote = refl; term = refl },
      length-vote_requests (become_candidate (run_timer s elapsed)).1 ids,
      λ m h.
          let elected = (become_candidate (run_timer s elapsed)).1 in
          (
            asked_by elected,
            In-vote_requests elected ids m h,
            asked_by-IsGranted elected r older fresh,
          ),
    )
