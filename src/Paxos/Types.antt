-- ===== src/Paxos/Types.antt =====
-- mini-paxos-raft-formal/include/paxos_raft_types.h: values, messages and the state of each role.
-- Identifiers and ballots are natural numbers; where the source computes one, its width is written
-- out. An array that a function fills is passed in and returned, so that the fields which the
-- function does not write keep what they held.
use mini_distributed_computi.Prelude.{ℕ, zero, suc, ◌==◌, Bool, true, ◌&&◌, List, ◌∷◌, replicate}

-- `consensus_value_t`
pub record Value : Type 0 where
  pub bytes : List ℕ
  pub length : ℕ

-- `memcmp(xs, ys, n) == 0`; both arrays hold `n` bytes at least
abbrev pub same_bytes : ℕ → List ℕ → List ℕ → Bool
same_bytes zero xs ys = true
same_bytes (suc n) (x ∷ xs) (y ∷ ys) = x == y && same_bytes n xs ys
same_bytes (suc n) _ _ = true

-- the comparison of two values, by length and then by `memcmp`
abbrev pub same_value : Value → Value → Bool
same_value u v = u.length == v.length && same_bytes u.length u.bytes v.bytes

abbrev pub max_value_size : ℕ
max_value_size = 128

-- `memset(&value, 0, sizeof(value))`
unfoldable pub no_value : Value
no_value = record { bytes = replicate max_value_size 0; length = 0 }

abbrev pub max_nodes : ℕ
max_nodes = 32

-- `paxos_msg_type_t`
pub data MessageType : Type 0 where
  prepare_type promise_type accept_type accepted_type : MessageType

-- `paxos_message_t`
pub record Message : Type 0 where
  pub type : MessageType
  pub from : ℕ
  pub to : ℕ
  pub ballot : ℕ
  pub accepted_ballot : ℕ
  pub accepted_value : Value
  pub value : Value

-- `paxos_acceptor_t`
pub record Acceptor : Type 0 where
  pub node_id : ℕ
  pub promise_ballot : ℕ
  pub accepted_ballot : ℕ
  pub accepted_value : Value
  pub has_accepted : Bool

-- `paxos_proposer_t`
pub record Proposer : Type 0 where
  pub node_id : ℕ
  pub current_ballot : ℕ
  pub proposed_value : Value
  pub phase : ℕ

-- `paxos_learner_t`
pub record Learner : Type 0 where
  pub node_id : ℕ
  pub learned_value : Value
  pub has_learned : Bool
