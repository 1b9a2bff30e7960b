-- ===== src/Lib.antt =====
-- Verification of the mini-distributed-computing-theory programs. The parts below are independent
-- programs of the repository; each has a module here.
--
-- Ring: mini-self-stabilization-dijkstra/src/dijkstra_ring.c, Dijkstra's token rings.
--   Ring/Config.antt      the ring's record, ring_init, ring_destroy, ring_set_state,
--                         ring_get_state, ring_randomize_states, ring_set_uniform_state
--   Ring/Privilege.antt   ring_compute_privilege, ring_count_privileges, ring_is_legitimate
--   Ring/Step.antt        ring_step_3state, ring_step_4state, ring_step_kstate, ring_step
--   Ring/Sync.antt        ring_synchronous_round
--   Ring/Run.antt         ring_converge_to_legitimate, ring_equals, ring_verify_closure,
--                         ring_verify_convergence
--   The other files of Ring hold proofs; Ring/Examples.antt holds rings on which they apply.
--   A function that writes to `config` takes the ring and returns the new one with its result.
--   The loop of ring_converge_to_legitimate recurs on the steps that are left, which is also what
--   bounds it in the source; the other loops recur on the machines that are left. A NULL `machines`
--   is the empty list, `calloc` never fails, and states are natural numbers, since every write
--   stores one. ring_print is output only, and ring_clone copies a value.
--
-- Paxos: mini-paxos-raft-formal/src/paxos_basic.c, Basic Paxos, with the types of
--   include/paxos_raft_types.h.
--   Paxos/Types.antt      values, messages, and the records of the three roles
--   Paxos/Roles.antt      paxos_proposer_init, paxos_prepare, paxos_receive_prepare, paxos_accept,
--                         paxos_receive_accept, paxos_learner_receive
--   Paxos/Instance.antt   paxos_run_instance, paxos_verify_safety_invariant,
--                         paxos_leader_completeness_holds
--   Paxos/System.antt     any number of proposers and acceptors that call these functions over a
--                         network which loses, repeats and reorders messages: a step relation
--   Paxos/Voting.antt     the abstract specification, on ballots and votes alone
--   The other files of Paxos prove that the system follows the specification, and what follows.
--   Arrays that a function fills are passed in and returned. What memory holds before it is
--   written is a parameter of the functions that read such memory. Ballots are unbounded numbers,
--   except where the source computes one.
--
-- Raft: mini-paxos-raft-formal/src/raft_leader_election.c and src/raft_log_replication.c, with the
--   types of include/paxos_raft_types.h.
--   Raft/Types.antt        a server, its log, and the arguments and replies of the two calls
--   Raft/Election.antt     raft_server_init, raft_become_candidate, raft_handle_request_vote,
--                          raft_handle_request_vote_reply, raft_become_leader,
--                          raft_has_election_majority, raft_verify_election_safety
--   Raft/Replication.antt  raft_append_command, raft_prepare_append_entries,
--                          raft_handle_append_entries, raft_handle_append_entries_reply,
--                          raft_advance_commit_index
--   Raft/Tick.antt         raft_tick of src/raft_simulator.c
--   Raft/System.antt       a cluster of servers that call these functions, on requests and replies
--                          which are lost, repeated and reordered: a step relation
--   The other files of Raft hold proofs; Raft/Examples.antt holds servers on which they apply.
--   The array of a log and its length are one list. Terms wrap at 2 ^ 64, which a step of a cluster
--   is taken not to reach; indices are at most 257. raft_set_election_timeout works on a double and
--   is left out.
--
-- Quorum: mini-paxos-raft-formal/src/quorum_system.c.
--   Quorum/System.antt    the functions of the file but the next two
--   Quorum/Generate.antt  generate_combinations and quorum_generate_all
--   The other files of Quorum hold proofs; Quorum/Examples.antt holds quorums on which they apply.
--   An array and its length are one list. A run of quorum_generate_all that would write past the
--   array of 1024 quorums, which holds those of at most 11 nodes, gives none.
--
-- Graph, Coloring and Mis: mini-coloring-mis-lower-bounds, graphs with the colorings and the maximal
--   independent sets on them.
--   Graph/Types.antt           the type of include/graph.h, graph_create and graph_add_edge
--   Graph/Build.antt           the builders of src/graph_utils.c
--   Graph/Ports.antt           port_numbering_create and its lookups
--   Coloring/Types.antt        colorings, coloring_is_proper, coloring_num_colors_used
--   Coloring/Greedy.antt       coloring_greedy_sequential of src/color_greedy.c
--   Coloring/Distributed.antt  distributed_greedy_coloring of src/color_distributed.c
--   Coloring/Reduce.antt       coloring_reduce_by_one and the loop of cole_vishkin_coloring
--                              (src/color_cole_vishkin.c)
--   Mis/Types.antt             sets, mis_is_independent, mis_is_maximal, mis_verify,
--                              mis_dominating_count
--   Mis/Greedy.antt            mis_greedy_sequential, mis_greedy_random_order (src/mis_algo.c) and
--                              mis_linial_deterministic after its coloring (src/mis_deterministic.c)
--   Mis/Luby.antt              mis_luby_round, mis_luby_randomized (src/mis_luby.c) and their callers
--   Mis/RingSet.antt           mis_ring_deterministic (src/mis_deterministic.c)
--   Mis/Maximum.antt           graph_independence_number, mis_maximum_size, mis_is_maximum
--   The other files hold proofs; the Examples files hold graphs on which they apply. An adjacency
--   list is a list of node numbers; its capacity is left out, allocation never fails, and a
--   negative color or dominator is `none`. Loops recur on the nodes or rounds that are left. The
--   reduction loop recurs on fuel, for which the number of colors is enough, since each round takes
--   at least one color away. Ranks of nodes are doubles that hold 32-bit numbers, here those
--   numbers. Not modelled: the rounds of cole_vishkin_reduce and linial_one_round_reduction, and
--   the clustering coefficients, which compute with doubles.
--
-- Byzantine: mini-byzantine-agreement-lower-bound/src/phase_protocols.c.
--   Byzantine/King.antt   phase_king_init, phase_king_step, phase_king_run
--   Byzantine/BenOr.antt  xorshift64, benor_init, benor_step, benor_run
--   Byzantine/Chains.antt fnv1a_hash, ds_init, ds_sign_chain, ds_verify_chain, ds_step
--   The other files of Byzantine hold proofs; Byzantine/Examples.antt holds runs on which they
--   apply. The loops of the two runs recur on fuel, f + 2 and max_rounds + 1, which is enough: each
--   step counts a phase or a round. The arrays of processes and messages are lists, and a NULL
--   array of values or faults is `none`. The products and sums of f that the source compares as
--   int32_t are read modulo 2 ^ 32. The state of the generator is passed on. Not modelled:
--   ds_run, and benor_expected_rounds, which returns doubles.
--
-- Prelude holds Boolean tests, lists indexed by native numbers and C integers.
mod Prelude
pub mod Ring
pub mod Paxos
pub mod Raft
pub mod Quorum
pub mod Graph
pub mod Coloring
pub mod Mis
pub mod Byzantine
