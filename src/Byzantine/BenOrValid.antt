-- ===== src/Byzantine/BenOrValid.antt =====
-- With fewer than half of the processes faulty, `benor_run` decides the value of all correct
-- processes in its first round, if they start with one.
use mini_distributed_computi.Prelude.{ℕ, ◌+◌, ◌*◌, ◌≤◌, ◌<◌, ◌≡◌, false, length, pos}
use mini_distributed_computi.Byzantine.BenOr.{System, exchanged, Tally, decide_loop}
use mini_distributed_computi.Byzantine.BenOrCounts.{correct_count, Estimate}

-- A round in which the correct processes decide `v` together.
module _ (s : System) (coin : ℕ) (v : ℕ) (running : s.agreement_reached ≡ false)
    (more : s.current_round < s.max_rounds) (low : v ≤ 1) (len : length s.processes ≡ s.n)
    (small : s.n ≤ 16) (few : 2 * s.f < s.n) (faulty : s.n ≤ correct_count s.processes + s.f)
    (all : Estimate (pos v) s.processes) where
  abbrev o : Tally
  o = decide_loop s.f s.current_round (exchanged s.n s.processes) coin
