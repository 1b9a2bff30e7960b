-- ===== src/Byzantine/Examples.antt =====
-- Systems on which the theorems apply.
use mini_distributed_computi.Prelude.{ℕ, false, ◌≡◌, List, [], ◌∷◌, Option, some, ℤ, pos, arith}
use mini_distributed_computi.Byzantine.King
use mini_distributed_computi.Byzantine.Agreed.{Agreed, run-Agreed}
use mini_distributed_computi.Byzantine.BenOr
use mini_distributed_computi.Byzantine.BenOr.{FaultType, correct, crash_fault, byzantine}
use mini_distributed_computi.Byzantine.Chains.{DsSystem, ds_init}
use mini_distributed_computi.Byzantine.Signed.{EachValid, steps, ds_init-EachValid}
use mini_distributed_computi.Byzantine.BenOrAgreed.{IsSafe, run-IsSafe}

abbrev votes : Option (List ℤ)
votes = some (pos 1 ∷ pos 0 ∷ pos 1 ∷ pos 1 ∷ pos 1 ∷ [])

abbrev one_liar : Option (List FaultType)
one_liar = some (correct ∷ byzantine ∷ correct ∷ correct ∷ crash_fault ∷ [])

run-Agreed_example : (s : King.System) × (King.init (pos 5) (pos 1) votes ≡ some s) × Agreed s
run-Agreed_example = run-Agreed 5 1 votes (omega arith) (omega arith) (omega arith)

run-IsSafe_example :
    (s : BenOr.System) × (BenOr.init (pos 5) (pos 2) votes one_liar 7 ≡ some (s, 7)) × IsSafe s 7
run-IsSafe_example = run-IsSafe 5 2 7 votes one_liar (omega arith) (omega arith)

-- three processes, of which the second sends arbitrary values
abbrev trio : BenOr.System
trio = record {
  n = 3;
  f = 1;
  processes = member 0 ∷ member 1 ∷ member 2 ∷ [];
  max_rounds = 100;
  current_round = 0;
  agreement_reached = false;
  coin_seed = 7;
}
  where
    member : ℕ → BenOr.Process
    member i = BenOr.new_process (some (pos 1 ∷ pos 0 ∷ pos 1 ∷ [])) one_liar i

ds_init-EachValid_example :
    (ds : DsSystem) × (ds_init (pos 5) (pos 2) votes one_liar ≡ some ds)
    × EachValid (steps 3 ds).extracts
ds_init-EachValid_example = ds_init-EachValid 5 2 3 votes one_liar (omega arith) (omega arith)
