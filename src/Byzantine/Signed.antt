-- ===== src/Byzantine/Signed.antt =====
-- Every chain that a process holds passes `ds_verify_chain`.
use mini_distributed_computi.Prelude.{
  ℕ, zero, suc, ◌*◌, ◌≤◌, ◌<◌, ◌≡◌, refl, ◌∙◌, ap, ltb, leb, ◌==◌, ==_refl, ==_iff, leb→le, le→leb,
  Bool, true, false, ◌&&◌, not, List, [], ◌∷◌, ◌++◌, length, length-append, set, elem, elem-append,
  Option, some, ℤ, pos, arith,
}
use mini_distributed_computi.Byzantine.King.{max_processes, value_of}
use mini_distributed_computi.Byzantine.BenOr.{FaultType}
use mini_distributed_computi.Byzantine.BenOrRun.{if-cases}
use mini_distributed_computi.Byzantine.Chains.{
  ChainEntry, DsSystem, bytes_of, fnv, first_hash, new_entry, new_extracts, ds_init, faults_from,
  rounds_of, sign_chain, distinct_signers, hash_rest, computed_hash, verify_chain, signed,
  already_has, take_entry, take_entries, entries_of, senders_loop, receivers_loop, ds_step,
}

hash_rest-append :
    (ss : List ℕ) (s hash : ℕ)
    → hash_rest (ss ++ (s ∷ [])) hash ≡ fnv (bytes_of s) (hash_rest ss hash)
unfolding hash_rest
hash_rest-append [] s hash = refl
hash_rest-append (t ∷ ss) s hash = hash_rest-append ss s (fnv (bytes_of t) hash)

distinct_signers-append :
    (ss : List ℕ) (s : ℕ)
    → distinct_signers ss ≡ true
    → elem s ss ≡ false
    → distinct_signers (ss ++ (s ∷ [])) ≡ true
unfolding distinct_signers
distinct_signers-append [] s distinct new = refl
distinct_signers-append (t ∷ ss) s distinct new =
    let rest = distinct_signers-append ss s (ground arith) (ground arith) in
    rw (elem-append t ss (s ∷ [])) (ground arith)

computed_hash-append :
    (ss : List ℕ) (s : ℕ) (value : ℤ)
    → 1 ≤ length ss
    → computed_hash (ss ++ (s ∷ [])) value ≡ fnv (bytes_of s) (computed_hash ss value)
unfolding computed_hash
computed_hash-append [] s value some_signer = absurd (omega arith)
computed_hash-append (t ∷ ss) s value some_signer = hash_rest-append ss s (first_hash t value)

sign_chain-room :
    (c : ChainEntry) (s : ℕ)
    → ltb (length c.signers) max_processes ≡ true
    → sign_chain c s ≡ some (fnv (bytes_of s) c.chain_hash)
unfolding sign_chain
sign_chain-room c s room =
    let low : leb max_processes (length c.signers) ≡ false = ground arith in rw low refl

-- what `verify_chain` checks
record IsChain (c : ChainEntry) : Type 0 where
  some_signer : 1 ≤ length c.signers
  few_signers : length c.signers ≤ 16
  distinct : distinct_signers c.signers ≡ true
  hashed : computed_hash c.signers c.value ≡ c.chain_hash

and_split :
    (a b c d : Bool) → (a && b && c && d) ≡ true → (a ≡ true) × (b ≡ true) × (c ≡ true) × (d ≡ true)
and_split true true true true h = (refl, refl, refl, refl)
and_split true true true false h = absurd (ground arith)
and_split true true false d h = absurd (ground arith)
and_split true false c d h = absurd (ground arith)
and_split false b c d h = absurd (ground arith)

IsChain-verify : (c : ChainEntry) → IsChain c → verify_chain c ≡ true
unfolding verify_chain
IsChain-verify c ok =
    rw
      (
        le→leb 1 (length c.signers) ok.some_signer,
        le→leb (length c.signers) 16 ok.few_signers,
        ok.distinct,
        ok.hashed,
      )
      (==_refl c.chain_hash)

verify-IsChain : (c : ChainEntry) → verify_chain c ≡ true → IsChain c
unfolding verify_chain
verify-IsChain c h =
    let (one, two, three, four) =
      and_split (leb 1 (length c.signers)) (leb (length c.signers) max_processes)
        (distinct_signers c.signers) (computed_hash c.signers c.value == c.chain_hash) h in
    record {
      some_signer = leb→le 1 (length c.signers) one;
      few_signers = leb→le (length c.signers) 16 two;
      distinct = three;
      hashed = (==_iff (computed_hash c.signers c.value) c.chain_hash).0 four;
    }

-- A valid chain stays valid when a receiver signs it, or leaves it as it is.
signed-verify : (r : ℕ) (c : ChainEntry) → verify_chain c ≡ true → verify_chain (signed r c) ≡ true
unfolding signed
signed-verify r c h =
    if-cases (λ (e : ChainEntry). verify_chain e ≡ true)
      (not (elem r c.signers) && ltb (length c.signers) max_processes) _ c
      (λ new.
        let ok = verify-IsChain c h in
        let longer = length-append c.signers (r ∷ []) in
        let room : length c.signers < 16 = ground arith in
        rw (sign_chain-room c r (ground arith)) (
          IsChain-verify _ (record {
            some_signer = omega (arith, longer);
            few_signers = omega (arith, longer);
            distinct = distinct_signers-append c.signers r ok.distinct (ground arith);
            hashed =
                computed_hash-append c.signers r c.value ok.some_signer
                ∙ ap (fnv (bytes_of r)) ok.hashed;
          })))
      (λ old. h)

-- all entries are valid chains
abbrev pub AllValid : List ChainEntry → Type 0
AllValid [] = Unit
AllValid (c ∷ cs) = (verify_chain c ≡ true) × AllValid cs

AllValid-append :
    (cs : List ChainEntry) (c : ChainEntry)
    → AllValid cs
    → verify_chain c ≡ true
    → AllValid (cs ++ (c ∷ []))
AllValid-append [] c all h = (h, tt)
AllValid-append (d ∷ cs) c (first, all) h = (first, AllValid-append cs c all h)

take_entries-AllValid :
    (r : ℕ) (es sent : List ChainEntry)
    → AllValid es
    → AllValid sent
    → AllValid (take_entries r es sent)
unfolding take_entries
take_entries-AllValid r es [] all all' = all
take_entries-AllValid r es (c ∷ sent) all (first, all') =
    take_entries-AllValid r (take_entry r es c) sent
      (if-cases AllValid
        (c.verified && (not (already_has es c) && ltb (length es) (max_processes * max_processes)))
        _ es (λ new. AllValid-append es (signed r c) all (signed-verify r c first)) (λ old. all))
      all'

-- all entries of all processes are valid chains
abbrev pub EachValid : List (List ChainEntry) → Type 0
EachValid [] = Unit
EachValid (es ∷ ess) = AllValid es × EachValid ess

EachValid-at : (ess : List (List ChainEntry)) (i : ℕ) → EachValid ess → AllValid (entries_of ess i)
EachValid-at [] i all = tt
EachValid-at (es ∷ ess) zero (first, all) = first
EachValid-at (es ∷ ess) (suc i) (first, all) = EachValid-at ess i all

EachValid-set :
    (ess : List (List ChainEntry)) (i : ℕ) (es : List ChainEntry)
    → EachValid ess
    → AllValid es
    → EachValid (set ess i es)
EachValid-set [] i es all h = tt
EachValid-set (x ∷ ess) zero es (first, all) h = (h, all)
EachValid-set (x ∷ ess) (suc i) es (first, all) h = (first, EachValid-set ess i es all h)

senders_loop-EachValid :
    (faults : List FaultType) (r left s : ℕ) (ess : List (List ChainEntry))
    → EachValid ess
    → EachValid (senders_loop faults r left s ess)
unfolding senders_loop
senders_loop-EachValid faults r zero s ess all = all
senders_loop-EachValid faults r (suc left) s ess all =
    senders_loop-EachValid faults r left (suc s) _ (
      if-cases EachValid _ ess _ (λ skip. all)
        (λ go. EachValid-set ess r _ all (
          take_entries-AllValid r (entries_of ess r) (entries_of ess s) (EachValid-at ess r all)
            (EachValid-at ess s all))))

receivers_loop-EachValid :
    (faults : List FaultType) (n left r : ℕ) (ess : List (List ChainEntry))
    → EachValid ess
    → EachValid (receivers_loop faults n left r ess)
unfolding receivers_loop
receivers_loop-EachValid faults n zero r ess all = all
receivers_loop-EachValid faults n (suc left) r ess all =
    receivers_loop-EachValid faults n left (suc r) _
      (if-cases EachValid _ ess _ (λ skip. all) (λ go. senders_loop-EachValid faults r n 0 ess all))

-- A step of the Dolev-Strong protocol keeps all chains of signatures valid, those of faulty
-- processes included.
pub ds_step-EachValid : (ds : DsSystem) → EachValid ds.extracts → EachValid (ds_step ds).1.extracts
unfolding ds_step
ds_step-EachValid ds all =
    if-cases (λ (r : Bool × DsSystem). EachValid r.1.extracts) (ltb ds.f ds.current_round) _ _
      (λ over. all) (λ more. receivers_loop-EachValid ds.fault_types ds.n ds.n 0 ds.extracts all)

new_entry-verify : (values : Option (List ℤ)) (i : ℕ) → verify_chain (new_entry values i) ≡ true
unfolding verify_chain computed_hash hash_rest distinct_signers
new_entry-verify values i = ==_refl (first_hash i (value_of values i))

new_extracts-EachValid :
    (values : Option (List ℤ)) (left i : ℕ) → EachValid (new_extracts values left i)
unfolding new_extracts
new_extracts-EachValid values zero i = tt
new_extracts-EachValid values (suc left) i =
    ((new_entry-verify values i, tt), new_extracts-EachValid values left (suc i))

-- the system after `k` steps
unfoldable pub steps : ℕ → DsSystem → DsSystem
unfolding ds_step
steps zero ds = ds
steps (suc k) ds = steps k (ds_step ds).1

steps-EachValid : (k : ℕ) (ds : DsSystem) → EachValid ds.extracts → EachValid (steps k ds).extracts
unfolding steps
steps-EachValid zero ds all = all
steps-EachValid (suc k) ds all = steps-EachValid k (ds_step ds).1 (ds_step-EachValid ds all)

-- `ds_init` accepts 1 to 16 processes, and after any number of steps every chain of signatures that
-- a process holds passes `ds_verify_chain`.
pub ds_init-EachValid :
    (n f k : ℕ) (values : Option (List ℤ)) (faults : Option (List FaultType))
    → 0 < n
    → n ≤ 16
    → (ds : DsSystem) × (ds_init (pos n) (pos f) values faults ≡ some ds)
      × EachValid (steps k ds).extracts
unfolding ds_init
ds_init-EachValid n f k values faults some_process few =
    let ds : DsSystem = record {
      n = n;
      f = f;
      extracts = new_extracts values n 0;
      rounds_done = rounds_of n 0;
      fault_types = faults_from faults n 0;
      current_round = 0;
    } in
    let low : ltb n 1 ≡ false = ground arith in
    let high : leb n 16 ≡ true = ground arith in
    (ds, rw (low, high) refl, steps-EachValid k ds (new_extracts-EachValid values n 0))
