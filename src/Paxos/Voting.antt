-- ===== src/Paxos/Voting.antt =====
-- What Basic Paxos promises, on ballots and votes alone: acceptors promise and vote, proposals are
-- made when they are safe, and then two majorities never vote for two values. Messages, arrays and
-- the roles' records are forgotten here; `Paxos.System` is shown to behave in this way.
use mini_distributed_computi.Prelude.{
  ℕ, zero, suc, ◌+◌, ◌/◌, ◌<◌, ◌≤◌, ◌≡◌, ◌⊎◌, subst, inl, inr, sym, ◌∙◌, Bool, true, if◌then◌else◌,
  Bool-cases, arith, dec_lt,
}

-- the members of a set of acceptors below `n`
unfoldable pub count : ℕ → (ℕ → Bool) → ℕ
count zero q = 0
count (suc n) q = count n q + (if q n then 1 else 0)

abbrev pub IsMajority : ℕ → (ℕ → Bool) → Type 0
IsMajority n q = n / 2 + 1 ≤ count n q

-- Two sets of more than `n` members together share one.
pub common_member :
    (n : ℕ) (q r : ℕ → Bool)
    → n < count n q + count n r
    → (i : ℕ) × (i < n) × (q i ≡ true) × (r i ≡ true)
unfolding count
common_member zero q r h = absurd (omega arith)
common_member (suc n) q r h = elim (Bool-cases (q n)) [
  | inl p ↦ elim (Bool-cases (r n)) [
    | inl p' ↦ (n, omega arith, p, p')
    | inr p' ↦ earlier (common_member n q r (ground arith))
  ]
  | inr p ↦ earlier (common_member n q r (ground arith))
]
  where
    earlier :
        (i : ℕ) × (i < n) × (q i ≡ true) × (r i ≡ true)
        → (i : ℕ) × (i < suc n) × (q i ≡ true) × (r i ≡ true)
    earlier (i, l, a, b) = (i, omega arith, a, b)

pub majorities_meet :
    (n : ℕ) (q r : ℕ → Bool)
    → IsMajority n q
    → IsMajority n r
    → (i : ℕ) × (i < n) × (q i ≡ true) × (r i ≡ true)
majorities_meet n q r h k = common_member n q r (omega arith)

pub record View {ℓ} (V : Type ℓ) : Type (ℓ ⊔ 1) where
  pub promised : ℕ → ℕ
  pub Voted : ℕ → ℕ → V → Type 0
  pub Proposed : ℕ → V → Type 0

module _ {ℓ} {V : Type ℓ} where
  -- An acceptor that has not voted in a ballot, and will not.
  abbrev pub Frozen : View V → ℕ → ℕ → Type ℓ
  Frozen x a c = (c < x.promised a) × ((w : V) → ¬ x.Voted a c w)

  module _ (n : ℕ) where
    -- A majority that voted for `v` in ballot `c`, or never will vote for anything there.
    abbrev pub Safe : View V → ℕ → V → Type ℓ
    Safe x c v =
        (q : ℕ → Bool) × IsMajority n q
        × ((a : ℕ) → a < n → q a ≡ true → x.Voted a c v ⊎ Frozen x a c)

    abbrev pub Chosen : View V → ℕ → V → Type 0
    Chosen x b v = (q : ℕ → Bool) × IsMajority n q × ((a : ℕ) → a < n → q a ≡ true → x.Voted a b v)

    pub record IsSound (x : View V) : Type ℓ where
      pub one_value : (b : ℕ) (v w : V) → x.Proposed b v → x.Proposed b w → v ≡ w
      pub voted_proposed : (a b : ℕ) (v : V) → x.Voted a b v → x.Proposed b v
      pub safe : (b c : ℕ) (v : V) → x.Proposed b v → c < b → Safe x c v

    Chosen-later :
        {x : View V} (b c : ℕ) (v w : V) → IsSound x → c < b → Chosen x b v → Chosen x c w → v ≡ w
    Chosen-later b c v w s lt (q, big, voted) (r, big', voted') =
        let (i, below, p, _) = majorities_meet n q q big big in
        let (t, big_t, fate) = s.safe b c v (s.voted_proposed i b v (voted i below p)) lt in
        let (j, below', p', p'') = majorities_meet n t r big_t big' in
        elim (fate j below' p') [
          | inl same ↦
              s.one_value c v w (s.voted_proposed j c v same)
                (s.voted_proposed j c w (voted' j below' p''))
          | inr frozen ↦ absurd (frozen.1 w (voted' j below' p''))
        ]

    -- In a sound state at most one value is chosen, over all ballots.
    pub agreement :
        {x : View V} (b c : ℕ) (v w : V) → IsSound x → Chosen x b v → Chosen x c w → v ≡ w
    agreement {x} b c v w s p p' = elim (dec_lt c b) [
      | yes lt ↦ Chosen-later b c v w s lt p p'
      | no ge ↦ elim (dec_lt b c) [
        | yes lt ↦ sym (Chosen-later c b w v s lt p' p)
        | no ge' ↦
            let e : b ≡ c = omega arith in
            let (q, big, voted) = p in
            let (q', big', voted') = p' in
            let (i, below, in_q, in_q') = majorities_meet n q q' big big' in
            s.one_value c v w
              (s.voted_proposed i c v (subst (λ k. x.Voted i k v) e (voted i below in_q)))
              (s.voted_proposed i c w (voted' i below in_q'))
      ]
    ]

  -- What every step keeps: promises grow, votes and proposals stay, and a new vote is in no ballot
  -- below the promise of its acceptor.
  pub record Grows (x y : View V) : Type ℓ where
    pub promised_le : (a : ℕ) → x.promised a ≤ y.promised a
    pub voted_kept : (a b : ℕ) (v : V) → x.Voted a b v → y.Voted a b v
    pub proposed_kept : (b : ℕ) (v : V) → x.Proposed b v → y.Proposed b v
    pub new_vote : (a b : ℕ) (v : V) → y.Voted a b v → x.Voted a b v ⊎ (x.promised a ≤ b)

  Frozen-Grows : {x y : View V} (a c : ℕ) → Grows x y → Frozen x a c → Frozen y a c
  Frozen-Grows a c g (low, none_there) = (
    omega (arith, g.promised_le a),
    λ w voted. elim (g.new_vote a c w voted) [
      | inl old ↦ none_there w old
      | inr above ↦ omega arith
    ],
  )

  Safe-Grows : (n : ℕ) {x y : View V} (c : ℕ) (v : V) → Grows x y → Safe n x c v → Safe n y c v
  Safe-Grows n c v g (q, big, fate) = (
    q,
    big,
    λ a below p. elim (fate a below p) [
      | inl voted ↦ inl (g.voted_kept a c v voted)
      | inr frozen ↦ inr (Frozen-Grows a c g frozen)
    ],
  )

  -- A step that makes no proposal keeps soundness, if its votes are for proposals.
  pub IsSound-vote :
      (n : ℕ) {x y : View V}
      → Grows x y
      → ((a b : ℕ) (v : V) → y.Voted a b v → x.Voted a b v ⊎ x.Proposed b v)
      → ((b : ℕ) (v : V) → y.Proposed b v → x.Proposed b v)
      → IsSound n x
      → IsSound n y
  IsSound-vote n g votes same s = record {
    one_value = λ b v w p p'. s.one_value b v w (same b v p) (same b w p');
    voted_proposed = λ a b v p. elim (votes a b v p) [
      | inl old ↦ g.proposed_kept b v (s.voted_proposed a b v old)
      | inr new ↦ g.proposed_kept b v new
    ];
    safe = λ b c v p lt. Safe-Grows n c v g (s.safe b c v (same b v p) lt);
  }

  -- A proposal in a ballot that had none keeps soundness, if it is safe in every earlier ballot.
  pub IsSound-propose :
      (n : ℕ) {x y : View V} (b0 : ℕ) (v0 : V)
      → Grows x y
      → ((a b : ℕ) (v : V) → y.Voted a b v → x.Voted a b v)
      → ((b : ℕ) (v : V) → y.Proposed b v → x.Proposed b v ⊎ (b ≡ b0) × (v ≡ v0))
      → ((v : V) → ¬ x.Proposed b0 v)
      → ((c : ℕ) → c < b0 → Safe n x c v0)
      → IsSound n x
      → IsSound n y
  IsSound-propose n {x} {y} b0 v0 g votes new fresh ready s = record {
    one_value = λ b v w p p'. one b v w (new b v p) (new b w p');
    voted_proposed = λ a b v p. g.proposed_kept b v (s.voted_proposed a b v (votes a b v p));
    safe = λ b c v p lt. Safe-Grows n c v g (safe b c v lt (new b v p));
  }
    where
      one :
          (b : ℕ) (v w : V)
          → x.Proposed b v ⊎ (b ≡ b0) × (v ≡ v0)
          → x.Proposed b w ⊎ (b ≡ b0) × (w ≡ v0)
          → v ≡ w
      one b v w (inl p) (inl p') = s.one_value b v w p p'
      one b v w (inl p) (inr (e, _)) = absurd (fresh v (subst (λ k. x.Proposed k v) e p))
      one b v w (inr (e, _)) (inl p) = absurd (fresh w (subst (λ k. x.Proposed k w) e p))
      one b v w (inr (_, e)) (inr (_, e')) = e ∙ sym e'

      safe : (b c : ℕ) (v : V) → c < b → x.Proposed b v ⊎ (b ≡ b0) × (v ≡ v0) → Safe n x c v
      safe b c v lt (inl p) = s.safe b c v p lt
      safe b c v lt (inr (e, e')) = rw e' (ready c (omega arith))
