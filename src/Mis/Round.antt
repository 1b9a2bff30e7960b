-- ===== src/Mis/Round.antt =====
-- One round of Luby's algorithm, whatever the ranks: the set stays independent, and a node is
-- inactive exactly when it or a neighbor is in the set.
use mini_distributed_computi.Prelude.{
  ℕ, zero, suc, ◌<◌, ◌≡◌, refl, sym, ◌∙◌, ap, subst, ◌==◌, Bool, true, false, ◌&&◌, ◌||◌, not, List,
  [], ◌∷◌, length, length-set, get_or-set_self, get_or-set_ne, get_or-out, set, elem, arith,
  Bool-cases, inl, inr, ℕ_discrete, dec_lt,
}
use mini_distributed_computi.Graph.Types.{Graph, size, neighbors}
use mini_distributed_computi.Graph.Simple.{IsSimple}
use mini_distributed_computi.Mis.Types.{member, some_member}
use mini_distributed_computi.Mis.Check.{
  some_member-witness, some_member-intro, Independent, Dominated,
}
use mini_distributed_computi.Mis.Sequential.{
  member-set, member-kept, Independent-set, Dominated-grow,
}
use mini_distributed_computi.Mis.Luby.{is_top, deactivate, Round, join_round, visit, round_loop}

and_true : (b : Bool) → b ≡ (b && true)
and_true true = refl
and_true false = refl

and_false : (b : Bool) → (b && false) ≡ false
and_false true = refl
and_false false = refl

and_not_or : (p q r : Bool) → ((p && not q) && not r) ≡ (p && not (q || r))
and_not_or true true r = refl
and_not_or true false r = refl
and_not_or false q r = refl

member-clear : (a : List Bool) (w u : ℕ) → member (set a w false) u ≡ (member a u && not (u == w))
member-clear a w u = elim (ℕ_discrete w u) [
  | no ne ↦
      let other : (u == w) ≡ false = ground arith in
      get_or-set_ne a w u false false ne ∙ rw other (and_true (member a u))
  | yes e ↦
      let same : (u == w) ≡ true = ground arith in
      subst (λ k. member (set a w false) k ≡ false) e cleared
      ∙ rw same (sym (and_false (member a u)))
]
  where
    cleared : member (set a w false) w ≡ false
    cleared = elim (dec_lt w (length a)) [
      | yes lt ↦ get_or-set_self a w false false lt
      | no ge ↦ get_or-out (set a w false) w false (omega (arith, length-set a w false))
    ]

pub length-deactivate : (ws : List ℕ) (a : List Bool) → length (deactivate ws a) ≡ length a
unfolding deactivate
length-deactivate [] a = refl
length-deactivate (w ∷ ws) a = length-deactivate ws (set a w false) ∙ length-set a w false

pub member-deactivate :
    (ws : List ℕ) (a : List Bool) (u : ℕ)
    → member (deactivate ws a) u ≡ (member a u && not (elem u ws))
unfolding deactivate
member-deactivate [] a u = and_true (member a u)
member-deactivate (w ∷ ws) a u =
    member-deactivate ws (set a w false) u
    ∙ ap (λ b. b && not (elem u ws)) (member-clear a w u)
    ∙ and_not_or (member a u) (u == w) (elem u ws)

-- What a round keeps.
pub record IsRound (g : Graph) (r : Round) : Type 0 where
  pub active_size : length r.active ≡ size g
  pub set_size : length r.in_mis ≡ size g
  pub independent : Independent g r.in_mis
  pub idle : (u : ℕ) → member r.in_mis u ≡ true → member r.active u ≡ false
  pub idle_near :
      (u w : ℕ)
      → member r.in_mis u ≡ true
      → elem w (neighbors g u) ≡ true
      → member r.active w ≡ false
  pub settled : (u : ℕ) → u < size g → member r.active u ≡ false → Dominated g r.in_mis u

module _ (g : Graph) (simple : IsSimple g) (r : Round) (v : ℕ) (inv : IsRound g r)
    (alive : member r.active v ≡ true) where
  inside : v < size g
  inside = elim (dec_lt v (size g)) [
    | yes lt ↦ lt
    | no ge ↦ absurd (cc (alive, get_or-out r.active v false (omega (arith, inv.active_size))))
  ]

  -- An active node has no neighbor in the set.
  pub nobody_near : some_member r.in_mis (neighbors g v) ≡ false
  nobody_near = elim (Bool-cases (some_member r.in_mis (neighbors g v))) [
    | inr clear ↦ clear
    | inl there ↦
        let (x, edge, mx) = some_member-witness r.in_mis (neighbors g v) there in
        absurd (cc (inv.idle_near x v mx (simple.both_ways v x edge), alive))
  ]

  active-join :
      (u : ℕ)
      → member (join_round g r v).active u
        ≡ ((member r.active u && not (u == v)) && not (elem u (neighbors g v)))
  active-join u =
      member-deactivate (neighbors g v) (set r.active v false) u
      ∙ ap (λ b. b && not (elem u (neighbors g v))) (member-clear r.active v u)

  joined_member : member (set r.in_mis v true) v ≡ true
  joined_member = get_or-set_self r.in_mis v true false (omega (arith, inv.set_size, inside))

  pub join_round-IsRound : IsRound g (join_round g r v)
  join_round-IsRound = record {
    active_size =
        length-deactivate (neighbors g v) (set r.active v false)
        ∙ length-set r.active v false
        ∙ inv.active_size;
    set_size = length-set r.in_mis v true ∙ inv.set_size;
    independent = Independent-set g r.in_mis v simple nobody_near inv.independent;
    idle = λ u mu. elim (member-set r.in_mis v u mu) [
      | inl e ↦ let same : (u == v) ≡ true = ground arith in active-join u ∙ rw same (ground arith)
      | inr old ↦ active-join u ∙ rw (inv.idle u old) refl
    ];
    idle_near = λ u w mu edge. elim (member-set r.in_mis v u mu) [
      | inl e ↦
          let near : elem w (neighbors g v) ≡ true =
            subst (λ k. elem w (neighbors g k) ≡ true) (sym e) edge in
          active-join w ∙ rw near (and_false (member r.active w && not (w == v)))
      | inr old ↦ active-join w ∙ rw (inv.idle_near u w old edge) refl
    ];
    settled = λ u lt off. elim (Bool-cases (member r.active u)) [
      | inr old ↦ Dominated-grow g r.in_mis _ u (member-kept r.in_mis v) (inv.settled u lt old)
      | inl on ↦ elim (ℕ_discrete u v) [
        | yes e ↦ inl (subst (λ k. member (set r.in_mis v true) k ≡ true) (sym e) joined_member)
        | no ne ↦
            let gone = sym (active-join u) ∙ off in
            let near : elem u (neighbors g v) ≡ true = ground arith in
            inr (
              some_member-intro (set r.in_mis v true) (neighbors g u) v (simple.both_ways v u near)
                joined_member)
      ]
    ];
  }

-- A round keeps `IsRound`.
pub round_loop-IsRound :
    (g : Graph) (ranks : List ℕ) (f v : ℕ) (r : Round)
    → IsSimple g
    → IsRound g r
    → IsRound g (round_loop g ranks f v r)
unfolding round_loop
round_loop-IsRound g ranks zero v r simple inv = inv
round_loop-IsRound g ranks (suc f) v r simple inv =
    round_loop-IsRound g ranks f (suc v) (visit g ranks r v) simple visited
  where
    visited : IsRound g (visit g ranks r v)
    visited = elim (Bool-cases (member r.active v)) [
      | inr off ↦ rw off inv
      | inl on ↦ elim (Bool-cases (is_top r.active ranks v (neighbors g v))) [
        | inl top ↦ rw (on, top) (join_round-IsRound g simple r v inv on)
        | inr under ↦ rw (on, under) inv
      ]
    ]
