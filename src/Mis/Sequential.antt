-- ===== src/Mis/Sequential.antt =====
-- The greedy sets are independent and maximal, whatever the order.
use mini_distributed_computi.Prelude.{
  ℕ, ◌<◌, ◌≡◌, ◌≢◌, ◌⊎◌, refl, sym, ◌∙◌, subst, ◌==◌, Bool, true, false, List, [], ◌∷◌, length,
  length-set, length-replicate, get_or, get_or-set_self, get_or-set_ne, get_or-replicate,
  get_or-out, set, elem, Option, none, some, arith, Bool-cases, Option-cases, inl, inr, ℕ_discrete,
  dec_lt,
}
use mini_distributed_computi.Graph.Types.{Graph, size, neighbors}
use mini_distributed_computi.Graph.Simple.{IsSimple}
use mini_distributed_computi.Coloring.Greedy.{processing_order}
use mini_distributed_computi.Coloring.Sequential.{IsOrder, processing_order-IsOrder}
use mini_distributed_computi.Mis.Types.{Mis, empty_mis, member, some_member, verify}
use mini_distributed_computi.Mis.Greedy.{join, consider, greedy_loop, greedy_sequential}
use mini_distributed_computi.Mis.Dominators.{
  length-dominate, dominate-kept, dominate-source, dominate-covers,
}
use mini_distributed_computi.Mis.Check.{
  some_member-witness, some_member-intro, Independent, Dominated, verify_iff,
}

-- What every step of a greedy loop keeps: the set is independent, and dominators are members next
-- to the nodes that have them; each neighbor of a member has one.
pub record IsPartial (g : Graph) (mis : Mis) : Type 0 where
  pub same_size : length mis.in_mis ≡ size g
  pub doms_size : length mis.dominator ≡ size g
  pub independent : Independent g mis.in_mis
  pub dominator_sound :
      (u x : ℕ)
      → get_or mis.dominator u none ≡ some x
      → (member mis.in_mis x ≡ true) × (elem u (neighbors g x) ≡ true)
  pub dominator_known :
      (u x : ℕ)
      → member mis.in_mis x ≡ true
      → elem u (neighbors g x) ≡ true
      → get_or mis.dominator u none ≢ none

-- the members of a set after one node joined
pub member-set :
    (set_ : List Bool) (v u : ℕ)
    → member (set set_ v true) u ≡ true
    → (v ≡ u) ⊎ (member set_ u ≡ true)
member-set set_ v u h = elim (ℕ_discrete v u) [
  | yes e ↦ inl e
  | no ne ↦ inr (sym (get_or-set_ne set_ v u true false ne) ∙ h)
]

pub member-kept :
    (set_ : List Bool) (v u : ℕ) → member set_ u ≡ true → member (set set_ v true) u ≡ true
member-kept set_ v u h = elim (ℕ_discrete v u) [
  | no ne ↦ get_or-set_ne set_ v u true false ne ∙ h
  | yes e ↦
      subst (λ k. member (set set_ v true) k ≡ true) e
        (get_or-set_self set_ v true false (inside (subst (λ k. member set_ k ≡ true) (sym e) h)))
]
  where
    inside : member set_ v ≡ true → v < length set_
    inside h = elim (dec_lt v (length set_)) [
      | yes lt ↦ lt
      | no ge ↦ absurd (cc (get_or-out set_ v false (omega arith), h))
    ]

pub Independent-set :
    (g : Graph) (set_ : List Bool) (v : ℕ)
    → IsSimple g
    → some_member set_ (neighbors g v) ≡ false
    → Independent g set_
    → Independent g (set set_ v true)
Independent-set g set_ v simple clear free u w edge mu mw = elim (member-set set_ v u mu) [
  | inl e ↦ elim (member-set set_ v w mw) [
    | inl e' ↦ cc (simple.no_loop v, edge, e, e')
    | inr old ↦ cc (
      clear,
      some_member-intro set_ (neighbors g v) w
          (subst (λ k. elem w (neighbors g k) ≡ true) (sym e) edge) old,
    )
  ]
  | inr old ↦ elim (member-set set_ v w mw) [
    | inl e' ↦ cc (
      clear,
      some_member-intro set_ (neighbors g v) u
          (simple.both_ways u v (subst (λ k. elem k (neighbors g u) ≡ true) (sym e') edge)) old,
    )
    | inr old' ↦ free u w edge old old'
  ]
]

module _ (g : Graph) (simple : IsSimple g) (mis : Mis) (v : ℕ) (inside : v < size g)
    (part : IsPartial g mis) where
  join-IsPartial : some_member mis.in_mis (neighbors g v) ≡ false → IsPartial g (join g mis v)
  join-IsPartial clear = record {
    same_size = length-set mis.in_mis v true ∙ part.same_size;
    doms_size = length-dominate v (neighbors g v) mis.dominator ∙ part.doms_size;
    independent = Independent-set g mis.in_mis v simple clear part.independent;
    dominator_sound = λ u x h.
        elim (dominate-source v (neighbors g v) u x mis.dominator
          (λ w edge. omega (arith, part.doms_size, simple.in_range v w edge)) h) [
            | inl old ↦
                let (is_member, edge) = part.dominator_sound u x old in
                (member-kept mis.in_mis v x is_member, edge)
            | inr (e, edge) ↦ (
              subst (λ k. member (set mis.in_mis v true) k ≡ true) (sym e)
                  (get_or-set_self mis.in_mis v true false (omega (arith, part.same_size))),
              subst (λ k. elem u (neighbors g k) ≡ true) (sym e) edge,
            )
          ];
    dominator_known = λ u x mx edge. elim (member-set mis.in_mis v x mx) [
      | inl e ↦
          dominate-covers v (neighbors g v) u mis.dominator
            (omega (arith, part.doms_size, simple.in_range x u edge))
            (subst (λ k. elem u (neighbors g k) ≡ true) (sym e) edge)
      | inr old ↦ elim (Option-cases (get_or mis.dominator u none)) [
        | inl nobody ↦ absurd (part.dominator_known u x old edge nobody)
        | inr (y, has) ↦
            λ nobody. cc (nobody, dominate-kept v (neighbors g v) u y mis.dominator has)
      ]
    ];
  }

  pub consider-IsPartial : IsPartial g (consider g mis v)
  consider-IsPartial = elim (Bool-cases (some_member mis.in_mis (neighbors g v))) [
    | inl blocked ↦ rw blocked part
    | inr clear ↦ rw clear (join-IsPartial clear)
  ]

  pub consider-Dominated : Dominated g (consider g mis v).in_mis v
  consider-Dominated = elim (Bool-cases (some_member mis.in_mis (neighbors g v))) [
    | inl blocked ↦ rw blocked (inr blocked)
    | inr clear ↦
        rw clear (inl (get_or-set_self mis.in_mis v true false (omega (arith, part.same_size))))
  ]

-- Sets only grow.
pub Dominated-grow :
    (g : Graph) (a b : List Bool) (u : ℕ)
    → ((w : ℕ) → member a w ≡ true → member b w ≡ true)
    → Dominated g a u
    → Dominated g b u
Dominated-grow g a b u grow (inl is_member) = inl (grow u is_member)
Dominated-grow g a b u grow (inr there) =
    let (x, edge, mx) = some_member-witness a (neighbors g u) there in
    inr (some_member-intro b (neighbors g u) x edge (grow x mx))

pub consider-grow :
    (g : Graph) (mis : Mis) (v w : ℕ)
    → member mis.in_mis w ≡ true
    → member (consider g mis v).in_mis w ≡ true
consider-grow g mis v w h = elim (Bool-cases (some_member mis.in_mis (neighbors g v))) [
  | inl blocked ↦ rw blocked h
  | inr clear ↦ rw clear (member-kept mis.in_mis v w h)
]

-- What a loop makes of a set: nodes in `over` are dominated afterwards, and those that were stay so.
abbrev pub Covers : Graph → Mis → Mis → (ℕ → Type 0) → Type 0
Covers g mis new over =
    IsPartial g new
    × ((w : ℕ) → member mis.in_mis w ≡ true → member new.in_mis w ≡ true)
    × ((u : ℕ) → over u → Dominated g new.in_mis u)

greedy_loop-Covers :
    (g : Graph) (order : List ℕ) (mis : Mis)
    → IsSimple g
    → ((v : ℕ) → elem v order ≡ true → v < size g)
    → IsPartial g mis
    → Covers g mis (greedy_loop g order mis) (λ u. elem u order ≡ true)
unfolding greedy_loop
greedy_loop-Covers g [] mis simple inside part = (part, λ w h. h, λ u h. absurd (ground arith))
greedy_loop-Covers g (v ∷ order) mis simple inside part =
    let low : v < size g = inside v (ground arith) in
    let (rest, grow, cover) =
      greedy_loop-Covers g order (consider g mis v) simple (λ w h. inside w (ground arith))
        (consider-IsPartial g simple mis v low part) in
    (
      rest,
      λ w h. grow w (consider-grow g mis v w h),
      λ u h. elim (ℕ_discrete u v) [
        | no ne ↦ cover u (ground arith)
        | yes e ↦ Dominated-grow g (consider g mis v).in_mis _ u grow (
            subst (Dominated g (consider g mis v).in_mis) (sym e)
              (consider-Dominated g simple mis v low part))
      ],
    )

pub empty_mis-IsPartial : (g : Graph) → IsPartial g (empty_mis (size g))
empty_mis-IsPartial g = record {
  same_size = length-replicate (size g) false;
  doms_size = length-replicate {A = Option ℕ} (size g) none;
  independent = λ u v edge mu. absurd (cc (get_or-replicate (size g) false u, mu));
  dominator_sound = λ u x h. absurd (cc (get_or-replicate {A = Option ℕ} (size g) none u, h));
  dominator_known = λ u x mx. absurd (cc (get_or-replicate (size g) false x, mx));
}

-- `mis_verify` accepts the set, and the dominators are as `IsPartial` says.
pub record IsMis (g : Graph) (mis : Mis) : Type 0 where
  pub verified : verify g mis ≡ true
  pub partial : IsPartial g mis

pub Covers-IsMis :
    (g : Graph) (mis new : Mis) (over : ℕ → Type 0)
    → Covers g mis new over
    → ((u : ℕ) → u < size g → over u)
    → IsMis g new
Covers-IsMis g mis new over (part, _, cover) all = record {
  verified =
      (verify_iff g new).1 (sym part.same_size, part.independent, λ u lt. cover u (all u lt));
  partial = part;
}

-- The greedy set of a simple graph with nodes, in any order of all of them, is returned, and
-- `mis_verify` accepts it: it is independent and maximal. A node's dominator is a neighbor of it in
-- the set, and each neighbor of a member has one.
pub greedy_sequential-IsMis :
    (g : Graph) (order : Option (List ℕ))
    → IsSimple g
    → 0 < size g
    → IsOrder g order
    → (mis : Mis) × (greedy_sequential g order ≡ some mis) × IsMis g mis
unfolding greedy_sequential
greedy_sequential-IsMis g order simple some_node ok =
    let covers = processing_order-IsOrder g order ok in
    let nonempty : (size g == 0) ≡ false = ground arith in
    (
      greedy_loop g (processing_order g order) (empty_mis (size g)),
      rw nonempty refl,
      Covers-IsMis g (empty_mis (size g)) _ _
          (greedy_loop-Covers g (processing_order g order) (empty_mis (size g)) simple
            (λ v h. (covers v).0 h) (empty_mis-IsPartial g))
          (λ u lt. (covers u).1 lt),
    )
