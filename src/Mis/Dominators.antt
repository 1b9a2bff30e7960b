-- ===== src/Mis/Dominators.antt =====
-- What `dominate` does to the array of dominators.
use mini_distributed_computi.Prelude.{
  ℕ, ◌<◌, ◌≡◌, ◌≢◌, ◌⊎◌, refl, sym, ◌∙◌, subst, true, List, [], ◌∷◌, length, get_or, set,
  get_or-set_self, get_or-set_ne, length-set, elem, Option, none, some, Option-cases, arith, inl,
  inr, ℕ_discrete,
}
use mini_distributed_computi.Mis.Greedy.{dominator_of, dominate}

-- one turn of the loop
abbrev mark : ℕ → ℕ → List (Option ℕ) → List (Option ℕ)
mark v w doms = dominator_of (get_or doms w none) v w doms

mark-cases :
    (v w : ℕ) (doms : List (Option ℕ))
    → (get_or doms w none ≡ none) × (mark v w doms ≡ set doms w (some v))
      ⊎ ((x : ℕ) × (get_or doms w none ≡ some x)) × (mark v w doms ≡ doms)
mark-cases v w doms = elim (Option-cases (get_or doms w none)) [
  | inl e ↦ rw e (inl (refl, refl))
  | inr (x, e) ↦ rw e (inr ((x, refl), refl))
]

length-mark : (v w : ℕ) (doms : List (Option ℕ)) → length (mark v w doms) ≡ length doms
length-mark v w doms = elim (mark-cases v w doms) [
  | inl (_, e) ↦ rw e (length-set doms w (some v))
  | inr (_, e) ↦ rw e refl
]

pub length-dominate :
    (v : ℕ) (ws : List ℕ) (doms : List (Option ℕ)) → length (dominate v ws doms) ≡ length doms
unfolding dominate
length-dominate v [] doms = refl
length-dominate v (w ∷ ws) doms = length-dominate v ws (mark v w doms) ∙ length-mark v w doms

mark-kept :
    (v w u x : ℕ) (doms : List (Option ℕ))
    → get_or doms u none ≡ some x
    → get_or (mark v w doms) u none ≡ some x
mark-kept v w u x doms h = elim (mark-cases v w doms) [
  | inr (_, e) ↦ rw e h
  | inl (free, e) ↦ elim (ℕ_discrete w u) [
    | yes f ↦ absurd (cc (free, h, f))
    | no ne ↦ rw e (get_or-set_ne doms w u (some v) none ne ∙ h)
  ]
]

pub dominate-kept :
    (v : ℕ) (ws : List ℕ) (u x : ℕ) (doms : List (Option ℕ))
    → get_or doms u none ≡ some x
    → get_or (dominate v ws doms) u none ≡ some x
unfolding dominate
dominate-kept v [] u x doms h = h
dominate-kept v (w ∷ ws) u x doms h =
    dominate-kept v ws u x (mark v w doms) (mark-kept v w u x doms h)

mark-source :
    (v w u x : ℕ) (doms : List (Option ℕ))
    → w < length doms
    → get_or (mark v w doms) u none ≡ some x
    → (get_or doms u none ≡ some x) ⊎ ((x ≡ v) × (u ≡ w))
mark-source v w u x doms lt = elim (mark-cases v w doms) [
  | inr (_, e) ↦ rw e (λ h. inl h)
  | inl (free, e) ↦ rw e (λ h. elim (ℕ_discrete w u) [
    | no ne ↦ inl (sym (get_or-set_ne doms w u (some v) none ne) ∙ h)
    | yes f ↦ inr (
      cc (
        get_or-set_self doms w (some v) none lt,
        subst (λ k. get_or (set doms w (some v)) k none ≡ some x) (sym f) h,
      ),
      sym f,
    )
  ])
]

-- A dominator after the loop was there before, or is the new one.
pub dominate-source :
    (v : ℕ) (ws : List ℕ) (u x : ℕ) (doms : List (Option ℕ))
    → ((w : ℕ) → elem w ws ≡ true → w < length doms)
    → get_or (dominate v ws doms) u none ≡ some x
    → (get_or doms u none ≡ some x) ⊎ ((x ≡ v) × (elem u ws ≡ true))
unfolding dominate
dominate-source v [] u x doms inside h = inl h
dominate-source v (w ∷ ws) u x doms inside h =
    elim (dominate-source v ws u x (mark v w doms)
      (λ k member. omega (arith, length-mark v w doms, inside k (ground arith))) h) [
        | inr (e, later) ↦ inr (e, ground arith)
        | inl earlier ↦ elim (mark-source v w u x doms (inside w (ground arith)) earlier) [
          | inl old ↦ inl old
          | inr (e, f) ↦ inr (e, ground arith)
        ]
      ]

mark-covers :
    (v w : ℕ) (doms : List (Option ℕ))
    → w < length doms
    → (x : ℕ) × (get_or (mark v w doms) w none ≡ some x)
mark-covers v w doms lt = elim (mark-cases v w doms) [
  | inr ((x, old), e) ↦ (x, rw e old)
  | inl (_, e) ↦ (v, rw e (get_or-set_self doms w (some v) none lt))
]

-- The nodes of `ws` have a dominator after the loop.
pub dominate-covers :
    (v : ℕ) (ws : List ℕ) (u : ℕ) (doms : List (Option ℕ))
    → u < length doms
    → elem u ws ≡ true
    → get_or (dominate v ws doms) u none ≢ none
unfolding dominate
dominate-covers v [] u doms lt h = absurd (ground arith)
dominate-covers v (w ∷ ws) u doms lt h = elim (ℕ_discrete u w) [
  | no ne ↦
      dominate-covers v ws u (mark v w doms) (omega (arith, length-mark v w doms)) (ground arith)
  | yes e ↦
      let (x, has) = mark-covers v w doms (omega arith) in
      subst (λ k. get_or (dominate v ws (mark v w doms)) k none ≢ none) (sym e)
        (λ nobody. absurd (cc (nobody, dominate-kept v ws w x (mark v w doms) has)))
]
