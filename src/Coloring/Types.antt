-- ===== src/Coloring/Types.antt =====
-- mini-coloring-mis-lower-bounds/src/graph_utils.c: colorings and the tests on them.
-- A color is `none` where the source has INVALID_COLOR; nothing stores another negative one.
use mini_distributed_computi.Prelude.{
  ℕ, zero, suc, ◌+◌, ltb, ◌==◌, if◌then◌else◌, Bool, true, false, ◌&&◌, ◌||◌, not, List, [], ◌∷◌,
  length, get_or, replicate, Option, none, some,
}
use mini_distributed_computi.Graph.Types.{Graph, size, neighbors}

-- `Coloring`
pub record Coloring : Type 0 where
  pub colors : List (Option ℕ)
  pub num_colors : ℕ

abbrev pub uncolored : ℕ → Coloring
uncolored n = record { colors = replicate n none; num_colors = 0 }

-- `coloring_create`
unfoldable pub coloring_create : ℕ → Option Coloring
coloring_create n = if n == 0 then none else some (uncolored n)

-- `c->colors[v]`
abbrev pub color : List (Option ℕ) → ℕ → Option ℕ
color colors v = get_or colors v none

-- `color == x`
abbrev pub has_color : Option ℕ → ℕ → Bool
has_color none x = false
has_color (some y) x = y == x

-- some node of `ws` has color `x`
unfoldable pub taken : List (Option ℕ) → List ℕ → ℕ → Bool
taken colors [] x = false
taken colors (w ∷ ws) x = has_color (color colors w) x || taken colors ws x

-- the neighbors of one node do not have its color
abbrev pub no_clash : List (Option ℕ) → Option ℕ → List ℕ → Bool
no_clash colors none ws = true
no_clash colors (some x) ws = not (taken colors ws x)

-- the nodes `u`, `u + 1`, …, of which `f` are left
unfoldable pub proper_loop : Graph → List (Option ℕ) → ℕ → ℕ → Bool
unfolding taken
proper_loop g colors zero u = true
proper_loop g colors (suc f) u =
    no_clash colors (color colors u) (neighbors g u) && proper_loop g colors f (suc u)

-- `coloring_is_proper`
unfoldable pub is_proper : Graph → Coloring → Bool
unfolding proper_loop
is_proper g c = size g == length c.colors && proper_loop g c.colors (size g) 0

-- the loop of `coloring_num_colors_used`; `bound` is `max_c + 1`
unfoldable pub used_loop : List (Option ℕ) → ℕ → ℕ
used_loop [] bound = bound
used_loop (none ∷ cs) bound = used_loop cs bound
used_loop (some x ∷ cs) bound = used_loop cs (if ltb bound (x + 1) then x + 1 else bound)

-- `coloring_num_colors_used`
unfoldable pub num_colors_used : Coloring → ℕ
unfolding used_loop
num_colors_used c = used_loop c.colors 0
