-- ===== src/Indexer/Pruning.antt =====
-- `Prune` of indexer/indexer.go: on each tick of its ticker it asks thoughtd to prune blocks that are
-- deep enough below the head.
use rosetta_thought.Prelude.{
  ◌≡◌, ◌↔◌, refl, ap, ◌∙◌, sym, Option, none, some, List, [], ◌∷◌, All, true, false, Bool-cases,
  Option-cases, inl, inr, ◌⊎◌, arith, if◌then◌else◌,
}
use rosetta_thought.Prelude.Int.{
  ℤ, ◌+ℤ◌, ◌-ℤ◌, int64, IsInt64, int64_of_IsInt64, leb_ℤ, neg_part, eq_of_parts, +ℤ_parts, -ℤ_parts,
}
use rosetta_thought.Outcome.{Outcome, err}
use rosetta_thought.Sdk.{BlockIdentifier, Failure}
use rosetta_thought.Configuration.{PruningConfiguration}

unfoldable above : ℤ → ℤ → Option ℤ
above least height = if leb_ℤ height least then none else some height

-- The height that is asked for under a head, if it is above the least one.
unfoldable pub prune_height : PruningConfiguration → BlockIdentifier → Option ℤ
unfolding above
prune_height config head = above config.min_height (int64 (head.index -ℤ config.depth))

abbrev request_after : Option ℤ → List ℤ → List ℤ
request_after none rest = rest
request_after (some height) rest = height ∷ rest

-- The heights that are asked for over the ticks, each with the head of the block storage, or `none`
-- where that fails. An answer of thoughtd is only logged.
unfoldable pub requests : PruningConfiguration → List (Option BlockIdentifier) → List ℤ
requests config [] = []
requests config (none ∷ heads) = requests config heads
requests config (some head ∷ heads) =
    request_after (prune_height config head) (requests config heads)

-- The loop ends only when the context is done, with its error.
unfoldable pub prune :
    PruningConfiguration
    → List (Option BlockIdentifier)
    → Failure
    → List ℤ × Outcome Failure (Unit {0})
prune config heads done = (requests config heads, err done)

-- A height that lies the depth below the head, and above the least height.
abbrev pub IsPrunable : PruningConfiguration → BlockIdentifier → ℤ → Type 0
IsPrunable config head height =
    (height +ℤ config.depth ≡ head.index) × (leb_ℤ height config.min_height ≡ false)

-- The index of the head and the depth are not negative.
abbrev pub InRange : PruningConfiguration → BlockIdentifier → Type 0
InRange config head =
    (neg_part head.index ≡ 0)
    × IsInt64 head.index
    × (neg_part config.depth ≡ 0)
    × IsInt64 config.depth

difference-IsInt64 :
    (config : PruningConfiguration) (head : BlockIdentifier)
    → InRange config head
    → IsInt64 (head.index -ℤ config.depth)
unfolding ◌-ℤ◌
difference-IsInt64 config head range = ground (arith, range)

add_back : (a b : ℤ) → (a -ℤ b) +ℤ b ≡ a
add_back a b = eq_of_parts ((a -ℤ b) +ℤ b) a (omega (arith, +ℤ_parts (a -ℤ b) b, -ℤ_parts a b))

take_back : (a b c : ℤ) → a +ℤ b ≡ c → c -ℤ b ≡ a
take_back a b c h =
    rw (sym h) (eq_of_parts ((a +ℤ b) -ℤ b) a (omega (arith, -ℤ_parts (a +ℤ b) b, +ℤ_parts a b)))

some_same : {A : Type 0} {a b : A} → some a ≡ some b → a ≡ b
some_same h = cc

above-low : (least height : ℤ) → leb_ℤ height least ≡ true → above least height ≡ none
unfolding above
above-low least height low = rw low refl

above-high : (least height : ℤ) → leb_ℤ height least ≡ false → above least height ≡ some height
unfolding above
above-high least height high = rw high refl

above_iff :
    (least height asked : ℤ)
    → (above least height ≡ some asked) ↔ ((height ≡ asked) × (leb_ℤ asked least ≡ false))
above_iff least height asked = (
  λ h. elim (Bool-cases (leb_ℤ height least)) [
    | inl low ↦ absurd (let none_asked = above-low least height low in cc)
    | inr high ↦
        let same : height ≡ asked = some_same (sym (above-high least height high) ∙ h) in
        (same, rw (sym same) high)
  ],
  λ h. let high = above-high least asked h.1 in rw h.0 high,
)

-- Under a head in range, a height is asked for exactly if it lies the depth below the head and above
-- the least height.
pub prune_height_iff :
    (config : PruningConfiguration) (head : BlockIdentifier) (height : ℤ)
    → InRange config head
    → (prune_height config head ≡ some height) ↔ IsPrunable config head height
unfolding prune_height
prune_height_iff config head height range =
    rw (int64_of_IsInt64 (head.index -ℤ config.depth) (difference-IsInt64 config head range)) (
      let (down, up) = above_iff config.min_height (head.index -ℤ config.depth) height in
      (
        λ asked.
            let (same, high) = down asked in
            (ap (λ h. h +ℤ config.depth) (sym same) ∙ add_back head.index config.depth, high),
        λ prunable. up (take_back height config.depth head.index prunable.0, prunable.1),
      ))

-- Some head allows the height.
abbrev pub Allowed : PruningConfiguration → List (Option BlockIdentifier) → ℤ → Type 0
Allowed config [] height = ⊥
Allowed config (none ∷ heads) height = Allowed config heads height
Allowed config (some head ∷ heads) height =
    IsPrunable config head height ⊎ Allowed config heads height

abbrev pub HeadInRange : PruningConfiguration → Option BlockIdentifier → Type 0
HeadInRange config none = Unit
HeadInRange config (some head) = InRange config head

Allowed-later :
    (config : PruningConfiguration) (head : BlockIdentifier) (heads : List (Option BlockIdentifier))
    (heights : List ℤ)
    → All (Allowed config heads) heights
    → All (Allowed config (some head ∷ heads)) heights
Allowed-later config head heads [] allowed = tt
Allowed-later config head heads (height ∷ heights) allowed =
    (inr allowed.0, Allowed-later config head heads heights allowed.1)

requests-Allowed :
    (config : PruningConfiguration) (heads : List (Option BlockIdentifier))
    → All (HeadInRange config) heads
    → All (Allowed config heads) (requests config heads)
unfolding requests
requests-Allowed config [] range = tt
requests-Allowed config (none ∷ heads) range = requests-Allowed config heads range.1
requests-Allowed config (some head ∷ heads) range =
    let rest =
      Allowed-later config head heads (requests config heads)
        (requests-Allowed config heads range.1) in
    elim (Option-cases (prune_height config head)) [
      | inl quiet ↦ rw quiet rest
      | inr (height, asked) ↦
          rw asked (inl ((prune_height_iff config head height range.0).0 asked), rest)
    ]

-- If the heads are in range, each height that is asked for over the run of the loop lies the depth
-- below one of the heads and above the least height.
pub prune-Allowed :
    (config : PruningConfiguration) (heads : List (Option BlockIdentifier)) (done : Failure)
    → All (HeadInRange config) heads
    → All (Allowed config heads) (prune config heads done).0
unfolding prune
prune-Allowed config heads done range = requests-Allowed config heads range
