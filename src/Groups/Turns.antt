-- ===== src/Groups/Turns.antt =====
-- Whose turn it is to loot.
use project_dawn_server.Groups.{
  is_round_robin, Group, pick_from, group_of, GroupManager, next_loot_turn,
}
use native.Mathlib.Nat.{mod-lt, mod-eq_of_lt, mod-add-mod, add-mod_right}
use project_dawn_server.Base.{
  [], ◌∷◌, subst, ap, ◌∙◌, sym, suc, refl, ◌-◌, true, not, leb, false, inr, get_or, Bool-cases,
  some, none, arith, ◌≡◌, inl, length, Option-cases, Option, ◌%◌, List, ◌+◌, Bool, ◌<◌, ℕ,
}

-- Every index is some offset away from the pointer.
offset_of : (turn n j : ℕ) → j < n → (o : ℕ) × (o < n) × ((turn + o) % n ≡ j)
offset_of turn n j low =
    let r = turn % n in
    let below : r < n = mod-lt turn (omega arith) in
    elim (Bool-cases (leb r j)) [
      | inl up ↦ (
        j - r,
        omega arith,
        sym (mod-add-mod turn n (j - r)) ∙ ap (λ t. t % n) (ground (arith, up)) ∙ mod-eq_of_lt low,
      )
      | inr down ↦ (
        j + n - r,
        ground (arith, down, below),
        sym (mod-add-mod turn n (j + n - r))
            ∙ ap (λ t. t % n) (omega (arith, below))
            ∙ add-mod_right j n
            ∙ mod-eq_of_lt low,
      )
    ]

module _ (eligible : ℕ → Bool) (members : List ℕ) (turn : ℕ) where
  pick_from-none :
      (offset left o : ℕ)
      → pick_from eligible members turn offset left ≡ none
      → o < left
      → eligible (get_or members ((turn + (offset + o)) % length members) 0) ≡ false
  pick_from-none offset ℕ.zero o h low = absurd (omega arith)
  pick_from-none offset (ℕ.suc left) ℕ.zero h low =
      let same : offset + 0 ≡ offset = omega arith in rw same (ground (arith, h))
  pick_from-none offset (ℕ.suc left) (ℕ.suc o) h low =
      let same : offset + suc o ≡ suc offset + o = omega arith in
      rw same (pick_from-none (suc offset) left o (ground (arith, h)) (omega arith))

  -- The member that many places past the pointer does not take the turn.
  abbrev Passed : ℕ → Type 0
  Passed o = eligible (get_or members ((turn + o) % length members) 0) ≡ false

  -- The index is that many places past the pointer, and everyone from the offset to it is passed.
  abbrev FirstFrom : ℕ → ℕ → Type 0
  FirstFrom offset idx =
      (o : ℕ) × (idx ≡ (turn + (offset + o)) % length members)
      × ((p : ℕ) → p < o → Passed (offset + p))

  before-Passed :
      (offset o : ℕ)
      → Passed offset
      → ((p : ℕ) → p < o → Passed (suc offset + p))
      → (p : ℕ) → p < suc o
      → Passed (offset + p)
  before-Passed offset o here later ℕ.zero low =
      let same : offset + 0 ≡ offset = omega arith in rw same here
  before-Passed offset o here later (ℕ.suc p) low =
      let same : offset + suc p ≡ suc offset + p = omega arith in
      rw same (later p (omega (arith, low)))

  pick_from-first :
      (offset left idx cand : ℕ)
      → pick_from eligible members turn offset left ≡ some (idx, cand)
      → FirstFrom offset idx
  pick_from-first offset ℕ.zero idx cand h = cc
  pick_from-first offset (ℕ.suc left) idx cand h =
      let here = (turn + offset) % length members in
      elim (Bool-cases (eligible (get_or members here 0))) [
        | inl takes ↦
            let at : idx ≡ here = ground (arith, h, takes) in
            let same : offset + 0 ≡ offset = omega arith in
            (0, rw same at, λ p low. absurd (omega (arith, low)))
        | inr passed ↦
            let (o, at, later) =
              pick_from-first (suc offset) left idx cand (ground (arith, h, passed)) in
            let same : offset + suc o ≡ suc offset + o = omega arith in
            (suc o, rw same at, before-Passed offset o passed later)
      ]

  pick_from-some :
      (offset left idx cand : ℕ)
      → 0 < length members
      → pick_from eligible members turn offset left ≡ some (idx, cand)
      → (idx < length members) × (get_or members idx 0 ≡ cand) × (eligible cand ≡ true)
  pick_from-some offset ℕ.zero idx cand pos h = cc
  pick_from-some offset (ℕ.suc left) idx cand pos h =
      ground (arith, h, mod-lt (turn + offset) pos, pick_from-some (suc offset) left idx cand pos)

-- The index is the first place from the pointer on, around the members, whose member is eligible.
abbrev pub IsTurn : (ℕ → Bool) → List ℕ → ℕ → ℕ → Type 0
IsTurn eligible members turn idx =
    (o : ℕ) × (idx ≡ (turn + o) % length members)
    × ((p : ℕ) → p < o → eligible (get_or members ((turn + p) % length members) 0) ≡ false)

first-IsTurn :
    (eligible : ℕ → Bool) (members : List ℕ) (turn idx cand : ℕ)
    → pick_from eligible members turn 0 (length members) ≡ some (idx, cand)
    → IsTurn eligible members turn idx
first-IsTurn eligible members turn idx cand picked =
    let (o, at, passed) =
      pick_from-first eligible members turn 0 (length members) idx cand picked in
    let plain : (n : ℕ) → 0 + n ≡ n = λ n. omega arith in
    (
      o,
      at ∙ ap (λ t. (turn + t) % length members) (plain o),
      λ p low.
          subst (λ t. eligible (get_or members ((turn + t) % length members) 0) ≡ false) (plain p)
            (passed p low),
    )

-- A rotation that picks nobody has asked every member.
all_refused :
    (eligible : ℕ → Bool) (members : List ℕ) (turn : ℕ)
    → pick_from eligible members turn 0 (length members) ≡ none
    → (i : ℕ) → i < length members
    → eligible (get_or members i 0) ≡ false
all_refused eligible members turn nobody i low =
    let (o, small, there) = offset_of turn (length members) i low in
    let plain : 0 + o ≡ o = omega arith in
    subst (λ t. eligible (get_or members t 0) ≡ false)
      (ap (λ t. (turn + t) % length members) plain ∙ there)
      (pick_from-none eligible members turn 0 (length members) o nobody small)

picked_from_some :
    (eligible : ℕ → Bool) (members : List ℕ) (turn idx cand : ℕ)
    → pick_from eligible members turn 0 (length members) ≡ some (idx, cand)
    → 0 < length members
picked_from_some eligible [] turn idx cand h = cc
picked_from_some eligible (x ∷ xs) turn idx cand h = omega arith

-- In a round-robin group the pick is an eligible member, and the turn moves to the place after theirs;
-- where nobody is picked nothing changes, and no member of such a group is eligible.
abbrev pub Picks : (ℕ → Bool) → ℕ → GroupManager → Option ℕ × GroupManager → Type 0
Picks eligible killer m (none, m') =
    (m' ≡ m)
    × ((g : Group)
        → group_of killer m ≡ some g
        → is_round_robin g.loot_mode ≡ true
        → (i : ℕ) → i < length g.members
        → eligible (get_or g.members i 0) ≡ false)
Picks eligible killer m (some cand, m') =
    (g : Group) × (idx : ℕ) × (group_of killer m ≡ some g)
    × (is_round_robin g.loot_mode ≡ true)
    × (idx < length g.members)
    × (get_or g.members idx 0 ≡ cand)
    × (eligible cand ≡ true)
    × IsTurn eligible g.members g.loot_turn idx
    × (group_of killer m' ≡ some (record g { loot_turn = (idx + 1) % length g.members }))

-- A loot turn that is given goes to the first eligible member of the round-robin group of the
-- killer from the pointer on, around the members, and moves the pointer to the place after
-- theirs; where none is given nothing changes, and no member of such a group is eligible.
pub next_loot_turn-Picks :
    (eligible : ℕ → Bool) (killer : ℕ) (m : GroupManager)
    → Picks eligible killer m (next_loot_turn killer eligible m)
unfolding next_loot_turn group_of
next_loot_turn-Picks eligible killer m = elim (Option-cases (m.member_to_group killer)) [
  | inl gone ↦ rw (gone, next_loot_turn) (refl, λ g h. ground (arith, gone, h))
  | inr (gid, known) ↦ elim (Option-cases (m.groups gid)) [
    | inl gone ↦ rw (known, gone, next_loot_turn) (refl, λ g h. ground (arith, gone, known, h))
    | inr (g, there) ↦
        rw (known, there, next_loot_turn)
          (elim (Bool-cases (not (is_round_robin g.loot_mode))) [
            | inl other ↦ rw other (refl, λ x h. ground (arith, there, known, h, other))
            | inr turns ↦
                rw turns
                  (elim (Option-cases
                    (pick_from eligible g.members g.loot_turn 0 (length g.members))) [
                      | inl nobody ↦ rw nobody (
                        refl,
                        λ x h mode.
                            let same : g ≡ x = ground (arith, known, there, h) in
                            subst
                              (λ (t : Group).
                                (i : ℕ)
                                → i < length t.members
                                → eligible (get_or t.members i 0) ≡ false)
                              same (all_refused eligible g.members g.loot_turn nobody),
                      )
                      | inr ((idx, cand), picked) ↦
                          let pos =
                            picked_from_some eligible g.members g.loot_turn idx cand picked in
                          let found =
                            pick_from-some eligible g.members g.loot_turn 0 (length g.members) idx
                              cand pos picked in
                          rw picked (
                            g,
                            idx,
                            ground (arith, known, there),
                            ground (arith, turns),
                            found.0,
                            found.1,
                            found.2,
                            first-IsTurn eligible g.members g.loot_turn idx cand picked,
                            ground (arith, known),
                          )
                    ])
          ])
  ]
]
