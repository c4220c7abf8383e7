-- ===== src/Groups/Leaving.antt =====
-- Leaving a group and passing its lead.
use project_dawn_server.Groups.Agreement.{has_first, has-without, remove_all_lem, Agrees}
use project_dawn_server.Groups.{Group, has, without, GroupManager, pass_leadership, leave}
use project_dawn_server.Base.{
  refl, if◌then◌else◌, sym, true, ◌&&◌, none, some, ◌≡◌, Bool, List, Option, remove, ◌||◌, length,
  ◌==◌, not, leb, Bool-cases, arith, inr, inl, Option-cases, ℕ,
}

pub leave-Agrees : (member : ℕ) (m : GroupManager) → Agrees m → Agrees (leave member m).1
unfolding leave
leave-Agrees member m a = elim (Option-cases (m.member_to_group member)) [
  | inl gone ↦ rw (gone, leave) a
  | inr (gid, known) ↦ elim (Option-cases (m.groups gid)) [
    | inl gone ↦ absurd (ground (arith, a.listed member gid))
    | inr (g, there) ↦
        rw (known, there, leave)
          (elim (Bool-cases (leb (length (without member g.members)) 1)) [
            | inl few ↦ rw few (record {
              listed = λ c j h. ground (
                arith,
                a.listed c j,
                a.listed c gid,
                a.listed member gid,
                a.indexed gid g c,
                remove_all_lem c (without member g.members) (remove member m.member_to_group),
                has-without c member g.members,
              );
              indexed = λ j x c h w. ground (
                arith,
                a.indexed gid g c,
                a.indexed j x c,
                remove_all_lem c (without member g.members) (remove member m.member_to_group),
                has-without c member g.members,
              );
              led = λ j x h. ground (arith, a.led j x);
              fresh = λ j h. ground (arith, a.fresh j);
            })
            | inr many ↦ rw many (record {
              listed = λ c j h.
                  ground (arith, a.listed c j, a.listed member gid, has-without c member g.members);
              indexed = λ j x c h w.
                  ground
                    (arith, a.indexed gid g c, a.indexed j x c, has-without c member g.members);
              led = λ j x h. ground (
                arith,
                a.led j x,
                a.led gid g,
                has-without g.leader member g.members,
                has_first (without member g.members),
                many,
              );
              fresh = λ j h. ground (arith, a.fresh j);
            })
          ])
  ]
]

pub pass_leadership-Agrees :
    (current new_leader : ℕ) (m : GroupManager)
    → Agrees m
    → Agrees (pass_leadership current new_leader m).1
unfolding pass_leadership
pass_leadership-Agrees current new_leader m a = elim (Option-cases (m.member_to_group current)) [
  | inl gone ↦ rw (gone, pass_leadership) a
  | inr (gid, known) ↦ elim (Option-cases (m.groups gid)) [
    | inl gone ↦ absurd (ground (arith, a.listed current gid))
    | inr (g, there) ↦
        rw (known, there, pass_leadership)
          (elim (Bool-cases (not (g.leader == current) || not (has new_leader g.members))) [
            | inl refused ↦ rw refused a
            | inr fine ↦ rw fine (record {
              listed = λ c j h. ground (arith, a.listed c j);
              indexed = λ j x c h w. ground (arith, a.indexed gid g c, a.indexed j x c);
              led = λ j x h. ground (arith, a.led j x, fine);
              fresh = λ j h. ground (arith, a.fresh j);
            })
          ])
  ]
]

abbrev pub members_of : Option Group → Option (List ℕ)
members_of none = none
members_of (some g) = some g.members

-- A leave that returns nothing was one from no group, and changes nothing. Otherwise the leaver is in
-- no group, the reported players are the other members of the group that was left, and the group is
-- dissolved exactly where one of them at most is left: then it is gone and they are in no group, and
-- otherwise they are its members.
abbrev pub Leaves : ℕ → GroupManager → Option (ℕ × List ℕ × Bool) × GroupManager → Type 0
Leaves member m (none, m') = (m.member_to_group member ≡ none) × (m' ≡ m)
Leaves member m (some (gid, remaining, dissolved), m') =
    (g : Group) × (m.member_to_group member ≡ some gid)
    × (m.groups gid ≡ some g)
    × (m'.member_to_group member ≡ none)
    × ((c : ℕ) → has c remaining ≡ (has c g.members && not (member == c)))
    × (dissolved ≡ leb (length remaining) 1)
    × (members_of (m'.groups gid) ≡ (if dissolved then none else some remaining))
    × ((c : ℕ)
        → has c remaining ≡ true
        → m'.member_to_group c ≡ (if dissolved then none else some gid))

-- Where the groups and their index agree, a leave that returns nothing was one from no group and
-- changes nothing; otherwise the leaver is in no group, the reported players are the other
-- members, and the group is dissolved exactly where one of them at most is left: then it is gone
-- and they are in no group, and otherwise they are its members.
pub leave-Leaves : (member : ℕ) (m : GroupManager) → Agrees m → Leaves member m (leave member m)
unfolding leave
leave-Leaves member m a = elim (Option-cases (m.member_to_group member)) [
  | inl gone ↦ rw (gone, leave) (gone, refl)
  | inr (gid, known) ↦ elim (Option-cases (m.groups gid)) [
    | inl gone ↦ absurd (ground (arith, a.listed member gid))
    | inr (g, there) ↦
        let rest = without member g.members in
        let others = λ (c : ℕ). has-without c member g.members in
        rw (known, there, leave)
          (elim (Bool-cases (leb (length rest) 1)) [
            | inl few ↦
                let gone = λ (c : ℕ). remove_all_lem c rest (remove member m.member_to_group) in
                rw few (
                  g,
                  known,
                  there,
                  ground (arith, gone member),
                  others,
                  sym few,
                  ground arith,
                  λ c h. ground (arith, gone c, h),
                )
            | inr many ↦ rw many (
              g,
              known,
              there,
              ground arith,
              others,
              sym many,
              ground arith,
              λ c h. ground (arith, others c, a.indexed gid g c, h),
            )
          ])
  ]
]
