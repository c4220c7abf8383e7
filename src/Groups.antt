-- ===== src/Groups.antt =====
-- crates/projectdawn-server/src/world/groups.rs: groups of players, their invites, their leader and
-- the turns of their loot.
pub mod Agreement
pub mod Leaving
pub mod Turns
pub mod Reach
use project_dawn_server.Base.{
  u64_mod, suc, get_or, ◌++◌, ◌||◌, length, leb, contains_key, ◌%◌, remove, not, false, [], ◌+◌,
  ◌∷◌, true, none, any, some, insert, empty, Option, Map, List, Bool, ◌==◌, ℕ, if◌then◌else◌,
}

pub data LootMode : Type 0 where
  round_robin free_for_all : LootMode

-- The wire encoding of the mode.
unfoldable pub to_u8 : LootMode → ℕ
to_u8 round_robin = 0
to_u8 free_for_all = 1

unfoldable pub from_u8 : ℕ → LootMode
from_u8 v = if v == 1 then free_for_all else round_robin

pub record Group : Type 0 where
  pub id : ℕ
  pub leader : ℕ
  pub members : List ℕ
  pub loot_mode : LootMode
  pub loot_turn : ℕ

pub record GroupManager : Type 0 where
  pub next_id : ℕ
  pub groups : Map Group
  pub member_to_group : Map ℕ
  pub pending_invites : Map (ℕ × ℕ)

unfoldable pub new_groups : GroupManager
new_groups = record {
  next_id = 1;
  groups = empty;
  member_to_group = empty;
  pending_invites = empty;
}

-- The inviter's group, which is made with the inviter as leader where there is none.
unfoldable pub group_for_or_new : ℕ → GroupManager → ℕ × GroupManager
group_for_or_new inviter m = elim (m.member_to_group inviter) [
  | some gid ↦ (gid, m)
  | none ↦
      let gid = m.next_id in
      let group : Group = record {
        id = gid;
        leader = inviter;
        members = inviter ∷ [];
        loot_mode = round_robin;
        loot_turn = 0;
      } in
      (
        gid,
        record m {
          next_id = (gid + 1) % u64_mod;
          groups = insert gid group m.groups;
          member_to_group = insert inviter gid m.member_to_group;
        },
      )
]

unfoldable pub record_invite : ℕ → ℕ → GroupManager → ℕ × GroupManager
record_invite inviter invitee m =
    let (gid, m') = group_for_or_new inviter m in
    (gid, record m' { pending_invites = insert invitee (inviter, gid) m'.pending_invites })

-- The invite is consumed whether or not it matches.
unfoldable pub accept_invite : ℕ → ℕ → GroupManager → Option ℕ × GroupManager
accept_invite invitee from m = elim (m.pending_invites invitee) [
  | none ↦ (none, m)
  | some (recorded_inviter, gid) ↦
      let m' = record m { pending_invites = remove invitee m.pending_invites } in
      if not (recorded_inviter == from)
      then (none, m')
      else if contains_key invitee m.member_to_group
      then (none, m')
      else elim (m.groups gid) [
        | none ↦ (none, m')
        | some g ↦ (
          some gid,
          record m' {
            groups = insert gid (record g { members = g.members ++ invitee ∷ [] }) m.groups;
            member_to_group = insert invitee gid m.member_to_group;
          },
        )
      ]
]

abbrev pub has : ℕ → List ℕ → Bool
has c = any (λ x. x == c)

-- `retain(|&m| m != member)`
abbrev pub without : ℕ → List ℕ → List ℕ
without c [] = []
without c (x ∷ xs) = if x == c then without c xs else x ∷ without c xs

abbrev pub remove_all : List ℕ → Map ℕ → Map ℕ
remove_all [] t = t
remove_all (x ∷ xs) t = remove_all xs (remove x t)

-- The group that was left, its members now, and whether it is dissolved.
unfoldable pub leave : ℕ → GroupManager → Option (ℕ × List ℕ × Bool) × GroupManager
leave member m = elim (m.member_to_group member) [
  | none ↦ (none, m)
  | some gid ↦
      let m' = record m {
        member_to_group = remove member m.member_to_group;
        pending_invites = remove member m.pending_invites;
      } in
      elim (m.groups gid) [
        | none ↦ (none, m')
        | some g ↦
            let remaining = without member g.members in
            if leb (length remaining) 1
            then (
              some (gid, remaining, true),
              record m' {
                member_to_group = remove_all remaining m'.member_to_group;
                groups = remove gid m.groups;
              },
            )
            else (
              some (gid, remaining, false),
              record m' {
                groups =
                    insert gid
                      (record g {
                        members = remaining;
                        leader = if g.leader == member then get_or remaining 0 0 else g.leader;
                      })
                      m.groups;
              },
            )
      ]
]

unfoldable pub group_of : ℕ → GroupManager → Option Group
group_of member m = elim (m.member_to_group member) [ none ↦ none | some gid ↦ m.groups gid ]

unfoldable pub same_group : ℕ → ℕ → GroupManager → Bool
same_group a b m = elim (m.member_to_group a) [
  | none ↦ false
  | some ga ↦ elim (m.member_to_group b) [ none ↦ false | some gb ↦ ga == gb ]
]

-- The first eligible member in rotation order, by index, from an offset on.
abbrev pub pick_from : (ℕ → Bool) → List ℕ → ℕ → ℕ → ℕ → Option (ℕ × ℕ)
pick_from eligible members turn offset ℕ.zero = none
pick_from eligible members turn offset (ℕ.suc left) =
    let idx = (turn + offset) % length members in
    let cand = get_or members idx 0 in
    let rest = pick_from eligible members turn (suc offset) left in
    if eligible cand then some (idx, cand) else rest

abbrev pub is_round_robin : LootMode → Bool
is_round_robin round_robin = true
is_round_robin free_for_all = false

unfoldable pub next_loot_turn : ℕ → (ℕ → Bool) → GroupManager → Option ℕ × GroupManager
next_loot_turn killer eligible m = elim (m.member_to_group killer) [
  | none ↦ (none, m)
  | some gid ↦ elim (m.groups gid) [
    | none ↦ (none, m)
    | some g ↦
        if not (is_round_robin g.loot_mode)
        then (none, m)
        else elim (pick_from eligible g.members g.loot_turn 0 (length g.members)) [
          | none ↦ (none, m)
          | some (idx, cand) ↦ (
            some cand,
            record m {
              groups = insert gid (record g { loot_turn = (idx + 1) % length g.members }) m.groups;
            },
          )
        ]
  ]
]

unfoldable pub pass_leadership : ℕ → ℕ → GroupManager → Option ℕ × GroupManager
pass_leadership current new_leader m = elim (m.member_to_group current) [
  | none ↦ (none, m)
  | some gid ↦ elim (m.groups gid) [
    | none ↦ (none, m)
    | some g ↦ if not (g.leader == current) || not (has new_leader g.members) then (none, m) else (
      some gid,
      record m { groups = insert gid (record g { leader = new_leader }) m.groups },
    )
  ]
]
