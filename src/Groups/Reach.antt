-- ===== src/Groups/Reach.antt =====
-- Any sequence of calls on the groups.
use project_dawn_server.Groups.Leaving.{leave-Agrees, pass_leadership-Agrees}
use project_dawn_server.Groups.Agreement.{
  accept_invite-Agrees, record_invite-Agrees, new_groups-Agrees, group_for_or_new-Agrees, Agrees,
}
use project_dawn_server.Groups.{
  pick_from, is_round_robin, leave, pass_leadership, accept_invite, record_invite, Group,
  next_loot_turn, new_groups, group_for_or_new, GroupManager,
}
use project_dawn_server.Base.{
  ◌%◌, not, ◌≤◌, Bool-cases, insert, inr, arith, u64_mod, some, inl, ◌≡◌, [], Option-cases, ◌<◌,
  ◌∷◌, length, ◌+◌, List, Bool, ℕ,
}

-- One call of a method that changes the groups, with its arguments.
pub data Call : Type 0 where
  call_group_for_or_new : ℕ → Call
  call_record_invite call_accept call_pass_leadership : ℕ → ℕ → Call
  call_leave : ℕ → Call
  call_next_loot_turn : ℕ → (ℕ → Bool) → Call

unfoldable pub after_call : Call → GroupManager → GroupManager
after_call (call_group_for_or_new inviter) m = (group_for_or_new inviter m).1
after_call (call_record_invite inviter invitee) m = (record_invite inviter invitee m).1
after_call (call_accept invitee from) m = (accept_invite invitee from m).1
after_call (call_pass_leadership current new_leader) m = (pass_leadership current new_leader m).1
after_call (call_leave member) m = (leave member m).1
after_call (call_next_loot_turn killer eligible) m = (next_loot_turn killer eligible m).1

unfoldable pub after_calls : List Call → GroupManager → GroupManager
after_calls [] m = m
after_calls (c ∷ cs) m = after_calls cs (after_call c m)

turned-Agrees :
    (m : GroupManager) (gid turn : ℕ) (g : Group)
    → Agrees m
    → m.groups gid ≡ some g
    → Agrees (record m { groups = insert gid (record g { loot_turn = turn }) m.groups })
turned-Agrees m gid turn g a there = record {
  listed = λ c j h. ground (arith, a.listed c j);
  indexed = λ j x c h w. ground (arith, a.indexed gid g c, a.indexed j x c);
  led = λ j x h. ground (arith, a.led j x, a.led gid g);
  fresh = λ j h. ground (arith, a.fresh j);
}

next_loot_turn-Agrees :
    (killer : ℕ) (eligible : ℕ → Bool) (m : GroupManager)
    → Agrees m
    → Agrees (next_loot_turn killer eligible m).1
unfolding next_loot_turn
next_loot_turn-Agrees killer eligible m a = elim (Option-cases (m.member_to_group killer)) [
  | inl gone ↦ rw (gone, next_loot_turn) a
  | inr (gid, known) ↦ elim (Option-cases (m.groups gid)) [
    | inl gone ↦ rw (known, gone, next_loot_turn) a
    | inr (g, there) ↦
        rw (known, there, next_loot_turn)
          (elim (Bool-cases (not (is_round_robin g.loot_mode))) [
            | inl other ↦ rw other a
            | inr turns ↦
                rw turns
                  (elim (Option-cases
                    (pick_from eligible g.members g.loot_turn 0 (length g.members))) [
                      | inl nobody ↦ rw nobody a
                      | inr ((idx, cand), picked) ↦
                          rw picked (turned-Agrees m gid ((idx + 1) % length g.members) g a there)
                    ])
          ])
  ]
]

-- A call takes one group number at most.
after_call-next_id :
    (c : Call) (m : GroupManager)
    → m.next_id + 1 < u64_mod
    → (after_call c m).next_id ≤ m.next_id + 1
unfolding after_call group_for_or_new record_invite accept_invite pass_leadership leave
    next_loot_turn
after_call-next_id (call_group_for_or_new inviter) m room = ground arith
after_call-next_id (call_record_invite inviter invitee) m room = ground arith
after_call-next_id (call_accept invitee from) m room = ground arith
after_call-next_id (call_pass_leadership current new_leader) m room = ground arith
after_call-next_id (call_leave member) m room = ground arith
after_call-next_id (call_next_loot_turn killer eligible) m room = ground arith

after_call-Agrees :
    (c : Call) (m : GroupManager) → m.next_id + 1 < u64_mod → Agrees m → Agrees (after_call c m)
unfolding after_call
after_call-Agrees (call_group_for_or_new inviter) m room a =
    group_for_or_new-Agrees inviter m room a
after_call-Agrees (call_record_invite inviter invitee) m room a =
    record_invite-Agrees inviter invitee m room a
after_call-Agrees (call_accept invitee from) m room a = accept_invite-Agrees invitee from m a
after_call-Agrees (call_pass_leadership current new_leader) m room a =
    pass_leadership-Agrees current new_leader m a
after_call-Agrees (call_leave member) m room a = leave-Agrees member m a
after_call-Agrees (call_next_loot_turn killer eligible) m room a =
    next_loot_turn-Agrees killer eligible m a

after_calls-Agrees :
    (cs : List Call) (m : GroupManager)
    → m.next_id + length cs < u64_mod
    → Agrees m
    → Agrees (after_calls cs m)
unfolding after_calls
after_calls-Agrees [] m room a = a
after_calls-Agrees (x ∷ xs) m room a =
    let below : m.next_id + 1 < u64_mod = omega arith in
    after_calls-Agrees xs (after_call x m) (omega (arith, after_call-next_id x m below))
      (after_call-Agrees x m below a)

-- Any sequence of calls of the group manager that change it, fewer than 2^64 - 1 of them and with
-- any arguments, leaves groups and an index of members that agree: an indexed player is a member
-- of the group named, every member of a group is indexed to it, every group is led by a member,
-- and no group has a number that is still to be given.
pub calls-Agrees : (cs : List Call) → length cs + 1 < u64_mod → Agrees (after_calls cs new_groups)
unfolding new_groups
calls-Agrees cs room = after_calls-Agrees cs new_groups (omega (arith, room)) new_groups-Agrees
