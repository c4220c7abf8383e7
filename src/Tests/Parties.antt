-- ===== src/Tests/Parties.antt =====
-- The theorems on groups at a party of three.
use project_dawn_server.Groups.Reach.{
  call_accept, call_record_invite, after_call, calls-Agrees, after_calls, Call,
}
use project_dawn_server.Groups.Turns.{next_loot_turn-Picks, Picks}
use project_dawn_server.Groups.Leaving.{leave-Leaves, Leaves}
use project_dawn_server.Groups.{
  accept_invite, group_for_or_new, record_invite, new_groups, next_loot_turn, leave, GroupManager,
}
use project_dawn_server.Groups.Agreement.{Agrees}
use project_dawn_server.Base.{refl, false, some, ◌≡◌, [], ◌∷◌, arith, ◌==◌, not, List, Bool, ℕ}

-- Player 1 invites 2 and 3, who accept.
abbrev invited : List Call
invited = call_record_invite 1 2 ∷ call_accept 2 1 ∷ call_record_invite 1 3 ∷ call_accept 3 1 ∷ []

abbrev party : GroupManager
party = after_calls invited new_groups

calls-Agrees_example : Agrees party
calls-Agrees_example = calls-Agrees invited (omega arith)

party-Agrees : Agrees party
party-Agrees = calls-Agrees invited (omega arith)

leave-Leaves_example : Leaves 1 party (leave 1 party)
leave-Leaves_example = leave-Leaves 1 party party-Agrees

abbrev not_first : ℕ → Bool
not_first c = not (c == 1)

next_loot_turn-Picks_example : Picks not_first 2 party (next_loot_turn 2 not_first party)
next_loot_turn-Picks_example = next_loot_turn-Picks not_first 2 party

-- The leader leaves, and the next member leads.
left_by_leader : (leave 1 party).0 ≡ some (1, 2 ∷ 3 ∷ [], false)
unfolding leave after_calls after_call record_invite group_for_or_new accept_invite new_groups
left_by_leader = refl

-- The first member is passed over, and the next turn goes on from there.
turn_of_second : (next_loot_turn 2 not_first party).0 ≡ some 2
unfolding next_loot_turn after_calls after_call record_invite group_for_or_new accept_invite
    new_groups
turn_of_second = refl
