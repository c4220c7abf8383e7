-- ===== src/Groups/Agreement.antt =====
-- The groups and the index of their members agree, whatever is called.
use project_dawn_server.Groups.{
  without, remove_all, has, Group, record_invite, new_groups, group_for_or_new, accept_invite,
  GroupManager,
}
use project_dawn_server.Base.{
  ◌||◌, refl, Bool-cases, ◌==◌, ◌≤◌, remove, not, arith, [], ◌∷◌, true, none, inr, get_or, ◌&&◌,
  u64_mod, some, length, inl, ◌++◌, ◌≡◌, Option-cases, Map, ◌<◌, ◌+◌, Option, List, ℕ,
  if◌then◌else◌,
}

abbrev pub InGroup : ℕ → Option Group → Type 0
InGroup c none = ⊥
InGroup c (some g) = has c g.members ≡ true

-- Each player is indexed to the group that they are a member of and to no other, every group is led
-- by a member, and no group has a number that is still to be given.
pub record Agrees (m : GroupManager) : Type 0 where
  pub listed : (c gid : ℕ) → m.member_to_group c ≡ some gid → InGroup c (m.groups gid)
  pub indexed :
      (gid : ℕ) (g : Group) (c : ℕ)
      → m.groups gid ≡ some g
      → has c g.members ≡ true
      → m.member_to_group c ≡ some gid
  pub led : (gid : ℕ) (g : Group) → m.groups gid ≡ some g → has g.leader g.members ≡ true
  pub fresh : (gid : ℕ) → m.next_id ≤ gid → m.groups gid ≡ none

pub new_groups-Agrees : Agrees new_groups
unfolding new_groups
new_groups-Agrees = record {
  listed = λ c gid h. cc;
  indexed = λ gid g c h w. cc;
  led = λ gid g h. cc;
  fresh = λ gid h. refl;
}

pub has-append : (c y : ℕ) (xs : List ℕ) → has c (xs ++ y ∷ []) ≡ (has c xs || (y == c))
has-append c y [] = ground arith
has-append c y (x ∷ xs) = ground (arith, has-append c y xs)

pub has-without : (c y : ℕ) (xs : List ℕ) → has c (without y xs) ≡ (has c xs && not (y == c))
has-without c y [] = refl
has-without c y (x ∷ xs) = ground (arith, has-without c y xs)

pub remove_all_lem :
    (c : ℕ) (xs : List ℕ) (t : Map ℕ) → remove_all xs t c ≡ (if has c xs then none else t c)
remove_all_lem c [] t = refl
remove_all_lem c (x ∷ xs) t = ground (arith, remove_all_lem c xs (remove x t))

pub has_first : (xs : List ℕ) → 1 < length xs → has (get_or xs 0 0) xs ≡ true
has_first [] h = absurd (omega arith)
has_first (x ∷ xs) h = ground arith

pub group_for_or_new-Agrees :
    (inviter : ℕ) (m : GroupManager)
    → m.next_id + 1 < u64_mod
    → Agrees m
    → Agrees (group_for_or_new inviter m).1
unfolding group_for_or_new
group_for_or_new-Agrees inviter m room a = elim (Option-cases (m.member_to_group inviter)) [
  | inr (gid, known) ↦ rw (known, group_for_or_new) a
  | inl solo ↦
      rw (solo, group_for_or_new)
        (record {
          listed = λ c gid h. ground (arith, a.listed c gid, a.fresh m.next_id);
          indexed = λ gid g c h w. ground (arith, a.indexed gid g c, a.fresh m.next_id);
          led = λ gid g h. ground (arith, a.led gid g);
          fresh = λ gid h. ground (arith, a.fresh gid);
        })
]

pub record_invite-Agrees :
    (inviter invitee : ℕ) (m : GroupManager)
    → m.next_id + 1 < u64_mod
    → Agrees m
    → Agrees (record_invite inviter invitee m).1
unfolding record_invite
record_invite-Agrees inviter invitee m room a =
    let b = group_for_or_new-Agrees inviter m room a in
    record { listed = b.listed; indexed = b.indexed; led = b.led; fresh = b.fresh }

pub accept_invite-Agrees :
    (invitee from : ℕ) (m : GroupManager) → Agrees m → Agrees (accept_invite invitee from m).1
unfolding accept_invite
accept_invite-Agrees invitee from m a = elim (Option-cases (m.pending_invites invitee)) [
  | inl gone ↦ rw (gone, accept_invite) a
  | inr ((inviter, gid), asked) ↦
      let kept : Agrees (record m { pending_invites = remove invitee m.pending_invites }) = record {
        listed = a.listed;
        indexed = a.indexed;
        led = a.led;
        fresh = a.fresh;
      } in
      rw (asked, accept_invite)
        (elim (Bool-cases (not (inviter == from))) [
          | inl other ↦ rw other kept
          | inr same ↦ rw same (elim (Option-cases (m.member_to_group invitee)) [
            | inr (old, grouped) ↦ rw grouped kept
            | inl solo ↦ rw solo (elim (Option-cases (m.groups gid)) [
              | inl gone ↦ rw gone kept
              | inr (g, there) ↦ rw there (record {
                listed = λ c j h. ground (arith, a.listed c j, has-append c invitee g.members);
                indexed = λ j x c h w.
                    ground
                      (arith, a.indexed gid g c, a.indexed j x c, has-append c invitee g.members);
                led = λ j x h.
                    ground (arith, a.led j x, a.led gid g, has-append g.leader invitee g.members);
                fresh = λ j h. ground (arith, a.fresh j);
              })
            ])
          ])
        ])
]
