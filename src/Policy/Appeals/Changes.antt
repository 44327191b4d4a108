-- ===== src/Policy/Appeals/Changes.antt =====
-- Which repairs change the state of their target (src/qste/policy/service.py), said without the state
-- that follows.
use qste.Base.{◌≡◌, Bool, true, false, not, ◌&&◌, ◌||◌, List, arith}
use qste.Policy.State.{
  RepairAction, pause, correct, revoke, delete, restrict, restore, release_pause, Authorization,
  revoked, PauseStatus, released, PolicyEvent, is_permitted, is_active, state_of, read_events,
  current_policy_state, policy_state_after, action_set_after, sorted_set, insert_sorted,
}
use qste.Policy.Targets.{TargetClosure}
use qste.Policy.Appeals.{same_state, changes_nothing, is_correct}

abbrev is_revoked : Authorization → Bool
is_revoked revoked = true
is_revoked _ = false

abbrev is_released : PauseStatus → Bool
is_released released = true
is_released _ = false

-- The axis that the repair sets already has its value; a deletion sets none, and leaves an appeal only.
unfoldable pub is_idle : RepairAction → Authorization → PauseStatus → Bool
is_idle pause x y = is_active y
is_idle restrict x y = is_active y
is_idle revoke x y = is_revoked x
is_idle restore x y = is_permitted x
is_idle release_pause x y = is_released y
is_idle correct x y = false
is_idle delete x y = not (is_permitted x) || is_active y

same_state-is_idle :
    (action : RepairAction) (x : Authorization) (y : PauseStatus)
    → let before = state_of (record { authorization = x; pause = y }) in
      (not (is_correct action) && same_state before (policy_state_after action before))
      ≡ is_idle action x y
unfolding is_idle same_state state_of policy_state_after action_set_after sorted_set insert_sorted
same_state-is_idle pause x y = ground arith
same_state-is_idle restrict x y = ground arith
same_state-is_idle revoke x y = ground arith
same_state-is_idle restore x y = ground arith
same_state-is_idle release_pause x y = ground arith
same_state-is_idle correct x y = ground arith
same_state-is_idle delete x y = ground arith

pub changes_nothing-is_idle :
    (action : RepairAction) (log : List PolicyEvent) (found : TargetClosure)
    → changes_nothing action log found
      ≡ is_idle action
          (read_events found.root_record_id log).authorization
          (read_events found.root_record_id log).pause
unfolding changes_nothing current_policy_state
changes_nothing-is_idle action log found =
    let a = read_events found.root_record_id log in
    same_state-is_idle action a.authorization a.pause
