-- ===== src/Order/Raft/Leader.antt =====
-- Who becomes a leader in order_channel_process_agent_service.cpp.
use vorder.Base.{
  ℕ, ◌+◌, ◌^◌, ◌%◌, ◌≤◌, ◌<◌, ◌≡◌, refl, Bool, true, false, List, [], ◌∷◌, ◌++◌, arith, ◌&&◌, not,
  ◌↔◌,
}
use vorder.Order.Raft.{
  Agent, Action, Event, Handle, TimerType, VoteState, step, on_connected_nodify, on_network_error,
  on_timer, receive_raft_heart_beat, get_raft_vote_rsp, on_vote_rsp, raft_vote_time_out, send_all,
  send_heart_beat_to_all_servers,
}

-- A candidate has too few votes, a leader exactly as many as it needs.
abbrev pub IsElected : Agent → Type 0
IsElected a =
    (2 ≤ a.kafka_value)
    × (a.kafka_value < 2 ^ 16)
    × (a.vote_state ≡ VoteState.vote_candidate → a.vote_num < a.kafka_value)
    × (a.vote_state ≡ VoteState.vote_leader → a.vote_num ≡ a.kafka_value)

-- Whether the block service is told to become the master, or a follower.
unfoldable pub tells_master : List Action → Bool
tells_master [] = false
tells_master (Action.change_cps_to_master ∷ rest) = true
tells_master (x ∷ rest) = tells_master rest

unfoldable pub tells_follower : List Action → Bool
tells_follower [] = false
tells_follower (Action.change_cps_to_follower ∷ rest) = true
tells_follower (x ∷ rest) = tells_follower rest

tells_master-heart_beats :
    (i t : ℕ) (hs : List Handle) (rest : List Action)
    → tells_master (send_all (λ h. Action.send_heart_beat h i t) hs ++ rest) ≡ tells_master rest
unfolding tells_master send_all
tells_master-heart_beats i t [] rest = refl
tells_master-heart_beats i t (h ∷ hs) rest = ground (arith, tells_master-heart_beats i t hs rest)

tells_master-votes :
    (i t : ℕ) (hs : List Handle) (rest : List Action)
    → tells_master (send_all (λ h. Action.send_vote h i t) hs ++ rest) ≡ tells_master rest
unfolding tells_master send_all
tells_master-votes i t [] rest = refl
tells_master-votes i t (h ∷ hs) rest = ground (arith, tells_master-votes i t hs rest)

unfoldable pub leads : Agent → Bool
leads a = elim a.vote_state [ VoteState.vote_leader ↦ true | _ ↦ false ]

-- The timer of a node that is not a leader is the vote timer.
abbrev pub IsTimed : Agent → Type 0
IsTimed a = (leads a ≡ true) ↔ (a.timer_type ≡ TimerType.heart_beat_timer)

tells_follower-heart_beats :
    (i t : ℕ) (hs : List Handle) (rest : List Action)
    → tells_follower (send_all (λ h. Action.send_heart_beat h i t) hs ++ rest) ≡ tells_follower rest
unfolding tells_follower send_all
tells_follower-heart_beats i t [] rest = refl
tells_follower-heart_beats i t (h ∷ hs) rest =
    ground (arith, tells_follower-heart_beats i t hs rest)

tells_follower-votes :
    (i t : ℕ) (hs : List Handle) (rest : List Action)
    → tells_follower (send_all (λ h. Action.send_vote h i t) hs ++ rest) ≡ tells_follower rest
unfolding tells_follower send_all
tells_follower-votes i t [] rest = refl
tells_follower-votes i t (h ∷ hs) rest = ground (arith, tells_follower-votes i t hs rest)

-- While a node's timer is the heart-beat timer exactly when it leads, each event keeps it so, tells
-- the block service to become the master exactly when the node starts to lead, and to become a
-- follower exactly when it stops.
pub step-tells :
    (e : Event) (a : Agent)
    → IsTimed a
    → IsTimed (step e a).0
      × (tells_master (step e a).1 ≡ (leads (step e a).0 && not (leads a)))
      × (tells_follower (step e a).1 ≡ (leads a && not (leads (step e a).0)))
unfolding step on_connected_nodify on_network_error on_timer receive_raft_heart_beat
    get_raft_vote_rsp on_vote_rsp raft_vote_time_out tells_master tells_follower leads
    send_heart_beat_to_all_servers
step-tells (Event.connected i) a h = (ground arith, ground arith, ground arith)
step-tells (Event.network_error i) a h = (ground arith, ground arith, ground arith)
step-tells Event.timer a h = (
  ground arith,
  ground (
    arith,
    tells_master-heart_beats a.cps_id a.term a.handles (Action.set_timer 1 ∷ []),
    tells_master-votes a.cps_id ((a.term + 1) % 2 ^ 64) a.handles
        (Action.set_timer a.time_long ∷ []),
  ),
  ground (
    arith,
    tells_follower-heart_beats a.cps_id a.term a.handles (Action.set_timer 1 ∷ []),
    tells_follower-votes a.cps_id ((a.term + 1) % 2 ^ 64) a.handles
        (Action.set_timer a.time_long ∷ []),
  ),
)
step-tells (Event.heart_beat k t) a h = (ground arith, ground arith, ground arith)
step-tells (Event.vote_req t) a h = (ground arith, ground arith, ground arith)
step-tells (Event.vote_answer g) a h = (
  ground arith,
  ground (
    arith,
    tells_master-heart_beats a.cps_id a.term a.handles
        (Action.cancel_timer ∷ Action.reset_timer 1 ∷ Action.change_cps_to_master ∷ []),
  ),
  ground (
    arith,
    tells_follower-heart_beats a.cps_id a.term a.handles
        (Action.cancel_timer ∷ Action.reset_timer 1 ∷ Action.change_cps_to_master ∷ []),
  ),
)
