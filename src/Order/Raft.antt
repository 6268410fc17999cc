-- ===== src/Order/Raft.antt =====
-- ord_cpas/order_channel_process_agent_service.{h,cpp}: CChannelProcessAgentService, the leader
-- election among the order nodes of a channel. A handler returns the new state and what it asks of
-- the network, of the timer and of the block service, in that order; the result of SendHtsMsg is only
-- logged.
pub mod Votes
pub mod Leader
use vorder.Base.{
  ℕ, ◌+◌, ◌/◌, ◌%◌, ◌^◌, ◌≤◌, ◌<◌, ◌≡◌, Bool, true, false, List, [], ◌∷◌, ◌++◌, ltb, leb,
  if◌then◌else◌, ◌==◌, length,
}

pub data VoteState : Type 0 where
  vote_follower vote_candidate vote_leader : VoteState

pub data TimerType : Type 0 where
  vote_timer heart_beat_timer : TimerType

-- CCpsHandleInfo: a connection to another order node.
pub record Handle : Type 0 where
  pub handle_id : ℕ
  pub handle_state : Bool

pub data Action : Type 0 where
  send_heart_beat send_vote : ℕ → ℕ → ℕ → Action
  set_timer reset_timer : ℕ → Action
  cancel_timer change_cps_to_master change_cps_to_follower : Action
  vote_rsp : Bool → Action

pub record Agent : Type 0 where
  pub cps_id : ℕ
  pub term : ℕ
  pub leader_id : ℕ
  pub vote_num : ℕ
  pub time_long : ℕ
  pub vote_state : VoteState
  pub kafka_value : ℕ
  pub handles : List Handle
  pub timer_type : TimerType
  pub timer_started : Bool

-- The handles of the addresses read, in the order of AllocHandleID.
unfoldable pub new_handles : List ℕ → List Handle
new_handles [] = []
new_handles (i ∷ is) = record { handle_id = i; handle_state = false } ∷ new_handles is

-- The time-out drawn: rand() % 5, at least 2.
abbrev draw_time : ℕ → ℕ
draw_time n = if ltb (n % 5) 2 then n % 5 + 2 else n % 5

-- OnInit, once the addresses are read; `rand` is the number drawn.
unfoldable pub on_init : ℕ → ℕ → List ℕ → Agent × List Action
unfolding new_handles
on_init cps_id rand ids =
    let kafka_value = (length ids + 1) / 2 + 1 in
    (
      record {
        cps_id = cps_id;
        term = 0;
        leader_id = 0;
        vote_num = 0;
        time_long = draw_time rand;
        vote_state = vote_follower;
        kafka_value = kafka_value;
        handles = new_handles ids;
        timer_type = vote_timer;
        timer_started = false;
      },
      if kafka_value == 1 then change_cps_to_master ∷ [] else [],
    )

-- The loop over m_vecCpsHandleInfo of OnConnectedNodify and OnNetworkError.
unfoldable pub set_handle_state : ℕ → Bool → List Handle → List Handle
set_handle_state i b [] = []
set_handle_state i b (h ∷ hs) =
    (if h.handle_id == i then record h { handle_state = b } else h) ∷ set_handle_state i b hs

unfoldable pub on_connected_nodify : ℕ → Agent → Agent × List Action
unfolding set_handle_state
on_connected_nodify i a =
    let hs = set_handle_state i true a.handles in
    if a.timer_started
    then (record a { handles = hs }, [])
    else (record a { handles = hs; timer_started = true }, set_timer a.time_long ∷ [])

unfoldable pub on_network_error : ℕ → Agent → Agent × List Action
unfolding set_handle_state
on_network_error i a = (record a { handles = set_handle_state i false a.handles }, [])

-- The loops that send a message on every connection that is up.
unfoldable pub send_all : (ℕ → Action) → List Handle → List Action
send_all msg [] = []
send_all msg (h ∷ hs) =
    let rest = send_all msg hs in if h.handle_state then msg h.handle_id ∷ rest else rest

unfoldable pub send_heart_beat_to_all_servers : Agent → List Action
unfolding send_all
send_heart_beat_to_all_servers a = send_all (λ i. send_heart_beat i a.cps_id a.term) a.handles

-- The term has 64 bits.
unfoldable pub raft_vote_time_out : Agent → Agent × List Action
unfolding send_all
raft_vote_time_out a =
    let term = (a.term + 1) % 2 ^ 64 in
    (
      record a { term = term; vote_state = vote_candidate; vote_num = 1 },
      send_all (λ i. send_vote i a.cps_id term) a.handles ++ set_timer a.time_long ∷ [],
    )

unfoldable pub on_timer : Agent → Agent × List Action
unfolding raft_vote_time_out send_heart_beat_to_all_servers
on_timer a = elim a.timer_type [
  | vote_timer ↦ raft_vote_time_out a
  | heart_beat_timer ↦ (a, send_heart_beat_to_all_servers a ++ set_timer 1 ∷ [])
]

unfoldable pub receive_raft_heart_beat : ℕ → ℕ → Agent → Agent × List Action
receive_raft_heart_beat leader term a = if ltb term a.term then (a, []) else elim a.vote_state [
  | vote_follower ↦ (a, reset_timer a.time_long ∷ [])
  | vote_candidate ↦ (
    record a { vote_state = vote_follower; term = term; leader_id = leader; vote_num = 0 },
    reset_timer a.time_long ∷ [],
  )
  | vote_leader ↦
      if ltb a.term term
      then (
        record a { vote_state = vote_follower; timer_type = vote_timer },
        cancel_timer ∷ reset_timer a.time_long ∷ change_cps_to_follower ∷ [],
      )
      else (a, [])
]

-- GetRaftVoteRsp, with the answer that the block service sends.
unfoldable pub get_raft_vote_rsp : ℕ → Agent → Agent × List Action
get_raft_vote_rsp term a =
    if ltb a.term term
    then (record a { term = term }, vote_rsp true ∷ [])
    else (a, vote_rsp false ∷ [])

-- OnHtsMsg(CRaftVoteCpsCpasRsp); the count of votes has 16 bits.
unfoldable pub on_vote_rsp : Bool → Agent → Agent × List Action
unfolding send_heart_beat_to_all_servers
on_vote_rsp granted a = elim granted [
  | false ↦ (a, [])
  | true ↦ elim a.vote_state [
    | vote_candidate ↦
        let n = (a.vote_num + 1) % 2 ^ 16 in
        if leb a.kafka_value n
        then (
          record a { vote_num = n; vote_state = vote_leader; timer_type = heart_beat_timer },
          send_heart_beat_to_all_servers a
              ++ cancel_timer ∷ reset_timer 1 ∷ change_cps_to_master ∷ [],
        )
        else (record a { vote_num = n }, [])
    | _ ↦ (a, [])
  ]
]

-- What a node receives.
pub data Event : Type 0 where
  connected network_error : ℕ → Event
  timer : Event
  heart_beat : ℕ → ℕ → Event
  vote_req : ℕ → Event
  vote_answer : Bool → Event

unfoldable pub step : Event → Agent → Agent × List Action
unfolding on_connected_nodify on_network_error on_timer receive_raft_heart_beat get_raft_vote_rsp
    on_vote_rsp
step (connected i) = on_connected_nodify i
step (network_error i) = on_network_error i
step timer = on_timer
step (heart_beat leader term) = receive_raft_heart_beat leader term
step (vote_req term) = get_raft_vote_rsp term
step (vote_answer granted) = on_vote_rsp granted

unfoldable pub run : List Event → Agent → Agent
unfolding step
run [] a = a
run (e ∷ es) a = run es (step e a).0
