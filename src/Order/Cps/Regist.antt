-- ===== src/Order/Cps/Regist.antt =====
-- OnHtsMsg(CRegistCsCpsReq), ChangeCpsToMasterState, ChangeCpsToFollowerState and OnNetworkError of
-- order_channel_process_service.cpp.
use vorder.Base.{
  ℕ, ◌+◌, ◌-◌, Bool, true, false, ◌&&◌, not, Option, none, some, List, [], ◌∷◌, if◌then◌else◌, ◌==◌,
  leb, ltb,
}
use vorder.Block.{is_equal}
use vorder.Order.Cps.{Cps, CpsState, Connection, LocalBlockInfo, Out, post, send, front}
use vorder.Order.Cps.Persist.{find_connection}
use vorder.Order.Cps.Sync.{get_regist_peer_handler}

pub record RegistCsReq : Type 0 where
  pub peer_id : ℕ
  pub cas_port : ℕ
  pub cas_ip_addr : List ℕ
  pub max_block_id : ℕ
  pub max_block_hash : List ℕ

unfoldable pub registered_num : List Connection → ℕ
registered_num [] = 0
registered_num (p ∷ ps) = let rest = registered_num ps in if p.registered then rest + 1 else rest

unfoldable pub has_peer : ℕ → List Connection → Bool
has_peer id [] = false
has_peer id (p ∷ ps) =
    let rest = has_peer id ps in if p.registered && (p.peer_id == id) then true else rest

-- Step 2: the connection `i` is registered, with the data of the request.
unfoldable pub enter : ℕ → RegistCsReq → List Connection → List Connection
enter i req [] = []
enter i req (p ∷ ps) =
    let rest = enter i req ps in
    if p.handle_id == i
    then record p {
      registered = true;
      peer_id = req.peer_id;
      cas_port = req.cas_port;
      cas_ip_addr = req.cas_ip_addr;
      regist_max_block_id = req.max_block_id;
      regist_max_block_hash = req.max_block_hash;
    }
      ∷ rest
    else p ∷ rest

unfoldable pub clear_recv : ℕ → List Connection → List Connection
clear_recv i [] = []
clear_recv i (p ∷ ps) =
    let rest = clear_recv i ps in
    if p.handle_id == i then record p { recv_dist_block_rsp = false } ∷ rest else p ∷ rest

unfoldable pub leave : ℕ → List Connection → List Connection
leave i [] = []
leave i (p ∷ ps) = let rest = leave i ps in if p.handle_id == i then rest else p ∷ rest

-- The peers other than `id`, as addresses to synchronise from.
unfoldable pub other_peers : ℕ → List Connection → List ℕ
other_peers id [] = []
other_peers id (p ∷ ps) =
    let rest = other_peers id ps in
    if p.registered && not (p.peer_id == id) then p.peer_id ∷ rest else rest

module _ {T : Type 0} where
  -- The loop that sends SendQueryMaxBlockInfoMsg to every registered connection.
  unfoldable pub query_all : List Connection → Cps T → Cps T
  unfolding send
  query_all [] c = c
  query_all (p ∷ ps) c =
      if p.registered
      then query_all ps (send (Out.query_max_block_info_req p.handle_id c.order_id) c).0
      else query_all ps c

  unfoldable pub change_cps_to_master_state : Cps T → Cps T
  unfolding registered_num query_all post
  change_cps_to_master_state c = post Out.cancel_follower_sync_timer (
      if leb c.kafka_value (registered_num c.connections)
      then record (query_all c.connections c) { cps_state = CpsState.master_start_state }
      else record c { cps_state = CpsState.master_wait_state })

  -- ChangeCpsToFollowerState: all blocks are dropped. The assignment of the state is written `==`, so
  -- it stays; the number of blocks is not reset.
  unfoldable pub change_cps_to_follower_state : Cps T → Cps T
  unfolding post
  change_cps_to_follower_state c = post Out.cancel_pack_timer (
      post Out.cancel_sync_timer (
        post Out.cancel_wait_timer (
          post Out.cancel_repersist_timer
            (record c { cur_block_info = none; queue_block_info = [] }))))

  -- OnNetworkError of the connection `i`.
  unfoldable pub on_network_error : ℕ → Cps T → Cps T
  unfolding leave post
  on_network_error i c =
      post (Out.cancel_resend_timer i) (record c { connections = leave i c.connections })

  -- The branch of the synchronisation state: none is a peer looked for in vain.
  unfoldable pub regist_in_sync : ℕ → RegistCsReq → Cps T → Option (Cps T)
  unfolding get_regist_peer_handler is_equal send
  regist_in_sync i req c =
      let best = get_regist_peer_handler c.kafka_block_id c.kafka_block_hash c.connections in
      if ltb req.max_block_id c.kafka_block_id
      then elim best [
        | none ↦ some c
        | some p ↦
            some
              (send (Out.sync_block_notify i true p.peer_id req.max_block_id c.kafka_block_id) c).0
      ]
      else if ltb c.kafka_block_id req.max_block_id
      then some (send (Out.backspace_block_notify i req.max_block_id c.kafka_block_id) c).0
      else if is_equal req.max_block_hash c.kafka_block_hash
      then some c
      else elim best [
        | none ↦ none
        | some p ↦
            some
              (send (Out.sync_block_notify i false p.peer_id req.max_block_id c.kafka_block_id) c).0
      ]

  -- The block `b` that is being distributed is sent to the connection `i`.
  unfoldable pub send_block : ℕ → LocalBlockInfo → Cps T → Cps T
  unfolding send post clear_recv
  send_block i b c =
      let (d, sent) = send (Out.distribute_block_req i b.block_id b.block_data) c in
      if sent
      then post (Out.set_resend_timer i) (record d { connections = clear_recv i d.connections })
      else d

  -- The branch of the normal state for a peer that is not behind, while `b` is being distributed.
  unfoldable pub regist_with_block : ℕ → RegistCsReq → LocalBlockInfo → Cps T → Cps T
  unfolding send send_block is_equal
  regist_with_block i req b c =
      if ltb b.block_id req.max_block_id
      then (send (Out.invalid_peer_notify i) c).0
      else if (req.max_block_id == b.block_id) && not (is_equal req.max_block_hash b.block_hash)
      then (send (Out.backspace_block_notify i req.max_block_id (b.block_id - 1)) c).0
      else if (req.max_block_id == c.config.block_id)
          && not (is_equal req.max_block_hash c.config.block_hash)
          && ltb 0 c.config.block_id
      then (send (Out.backspace_block_notify i req.max_block_id (c.config.block_id - 1)) c).0
      else send_block i b c

  -- The same branch while no block is being distributed.
  unfoldable pub regist_without_block : ℕ → RegistCsReq → Cps T → Cps T
  unfolding send is_equal
  regist_without_block i req c =
      if ltb (c.config.block_id + 1) req.max_block_id
      then (send (Out.invalid_peer_notify i) c).0
      else if req.max_block_id == c.config.block_id + 1
      then (send (Out.backspace_block_notify i req.max_block_id c.config.block_id) c).0
      else if not (is_equal req.max_block_hash c.config.block_hash) && ltb 0 c.config.block_id
      then (send (Out.backspace_block_notify i req.max_block_id (c.config.block_id - 1)) c).0
      else c

  unfoldable pub regist_in_normal : ℕ → RegistCsReq → Cps T → Cps T
  unfolding front send regist_with_block regist_without_block other_peers
  regist_in_normal i req c =
      if ltb req.max_block_id c.config.block_id
      then (send
          (Out.sync_master_notify i c.config.block_id c.config.block_hash
            (other_peers req.peer_id c.connections))
          c).0
      else elim (front c) [
        | some b ↦ regist_with_block i req b c
        | none ↦ regist_without_block i req c
      ]

  -- What the request leads to in each state, once the connection is registered.
  unfoldable pub regist_by_state : ℕ → RegistCsReq → Cps T → Option (Cps T)
  unfolding query_all registered_num regist_in_sync regist_in_normal send
  regist_by_state i req c = elim c.cps_state [
    | CpsState.follower_state ↦ some c
    | CpsState.master_wait_state ↦ some (
        if leb c.kafka_value (registered_num c.connections)
        then record (query_all c.connections c) { cps_state = CpsState.master_start_state }
        else c)
    | CpsState.master_start_state ↦ some (send (Out.query_max_block_info_req i c.order_id) c).0
    | CpsState.master_sync_state ↦ regist_in_sync i req c
    | CpsState.master_normal_state ↦ some (regist_in_normal i req c)
  ]

  -- OnHtsMsg(CRegistCsCpsReq) of the connection `i`; the Bool tells whether it returned 0.
  unfoldable pub on_regist : ℕ → RegistCsReq → Cps T → Option (Cps T × Bool)
  unfolding find_connection has_peer enter regist_by_state
  on_regist i req c = elim (find_connection i c.connections) [
    | none ↦ none
    | some p ↦
        let next = regist_by_state i req (record c { connections = enter i req c.connections }) in
        if not p.registered && has_peer req.peer_id c.connections
        then some (c, false)
        else elim next [ none ↦ none | some d ↦ some (d, true) ]
  ]
