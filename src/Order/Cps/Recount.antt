-- ===== src/Order/Cps/Recount.antt =====
-- A registration while a block is being distributed, in order_channel_process_service.cpp.
use vorder.Base.{
  ℕ, ◌+◌, ◌<◌, ◌^◌, ◌%◌, ◌≡◌, refl, true, false, some, List, [], ◌∷◌, arith, ◌==◌, leb, Bool-cases,
  inl, inr,
}
use vorder.Block.{is_equal}
use vorder.Order.Cps.{Services, Cps, CpsState, Connection, LocalBlockInfo, post, send, front, Out}
use vorder.Order.Cps.Persist.{count_rsp, on_distribute_block_rsp, find_connection, set_recv}
use vorder.Order.Cps.Regist.{
  RegistCsReq, on_regist, enter, clear_recv, regist_by_state, regist_in_normal, regist_with_block,
  send_block,
}

find_connection-clear_recv :
    (i : ℕ) (req : RegistCsReq) (ps : List Connection) (p : Connection)
    → find_connection i ps ≡ some p
    → (q : Connection) × (find_connection i (clear_recv i (enter i req ps)) ≡ some q)
      × (q.recv_dist_block_rsp ≡ false)
unfolding find_connection clear_recv enter
find_connection-clear_recv i req [] p h = absurd cc
find_connection-clear_recv i req (x ∷ ps) p h = elim (Bool-cases (x.handle_id == i)) [
  | inl e ↦
      let q : Connection = record x {
        registered = true;
        recv_dist_block_rsp = false;
        peer_id = req.peer_id;
        cas_port = req.cas_port;
        cas_ip_addr = req.cas_ip_addr;
        regist_max_block_id = req.max_block_id;
        regist_max_block_hash = req.max_block_hash;
      } in
      (q, ground (arith, e), refl)
  | inr e ↦
      let (q, found, clear) = find_connection-clear_recv i req ps p (ground (arith, e)) in
      (q, ground (arith, e, found), clear)
]

module _ (sv : Services) where
  -- A peer that is registered and registers again, with the block that is being distributed, while the
  -- service is in its normal state, messages are sent and the quorum is not reached by one more answer:
  -- its next answer is counted once more, whether it has answered for this block before or not.
  pub on_regist-recount :
      (i : ℕ) (req : RegistCsReq) (c : Cps sv.vt.Table) (p : Connection) (b : LocalBlockInfo)
      → c.cps_state ≡ CpsState.master_normal_state
      → c.net ≡ []
      → find_connection i c.connections ≡ some p
      → p.registered ≡ true
      → front c ≡ some b
      → c.config.block_id < b.block_id
      → req.max_block_id ≡ b.block_id
      → is_equal req.max_block_hash b.block_hash ≡ true
      → c.dist_block_rsp_peer_count + 1 < c.kafka_value
      → c.kafka_value < 2 ^ 32
      → (d e : Cps sv.vt.Table) × (on_regist i req c ≡ some (d, true))
        × (on_distribute_block_rsp sv i b.block_id d ≡ some e)
        × (e.dist_block_rsp_peer_count ≡ c.dist_block_rsp_peer_count + 1)
  unfolding on_regist regist_by_state regist_in_normal regist_with_block send_block send post front
      on_distribute_block_rsp count_rsp
  on_regist-recount i req c p b normal net found registered at newer id hash few small =
      let u : Cps sv.vt.Table = record c { connections = enter i req c.connections } in
      let d = send_block i b u in
      let (q, again, clear) = find_connection-clear_recv i req c.connections p found in
      let r : on_regist i req c ≡ some (d, true) = ground (arith) in
      let f : front d ≡ some b = ground arith in
      let seen : find_connection i d.connections ≡ some q = ground (arith, again) in
      let n : d.dist_block_rsp_peer_count ≡ c.dist_block_rsp_peer_count = ground arith in
      let k : d.kafka_value ≡ c.kafka_value = ground arith in
      let m : (d.dist_block_rsp_peer_count + 1) % 2 ^ 32 ≡ c.dist_block_rsp_peer_count + 1 =
        omega (arith, n) in
      let e : Cps sv.vt.Table = post (Out.cancel_resend_timer i) (record d {
        connections = set_recv i d.connections;
        dist_block_rsp_peer_count = (d.dist_block_rsp_peer_count + 1) % 2 ^ 32;
      }) in
      let below : leb d.kafka_value ((d.dist_block_rsp_peer_count + 1) % 2 ^ 32) ≡ false =
        ground (arith, m, k) in
      let counted : count_rsp sv i d ≡ some e = ground (arith, below) in
      (d, e, r, ground (arith, f, seen, clear, counted), m)
