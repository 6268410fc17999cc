-- ===== src/Order/Raft/Votes.antt =====
-- Terms and votes of order_channel_process_agent_service.cpp.
use vorder.Base.{
  ℕ, ◌+◌, ◌^◌, ◌≤◌, ◌<◌, ◌≡◌, refl, Bool, true, false, List, [], ◌∷◌, ltb, leb, length, arith, ◌&&◌,
  if◌then◌else◌,
}
use vorder.Order.Raft.{
  Agent, Action, Event, TimerType, step, on_connected_nodify, on_network_error, on_timer,
  receive_raft_heart_beat, get_raft_vote_rsp, on_vote_rsp, raft_vote_time_out,
}

-- The terms that an event's message carries are at most `m`.
unfoldable pub within : ℕ → List Event → Bool
within m [] = true
within m (Event.heart_beat l t ∷ es) = leb t m && within m es
within m (Event.vote_req t ∷ es) = leb t m && within m es
within m (e ∷ es) = within m es

within-suc : (m : ℕ) (es : List Event) → within m es ≡ true → within (m + 1) es ≡ true
unfolding within
within-suc m [] h = refl
within-suc m (Event.connected i ∷ es) h = within-suc m es h
within-suc m (Event.network_error i ∷ es) h = within-suc m es h
within-suc m (Event.timer ∷ es) h = within-suc m es h
within-suc m (Event.heart_beat l t ∷ es) h = ground (arith, within-suc m es)
within-suc m (Event.vote_req t ∷ es) h = ground (arith, within-suc m es)
within-suc m (Event.vote_answer g ∷ es) h = within-suc m es h

-- Whether the node gives a vote: to itself when its vote timer runs out, or in its answer.
unfoldable pub votes : Event → Agent → Bool
unfolding step
votes Event.timer a = elim a.timer_type [
  | TimerType.vote_timer ↦ true
  | TimerType.heart_beat_timer ↦ false
]
votes (Event.vote_req t) a = elim (step (Event.vote_req t) a).1 [
  | Action.vote_rsp b ∷ rest ↦ b
  | _ ↦ false
]
votes e a = false

-- The terms in which votes are given along a run.
unfoldable pub voted_terms : List Event → Agent → List ℕ
unfolding votes step
voted_terms [] a = []
voted_terms (e ∷ es) a =
    let rest = voted_terms es (step e a).0 in if votes e a then ((step e a).0).term ∷ rest else rest

-- Strictly increasing, from above `n` on.
unfoldable pub above : ℕ → List ℕ → Bool
above n [] = true
above n (t ∷ ts) = ltb n t && above t ts

above-le : (m n : ℕ) (ts : List ℕ) → m ≤ n → above n ts ≡ true → above m ts ≡ true
unfolding above
above-le m n [] h k = refl
above-le m n (t ∷ ts) h k = ground arith

step-term_within :
    (e : Event) (es : List Event) (m : ℕ) (a : Agent)
    → a.term ≤ m
    → m + 1 < 2 ^ 64
    → within m (e ∷ es) ≡ true
    → (a.term ≤ ((step e a).0).term)
      × (((step e a).0).term ≤ m + 1)
      × (within m es ≡ true)
      × (votes e a ≡ true → a.term < ((step e a).0).term)
unfolding step within votes on_connected_nodify on_network_error on_timer receive_raft_heart_beat
    get_raft_vote_rsp on_vote_rsp raft_vote_time_out
step-term_within (Event.connected i) es m a k h w = (ground arith, ground arith, w, ground arith)
step-term_within (Event.network_error i) es m a k h w =
    (ground arith, ground arith, w, ground arith)
step-term_within Event.timer es m a k h w = (ground arith, ground arith, w, ground arith)
step-term_within (Event.heart_beat l t) es m a k h w =
    (ground arith, ground arith, ground arith, ground arith)
step-term_within (Event.vote_req t) es m a k h w =
    (ground arith, ground arith, ground arith, ground arith)
step-term_within (Event.vote_answer g) es m a k h w = (ground arith, ground arith, w, ground arith)

-- A node never votes twice in a term: when its term and the terms of the messages are at most `m`,
-- and `m` with the number of events stays below 2 ^ 64, the terms in which it votes along a run, for
-- itself or for another, are above its term at the start and strictly increase.
pub voted_terms-above :
    (es : List Event) (m : ℕ) (a : Agent)
    → a.term ≤ m
    → m + length es < 2 ^ 64
    → within m es ≡ true
    → above a.term (voted_terms es a) ≡ true
unfolding voted_terms above
voted_terms-above [] m a k h w = refl
voted_terms-above (e ∷ es) m a k h w =
    let (le, ub, w', new) = step-term_within e es m a k (omega arith) w in
    let rest = voted_terms-above es (m + 1) (step e a).0 ub (omega arith) (within-suc m es w') in
    ground (arith, above-le a.term ((step e a).0).term (voted_terms es (step e a).0))
