-- ===== src/Examples/Elections.antt =====
-- A leader election among three order nodes.
use vorder.Base.{◌≡◌, refl, true, ◌&&◌, not, List, [], ◌∷◌, arith}
use vorder.Order.Raft.{Agent, Event, on_init, step, on_vote_rsp, raft_vote_time_out}
use vorder.Order.Raft.Votes.{within, voted_terms, above, voted_terms-above}
use vorder.Order.Raft.Leader.{step-tells, tells_master, tells_follower, leads, IsTimed}

abbrev start : Agent
unfolding on_init
start = (on_init 1 3 (10 ∷ 11 ∷ [])).0

abbrev events : List Event
events =
    Event.connected 10 ∷ Event.timer ∷ Event.vote_answer true ∷ Event.timer ∷ Event.vote_req 4 ∷ []

voted_terms-above_example : above 0 (voted_terms events start) ≡ true
unfolding within start
voted_terms-above_example = voted_terms-above events 4 start (omega arith) (omega arith) refl

abbrev candidate : Agent
unfolding raft_vote_time_out on_init
candidate = (raft_vote_time_out start).0

step-tells_example :
    IsTimed (step (Event.vote_answer true) candidate).0
    × (tells_master (step (Event.vote_answer true) candidate).1
        ≡ (leads (step (Event.vote_answer true) candidate).0 && not (leads candidate)))
    × (tells_follower (step (Event.vote_answer true) candidate).1
        ≡ (leads candidate && not (leads (step (Event.vote_answer true) candidate).0)))
unfolding leads candidate
step-tells_example =
    step-tells (Event.vote_answer true) candidate (λ e. ground arith, λ e. ground arith)

abbrev leader : Agent
unfolding on_vote_rsp raft_vote_time_out on_init
leader = (on_vote_rsp true candidate).0
