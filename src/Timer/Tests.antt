-- ===== src/Timer/Tests.antt =====
-- Runs of the timer.
use homa_module.Prelude.{◌+◌, ◌≡◌, ◌≤◌, ◌%◌, refl, true, false, [], ◌∷◌, arith, leb, replicate}
use homa_module.Pool.{u32_mod}
use homa_module.Outgoing.{message_out_init, tx_end, tx_end_loop}
use homa_module.Timer.{
  incoming, outgoing, TimedRpc, TimerParams, no_action, resend, abort_rpc, timer_rpc,
  timer_check_rpc, check_ack, not_expecting, silent_action,
}
use homa_module.Timer.Ticks.{
  Tick, actions, SilentPeer, silent_peer_lem, Since, arrival, ticked, expects, abort_lem,
}
use homa_module.Timer.Acks.{need_ack_lem}

abbrev params : TimerParams
params = record { request_ack_ticks = 2; resend_ticks = 2; resend_interval = 2; timeout_ticks = 5 }

-- A client waits for the rest of a response.
abbrev waiting : TimedRpc
waiting = record {
  is_client = true;
  state = incoming;
  silent_ticks = 0;
  done_timer_ticks = 0;
  msgout = message_out_init 0 0 0;
  len = 5000;
  bytes_remaining = 2000;
  granted = 5000;
  num_bpages = 1;
}

abbrev tick : Tick
tick = record { timer_ticks = 9; users = λ o. 1 }

silent_run :
    actions params waiting (replicate 5 tick)
    ≡ no_action ∷ resend ∷ no_action ∷ resend ∷ abort_rpc ∷ []
unfolding timer_rpc timer_check_rpc check_ack not_expecting silent_action tx_end tx_end_loop
    message_out_init
silent_run = refl

silent_peer_lem_example : SilentPeer params (actions params waiting (replicate 5 tick))
unfolding timer_rpc timer_check_rpc check_ack not_expecting tx_end tx_end_loop message_out_init
silent_peer_lem_example =
    silent_peer_lem params waiting (replicate 5 tick) (omega arith) (omega arith) (omega arith) refl
      refl (refl, (refl, (refl, (refl, (refl, tt)))))

-- Four ticks without a packet, and the fifth.
abbrev nearly : TimedRpc
nearly = record waiting { silent_ticks = 4 }

nearly-Since : Since params 4 nearly
unfolding timer_rpc timer_check_rpc check_ack not_expecting tx_end tx_end_loop message_out_init
nearly-Since =
    ticked 3 (record waiting { silent_ticks = 3 }) tick
      (ticked 2 (record waiting { silent_ticks = 2 }) tick
        (ticked 1 (record waiting { silent_ticks = 1 }) tick
          (ticked 0 waiting tick (arrival waiting refl))))

abort_lem_example : (expects params 9 (λ o. 1) nearly ≡ true) × (5 ≤ 4 + 1)
unfolding timer_rpc timer_check_rpc check_ack not_expecting silent_action tx_end tx_end_loop
    message_out_init
abort_lem_example = abort_lem params 4 nearly tick nearly-Since refl

-- A server has sent its response, and the count of the ticks wraps around.
abbrev answered : TimedRpc
answered = record waiting { is_client = false; state = outgoing; done_timer_ticks = 0 }

need_ack_lem_example :
    let first = check_ack params (4294967295 % u32_mod) answered.msgout.len answered in
    (first.1 ≡ false)
    × (check_ack params ((4294967295 + 3) % u32_mod) answered.msgout.len first.0
        ≡ (first.0, leb 2 3))
need_ack_lem_example =
    need_ack_lem params 4294967295 3 answered.msgout.len answered refl refl refl refl
      (λ e. absurd (omega (arith, e))) (omega arith) (omega arith) (omega arith)
