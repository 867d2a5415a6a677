-- ===== src/Sock/Locks/Round.antt =====
-- The invariant of the lock machines across a whole round of the thread.
use user_message_protocol.Base.{◌≡◌, refl, Option, none, some, Bool, if_both, subst}
use user_message_protocol.Timer.{ump_max_sleep_ms}
use user_message_protocol.Sock.{UmpSocket, Env, tick}
use user_message_protocol.Sock.Sending.{handle_send_data}
use user_message_protocol.Sock.Thread.{
  fetch_received_packets, receive_phase, work_phase, settle_sleep, round,
}
use user_message_protocol.Sock.Locks.{LocksAgree, Keeps-LocksAgree}
use user_message_protocol.Sock.Locks.Packets.{
  kept, handle_ctrl-LocksAgree, handle_ctrl_packet-LocksAgree, handle_ctrl_timeout-LocksAgree,
  handle_send_ctrl_packet-LocksAgree,
}
use user_message_protocol.Sock.Locks.Work.{
  handle_data_packet-LocksAgree, handle_data_timeout-LocksAgree,
}
use user_message_protocol.Sock.Locks.Waiting.{handle_send-LocksAgree, handle_receive-LocksAgree}
use user_message_protocol.Sock.Locks.Sends.{
  refresh_our_rwnd_pos-LocksAgree, refresh_our_ack_info-Keeps, act_req_wnd-Keeps,
  handle_send_heartbeat-Keeps, Agreeing, handle_send_data_as-LocksAgree, sent-Agreeing,
}

module _ {D : Type 0} (env : Env D) where
  work_phase-LocksAgree : (s : UmpSocket D) → LocksAgree s → Agreeing (work_phase env s)
  unfolding work_phase handle_send_data
  work_phase-LocksAgree s v = if_both Agreeing s.error_occured v (
      sent-Agreeing env _ (
        handle_send_data_as-LocksAgree env _ _ (
          Keeps-LocksAgree (handle_send_heartbeat-Keeps env _) (
            handle_send_ctrl_packet-LocksAgree env _ (
              handle_ctrl_timeout-LocksAgree env _ (
                Keeps-LocksAgree (act_req_wnd-Keeps env _) (
                  Keeps-LocksAgree (refresh_our_ack_info-Keeps env _) (
                    refresh_our_rwnd_pos-LocksAgree env _ (
                      handle_data_timeout-LocksAgree env _
                        (handle_data_packet-LocksAgree env s v))))))))))

  receive_phase-LocksAgree : (s : UmpSocket D) → LocksAgree s → LocksAgree (receive_phase env s)
  unfolding receive_phase fetch_received_packets
  receive_phase-LocksAgree s v =
      if_both LocksAgree s.error_occured v (handle_ctrl_packet-LocksAgree env _ (kept s v refl))

  settled-Agreeing :
      (start : UmpSocket D) (o : Option (UmpSocket D))
      → Agreeing o
      → Agreeing (elim o as (λ _. Option (UmpSocket D)) [
        | none ↦ none
        | some s ↦ some (settle_sleep env start s)
      ])
  unfolding settle_sleep
  settled-Agreeing start none v = tt
  settled-Agreeing start (some s) v = kept s v refl

  -- `LocksAgree` of the result, where there is one.
  round-Agreeing : (s : UmpSocket D) (a b c : Bool) → LocksAgree s → Agreeing (round env s a b c)
  unfolding round
  round-Agreeing s a b c v = settled-Agreeing s _ (
      work_phase-LocksAgree _ (
        receive_phase-LocksAgree _ (
          handle_receive-LocksAgree _ c (
            handle_send-LocksAgree _ b (
              handle_ctrl-LocksAgree env (record (tick s) { sleep_ms = ump_max_sleep_ms }) a
                (kept s v refl))))))

  -- A round of the thread that ends keeps the invariant of the lock machines, whichever of the three
  -- locks it gets.
  pub round-LocksAgree :
      (s : UmpSocket D) (free_ctrl free_snd free_rec : Bool) {t : UmpSocket D}
      → round env s free_ctrl free_snd free_rec ≡ some t
      → LocksAgree s
      → LocksAgree t
  round-LocksAgree s free_ctrl free_snd free_rec e v =
      subst Agreeing e (round-Agreeing s free_ctrl free_snd free_rec v)
