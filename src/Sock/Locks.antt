-- ===== src/Sock/Locks.antt =====
-- The invariant of the three lock machines, across the parts that every handler is made of.
pub mod Packets
pub mod Work
pub mod Waiting
pub mod Sends
pub mod Round
pub mod Always
mod Tests
use user_message_protocol.Base.{
  ℕ, ◌≡◌, ◌≢◌, refl, List, [], ◌∷◌, Option, none, some, Bool, true, false, arith, ◌⊎◌, inl, inr,
  if_both, sym, subst, length, ap, leb,
}
use user_message_protocol.Packet.{UmpPacket, get_flag, data_bdr}
use user_message_protocol.Sock.{
  UmpSocket, Env, Node, CallMethod, method_close, method_connect, method_all_call, LockState,
  locked, unlocked, SockState, closed, connecting, established, closing, tick, now,
}
use user_message_protocol.Sock.Ack.{set_our_ack_info}
use user_message_protocol.Sock.Receive.{
  join_data, end_receive, end_rec_as, end_receive_internal, harvest_messages, harvest_at,
  message_complete, complete_as, check_at, check_packet, check_rcv_data_so_far, packet_at,
}
use user_message_protocol.Sock.Calls.{end_ctrl, end_send}
use user_message_protocol.Sock.States.{enter_state, change_state, connection_error_occured}

abbrev pub is_locked : LockState → Bool
is_locked locked = true
is_locked unlocked = false

-- The part of a socket through which calls are taken and answered, and its state.
pub record CallView : Type 0 where
  pub ctrl_held : Bool
  pub snd_held : Bool
  pub rec_held : Bool
  pub ctrl_locked : LockState
  pub snd_locked : LockState
  pub rec_locked : LockState
  pub ctrl_para : Option CallMethod
  pub snd_packets : Option (List UmpPacket)
  pub state : SockState
  pub public_state : SockState
  pub error_occured : Bool
  pub receive_called : Bool

abbrev pub calls : {D : Type 0} → UmpSocket D → CallView
calls s = record {
  ctrl_held = s.ctrl_held;
  snd_held = s.snd_held;
  rec_held = s.rec_held;
  ctrl_locked = s.ctrl_locked;
  snd_locked = s.snd_locked;
  rec_locked = s.rec_locked;
  ctrl_para = s.ctrl_para;
  snd_packets = s.snd_packets;
  state = s.state;
  public_state = s.public_state;
  error_occured = s.error_occured;
  receive_called = s.receive_called;
}

-- A step that leaves that part alone.
pub record Keeps {D : Type 0} (s t : UmpSocket D) : Type 0 where
  pub same : calls t ≡ calls s

-- A machine is in the locked state exactly while the thread holds its mutex, and then its call is
-- there; and the state that other threads see is the state.
pub record Agreement (c : CallView) : Type 0 where
  pub ctrl : c.ctrl_held ≡ is_locked c.ctrl_locked
  pub snd : c.snd_held ≡ is_locked c.snd_locked
  pub rec : c.rec_held ≡ is_locked c.rec_locked
  pub ctrl_call : c.ctrl_locked ≡ locked → c.ctrl_para ≢ none
  pub snd_call : c.snd_locked ≡ locked → c.snd_packets ≢ none
  pub rec_call : c.rec_locked ≡ locked → c.receive_called ≡ true
  pub visible : c.public_state ≡ c.state

pub record LocksAgree {D : Type 0} (s : UmpSocket D) : Type 0 where
  pub agreement : Agreement (calls s)

pub Keeps-LocksAgree : {D : Type 0} {s t : UmpSocket D} → Keeps s t → LocksAgree s → LocksAgree t
Keeps-LocksAgree k v = record { agreement = subst Agreement (sym k.same) v.agreement }

pub LockState-cases : (l : LockState) → (l ≡ locked) ⊎ (l ≡ unlocked)
LockState-cases locked = inl refl
LockState-cases unlocked = inr refl

module _ {D : Type 0} where
  pub end_ctrl-LocksAgree :
      (s : UmpSocket D) (m : CallMethod) (result : Bool)
      → LocksAgree s
      → LocksAgree (end_ctrl s m result)
  unfolding end_ctrl
  end_ctrl-LocksAgree s m result v = ground (arith, LockState-cases s.ctrl_locked)

  pub end_send-LocksAgree :
      (s : UmpSocket D) (result : Bool) → LocksAgree s → LocksAgree (end_send s result)
  unfolding end_send
  end_send-LocksAgree s result v = ground (arith, LockState-cases s.snd_locked)

  harvest_messages-Keeps : (s : UmpSocket D) → Keeps s (harvest_messages s)
  unfolding harvest_messages
  harvest_messages-Keeps s = elim s.rcv_first_msg_end as (λ o. Keeps s (harvest_at o s)) [
    | none ↦ record { same = refl }
    | some a ↦ record { same = refl }
  ]

  pub end_receive_internal-Keeps : (s : UmpSocket D) → Keeps s (end_receive_internal s)
  unfolding end_receive_internal set_our_ack_info
  end_receive_internal-Keeps s = record {
    same =
        if_both (λ (t : UmpSocket D). calls t ≡ calls s) (leb 1 s.rcv_packets_msg_num)
          (harvest_messages-Keeps (record s {
            rec_msg_packets = [];
            rec_msg = some (join_data s.rec_msg_packets);
            rec_msg_l = length (join_data s.rec_msg_packets);
          })).same
          refl;
  }

  rec_released :
      (s : UmpSocket D) (result : Bool)
      → Keeps
          (record s { rec_locked = unlocked; rec_held = false; receive_called = false })
          (end_rec_as locked result s)
  rec_released s result = record {
    same =
        if_both
          (λ (t : UmpSocket D).
            calls (record t { receive_called = false; rec_held = false; rec_done = true })
            ≡ calls (record s { rec_locked = unlocked; rec_held = false; receive_called = false }))
          result
          (ap (λ (c : CallView). record c { rec_held = false; receive_called = false })
            (end_receive_internal-Keeps (record s { rec_locked = unlocked; rec_ok = result })).same)
          refl;
  }

  end_rec_as-LocksAgree :
      (l : LockState) (s : UmpSocket D) (result : Bool)
      → LocksAgree s
      → LocksAgree (end_rec_as l result s)
  end_rec_as-LocksAgree unlocked s result v = v
  end_rec_as-LocksAgree locked s result v = Keeps-LocksAgree (rec_released s result) (record {
    agreement = record {
      ctrl = v.agreement.ctrl;
      snd = v.agreement.snd;
      rec = refl;
      ctrl_call = v.agreement.ctrl_call;
      snd_call = v.agreement.snd_call;
      rec_call = λ e. ground arith;
      visible = v.agreement.visible;
    };
  })

  pub end_receive-LocksAgree :
      (s : UmpSocket D) (result : Bool) → LocksAgree s → LocksAgree (end_receive s result)
  unfolding end_receive
  end_receive-LocksAgree s result v = end_rec_as-LocksAgree s.rec_locked s result v

  complete_as-LocksAgree :
      (ns : List Node) (s : UmpSocket D) → LocksAgree s → LocksAgree (complete_as ns s)
  unfolding complete_as
  complete_as-LocksAgree [] s v =
      end_receive-LocksAgree _ true (Keeps-LocksAgree (harvest_messages-Keeps s) v)
  complete_as-LocksAgree (n ∷ ns) s v = v

  message_complete-LocksAgree :
      (a : ℕ) (s : UmpSocket D) → LocksAgree s → LocksAgree (message_complete a s)
  unfolding message_complete
  message_complete-LocksAgree a s v =
      complete_as-LocksAgree s.rec_msg_packets _
        (Keeps-LocksAgree {s = s} (record { same = refl }) v)

  check_packet-LocksAgree :
      (a : ℕ) (o : Option UmpPacket) (s : UmpSocket D)
      → LocksAgree s
      → LocksAgree (check_packet a o s)
  unfolding check_packet
  check_packet-LocksAgree a none s v = v
  check_packet-LocksAgree a (some p) s v =
      if_both LocksAgree (get_flag p data_bdr) (message_complete-LocksAgree a s v) v

  check_at-LocksAgree : (o : Option ℕ) (s : UmpSocket D) → LocksAgree s → LocksAgree (check_at o s)
  unfolding check_at
  check_at-LocksAgree none s v = v
  check_at-LocksAgree (some a) s v = check_packet-LocksAgree a (packet_at a s.rcv_data_packets) s v

  -- Counting a message that became complete, and answering a receive call with it, keeps the
  -- invariant.
  pub check_rcv_data_so_far-LocksAgree :
      (s : UmpSocket D) → LocksAgree s → LocksAgree (check_rcv_data_so_far s)
  unfolding check_rcv_data_so_far
  check_rcv_data_so_far-LocksAgree s v = check_at-LocksAgree s.rcv_data_so_far s v

  enter_state-LocksAgree :
      (env : Env D) (st : SockState) (s : UmpSocket D)
      → LocksAgree s
      → LocksAgree (enter_state env st s)
  unfolding enter_state
  enter_state-LocksAgree env closed s v =
      end_ctrl-LocksAgree _ method_close true
        (if_both LocksAgree _ (end_receive-LocksAgree _ false v1) v1)
    where
      v1 : LocksAgree (record (tick s) { close_time = now env s })
      v1 = Keeps-LocksAgree {s = s} (record { same = refl }) v
  enter_state-LocksAgree env connecting s v = v
  enter_state-LocksAgree env established s v =
      end_ctrl-LocksAgree _ method_connect true
        (Keeps-LocksAgree {s = s} (record { same = refl }) v)
  enter_state-LocksAgree env closing s v = v

  -- Changing the state keeps the invariant, the state that other threads see included.
  pub change_state-LocksAgree :
      (env : Env D) (s : UmpSocket D) (st : SockState)
      → LocksAgree s
      → LocksAgree (change_state env s st)
  unfolding change_state
  change_state-LocksAgree env s st v = enter_state-LocksAgree env st _ (record {
    agreement = record {
      ctrl = v.agreement.ctrl;
      snd = v.agreement.snd;
      rec = v.agreement.rec;
      ctrl_call = v.agreement.ctrl_call;
      snd_call = v.agreement.snd_call;
      rec_call = v.agreement.rec_call;
      visible = refl;
    };
  })

  -- An error keeps the invariant: no mutex stays with the thread that a machine does not answer for.
  pub connection_error_occured-LocksAgree :
      (env : Env D) (s : UmpSocket D) → LocksAgree s → LocksAgree (connection_error_occured env s)
  unfolding connection_error_occured
  connection_error_occured-LocksAgree env s v = end_receive-LocksAgree _ false (
      end_send-LocksAgree _ false (
        end_ctrl-LocksAgree _ method_all_call false (
          change_state-LocksAgree env _ closed (record {
            agreement = record {
              ctrl = v.agreement.ctrl;
              snd = v.agreement.snd;
              rec = v.agreement.rec;
              ctrl_call = v.agreement.ctrl_call;
              snd_call = v.agreement.snd_call;
              rec_call = v.agreement.rec_call;
              visible = v.agreement.visible;
            };
          }))))
