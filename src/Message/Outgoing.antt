-- ===== src/Message/Outgoing.antt =====
-- The datagrams that a sender hands to `ump_sendto` while it sends a message.
use user_message_protocol.Base.{ℕ, ◌≡◌, List, Option, none, some, get_elem?, All}
use user_message_protocol.Packet.{UmpPacket}
use user_message_protocol.Sock.{UmpSocket}
use user_message_protocol.Sock.Data.Sent.{Sent}
use user_message_protocol.Message.Carried.{Carries, AckFits, Sound}

-- An array of packets of the message, each at its place.
pub record IsLoaded (m : Sent) (packets : List UmpPacket) : Type 0 where
  pub at : (j : ℕ) (p : UmpPacket) → get_elem? packets j ≡ some p → Carries m j p

-- A sender of the message, which has sent sound datagrams only.
pub record IsSending {D : Type 0} (m : Sent) (s : UmpSocket D) : Type 0 where
  pub packets : List UmpPacket
  pub given : s.snd_packets ≡ some packets
  pub loaded : IsLoaded m packets
  pub ack : AckFits s
  pub sound : All (Sound m) s.sent

module _ {D : Type 0} (m : Sent) where
  -- What attaching an acknowledgement leaves of the socket.
  abbrev Kept : UmpSocket D → UmpSocket D → Type 0
  Kept s t = (t.sent ≡ s.sent) × AckFits t

  -- What holds of the socket, if there is one.
  abbrev pub Results : (UmpSocket D → Type 0) → Option (UmpSocket D) → Type 0
  Results P none = Unit
  Results P (some t) = P t
