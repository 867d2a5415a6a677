-- ===== src/Message/Carried.antt =====
-- The packets of a message as they lie in the sender's array and go out: with the last
-- acknowledgement on them, or with none.
use user_message_protocol.Base.{
  ℕ, suc, ◌<◌, ◌≡◌, refl, sym, ap, subst, ◌∙◌, List, some, arith, true, false, Bool, ◌==◌, u16_mod,
  if_both, ltb, bit_and, bit_or, bit_xor,
}
use user_message_protocol.Packet.{
  UmpPacket, user, new, set_flag, clear_flag, get_flag, up_ver, up_type, ump_ver, data_seq,
  data_bdr, data_ack, data_wnd,
}
use user_message_protocol.Packet.Codec.{from_binary, write, parsed, to_binary}
use user_message_protocol.Packet.Codec.RoundTrip.{from_binary-write, seen, sent_field}
use user_message_protocol.Sock.{UmpSocket}
use user_message_protocol.Sock.Ack.{set_packet_ack_info, clear_packet_ack_info}
use user_message_protocol.Sock.Sending.{attach_ack}
use user_message_protocol.Sock.Data.Sent.{Sent, IsPart, Incoming, part, number}
use user_message_protocol.Message.Whole.{payload-received}

-- The flags of a data packet with a number: the last of its message or not, with an acknowledgement
-- or not.
abbrev pub flags : Bool → Bool → ℕ
flags false false = 100
flags false true = 103
flags true false = 108
flags true true = 111

-- The packet `j` of the message at its sender.
pub record Carries (m : Sent) (j : ℕ) (p : UmpPacket) : Type 0 where
  pub inside : j < m.count
  pub kind : p.p_type ≡ user
  pub acked : Bool
  pub flagged : p.data_flags ≡ flags (suc j == m.count) acked
  pub numbered : p.seq_num ≡ number m j
  pub bytes : p.user_data ≡ some (m.load j)
  pub ack : p.ack_num < u16_mod
  pub mss : p.mss_num < u16_mod
  pub wnd : p.wnd_num < u16_mod

-- What the acknowledgement in a socket says fits 16 bits.
pub record AckFits {D : Type 0} (s : UmpSocket D) : Type 0 where
  pub seq : s.ack_info.data_ack_seq < u16_mod
  pub wnd : s.ack_info.data_ack_wnd < u16_mod

-- The peer reads the datagram, as a packet of the message or as an acknowledgement.
pub record Sound (m : Sent) (d : List ℕ) : Type 0 where
  pub packet : UmpPacket
  pub read : from_binary d ≡ parsed packet
  pub incoming : Incoming m packet

-- A data packet with these fields can be sent, and is read as the packet it is.
abbrev carried : Bool → Bool → UmpPacket → UmpPacket
carried b a p = record p { p_type = user; data_flags = flags b a }

flags_version :
    (b a : Bool) → (bit_and (flags b a) up_ver ≡ ump_ver) × (bit_and (flags b a) up_type ≡ 32)
flags_version false false = (refl, refl)
flags_version false true = (refl, refl)
flags_version true false = (refl, refl)
flags_version true true = (refl, refl)

flags_seq : (b a : Bool) → ltb 0 (bit_and (flags b a) data_seq) ≡ true
flags_seq false false = refl
flags_seq false true = refl
flags_seq true false = refl
flags_seq true true = refl

flags_bdr : (b a : Bool) → ltb 0 (bit_and (flags b a) data_bdr) ≡ b
flags_bdr false false = refl
flags_bdr false true = refl
flags_bdr true false = refl
flags_bdr true true = refl

flags_acked : (b a : Bool) → bit_or (bit_or (flags b a) data_ack) data_wnd ≡ flags b true
flags_acked false false = refl
flags_acked false true = refl
flags_acked true false = refl
flags_acked true true = refl

flags_bare :
    (b a : Bool)
    → bit_and (bit_and (flags b a) (bit_xor data_ack 255)) (bit_xor data_wnd 255) ≡ flags b false
flags_bare false false = refl
flags_bare false true = refl
flags_bare true false = refl
flags_bare true true = refl

carried-IsPart :
    (m : Sent) (j : ℕ) (b a : Bool) (p : UmpPacket)
    → j < m.count
    → b ≡ (suc j == m.count)
    → p.seq_num ≡ number m j
    → p.user_data ≡ some (m.load j)
    → IsPart m j (seen user (carried b a p))
unfolding get_flag new
carried-IsPart m j b a p h e n d = record {
  inside = h;
  numbered = ap (λ (c : Bool). sent_field c p.seq_num) (flags_seq b a) ∙ n;
  in_sequence = flags_seq b a;
  ending = flags_bdr b a ∙ e;
  bytes = rw d (payload-received (m.load j));
}

same_fields :
    (m : Sent) (j : ℕ) (p : UmpPacket) (c : Carries m j p)
    → p ≡ carried (suc j == m.count) c.acked p
same_fields m j p c = λ i. record p { p_type = c.kind i; data_flags = c.flagged i }

-- A packet of the message, written, is sound.
pub write-Sound : (m : Sent) (j : ℕ) (p : UmpPacket) → Carries m j p → Sound m (write p).1
write-Sound m j p c =
    let b = suc j == m.count in
    subst (λ (q : UmpPacket). Sound m (write q).1) (sym (same_fields m j p c))
      (record {
        packet = seen user (carried b c.acked p);
        read = from_binary-write (carried b c.acked p) (record {
          version = flags_version b c.acked;
          seq = let e = c.numbered in omega arith;
          ack = c.ack;
          mss = c.mss;
          wnd = c.wnd;
        });
        incoming = part j (carried-IsPart m j b c.acked p c.inside refl c.numbered c.bytes);
      })

module _ {D : Type 0} (m : Sent) (j : ℕ) (s : UmpSocket D) (p : UmpPacket) (c : Carries m j p) where
  acked-Carries : AckFits s → Carries m j (set_packet_ack_info s p).0
  unfolding set_packet_ack_info set_flag
  acked-Carries f =
      let b = suc j == m.count in
      subst (λ (q : UmpPacket). Carries m j (set_packet_ack_info s q).0) (sym (same_fields m j p c))
        (record {
          inside = c.inside;
          kind = refl;
          acked = true;
          flagged = flags_acked b c.acked;
          numbered = c.numbered;
          bytes = c.bytes;
          ack = f.seq;
          mss = c.mss;
          wnd = f.wnd;
        })

  bare-Carries : Carries m j (clear_packet_ack_info p)
  unfolding clear_packet_ack_info clear_flag
  bare-Carries =
      let b = suc j == m.count in
      subst (λ (q : UmpPacket). Carries m j (clear_packet_ack_info q)) (sym (same_fields m j p c))
        (record {
          inside = c.inside;
          kind = refl;
          acked = false;
          flagged = flags_bare b c.acked;
          numbered = c.numbered;
          bytes = c.bytes;
          ack = c.ack;
          mss = c.mss;
          wnd = c.wnd;
        })

  -- The acknowledgement goes on or off, and the packet stays that of the message.
  pub attach_ack-Carries : AckFits s → Carries m j (attach_ack s p).0
  unfolding attach_ack
  attach_ack-Carries f =
      if_both (λ (r : UmpPacket × UmpSocket D). Carries m j r.0) s.ack_info.data_ack_set
        (acked-Carries f) bare-Carries

-- Either way the packet has changed, so that it is written out anew.
pub attach_ack-changed :
    {D : Type 0} (s : UmpSocket D) (p : UmpPacket) → (attach_ack s p).0.changed ≡ true
unfolding attach_ack set_packet_ack_info clear_packet_ack_info set_flag clear_flag
attach_ack-changed s p = ground arith

pub to_binary-changed : (p : UmpPacket) → p.changed ≡ true → to_binary p ≡ write p
unfolding to_binary
to_binary-changed p e = ground (arith, e)
