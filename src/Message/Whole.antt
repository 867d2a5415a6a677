-- ===== src/Message/Whole.antt =====
-- The packets of a message on their way: numbered and marked, written as datagrams, read by the peer.
use user_message_protocol.Base.{
  ℕ, zero, suc, ◌+◌, ◌-◌, ◌<◌, ◌≡◌, refl, sym, ap, subst, ◌∙◌, List, [], ◌∷◌, ◌++◌, some, arith,
  true, false, Bool, if◌then◌else◌, if_both, ltb, length, All, u16, u16_mod,
}
use user_message_protocol.Packet.{
  UmpPacket, user, outgoing, new, set_flag, set_data, get_flag, data_bdr,
}
use user_message_protocol.Packet.Codec.{
  payload, from_binary, write, Parsed, parsed, rejected, overread,
}
use user_message_protocol.Packet.Codec.RoundTrip.{from_binary-write, IsSendable, seen, received}
use user_message_protocol.Sock.{Node}
use user_message_protocol.Sock.Sending.{number_packets, mark_last}
use user_message_protocol.Sock.Receive.{join_data, find_bdr, until}
use user_message_protocol.Message.{data_packet, fill, split_message}
use user_message_protocol.Message.Split.{contents, fill_step}

-- The packets that `ump_sndunlocked_handle_snd` makes of a message.
unfoldable pub prepared : ℕ → ℕ → List ℕ → List UmpPacket
prepared mss seq bytes = mark_last (number_packets seq (split_message mss bytes))

-- What the peer makes of a datagram: a node of its own for what can be read, and nothing else.
unfoldable pub node_for : ℕ → Parsed → List Node → List Node
node_for addr (parsed q) rest = record { addr = addr; packet = q } ∷ rest
node_for addr (rejected freed) rest = rest
node_for addr overread rest = rest

-- The peer's list of received packets when their datagrams arrive in order.
unfoldable pub arrive : ℕ → List UmpPacket → List Node
unfolding node_for
arrive addr [] = []
arrive addr (p ∷ ps) = node_for addr (from_binary (write p).1) (arrive (suc addr) ps)

-- A packet as the loop of `ump_send_message` makes it.
pub record IsData (p : UmpPacket) : Type 0 where
  pub bytes : List ℕ
  pub made : p ≡ data_packet bytes

pub fill-IsData : (fuel mss : ℕ) (bytes : List ℕ) → All IsData (fill fuel mss bytes)
unfolding fill
fill-IsData zero mss bytes = tt
fill-IsData (suc fuel) mss [] = tt
fill-IsData (suc fuel) mss (x ∷ xs) =
    if_both (All IsData) (ltb 0 (length (x ∷ xs)))
      (record { bytes = _; made = refl }, fill-IsData fuel mss _) tt

-- The packet of a message with the number `seq`, the last one or another.
abbrev pub sealed : Bool → ℕ → List ℕ → UmpPacket
sealed b seq bytes = record (new user outgoing) {
  changed = true;
  data_flags = if b then 108 else 100;
  seq_num = seq;
  user_data = some bytes;
}

pub sealed-last :
    (seq : ℕ) (bytes : List ℕ)
    → mark_last (number_packets seq (data_packet bytes ∷ [])) ≡ sealed true seq bytes ∷ []
unfolding mark_last number_packets data_packet set_data set_flag new
sealed-last seq bytes = refl

pub sealed-more :
    (seq : ℕ) (bytes : List ℕ) (q : UmpPacket) (ps : List UmpPacket)
    → mark_last (number_packets seq (data_packet bytes ∷ q ∷ ps))
      ≡ sealed false seq bytes ∷ mark_last (number_packets (u16 (seq + 1)) (q ∷ ps))
unfolding mark_last number_packets data_packet set_data set_flag new
sealed-more seq bytes q ps = refl

pub sealed-IsSendable :
    (b : Bool) (seq : ℕ) (bytes : List ℕ) → seq < u16_mod → IsSendable (sealed b seq bytes)
unfolding new
sealed-IsSendable true seq bytes h = record {
  version = (refl, refl);
  seq = h;
  ack = omega arith;
  mss = omega arith;
  wnd = omega arith;
}
sealed-IsSendable false seq bytes h = record {
  version = (refl, refl);
  seq = h;
  ack = omega arith;
  mss = omega arith;
  wnd = omega arith;
}

pub payload-received : (bytes : List ℕ) → payload (received bytes) ≡ bytes
payload-received [] = refl
payload-received (x ∷ xs) = refl

arrive-sealed :
    (b : Bool) (addr seq : ℕ) (bytes : List ℕ) (ps : List UmpPacket)
    → seq < u16_mod
    → arrive addr (sealed b seq bytes ∷ ps)
      ≡ record { addr = addr; packet = seen user (sealed b seq bytes) } ∷ arrive (suc addr) ps
unfolding arrive new
arrive-sealed b addr seq bytes ps h =
    ap (λ (r : Parsed). node_for addr r (arrive (suc addr) ps))
      (from_binary-write (sealed b seq bytes) (sealed-IsSendable b seq bytes h))

-- What is put together from the nodes of the message `bytes`, cut into `ps`.
pub record IsWhole (addr : ℕ) (ps : List UmpPacket) (ns : List Node) : Type 0 where
  pub joined : join_data ns ≡ contents ps
  pub ends : find_bdr ns ≡ some (addr + (length ps - 1))
  pub taken : until (addr + (length ps - 1)) ns ≡ ns

node : Bool → ℕ → ℕ → List ℕ → Node
node b addr seq bytes = record { addr = addr; packet = seen user (sealed b seq bytes) }

is_bdr :
    (b : Bool) (addr seq : ℕ) (bytes : List ℕ)
    → get_flag (node b addr seq bytes).packet data_bdr ≡ b
unfolding node new get_flag
is_bdr true addr seq bytes = refl
is_bdr false addr seq bytes = refl

payload-node :
    (b : Bool) (addr seq : ℕ) (bytes : List ℕ)
    → payload (node b addr seq bytes).packet.user_data ≡ bytes
unfolding node new
payload-node b addr seq bytes = payload-received bytes

one-IsWhole :
    (addr seq : ℕ) (bytes : List ℕ)
    → IsWhole addr (data_packet bytes ∷ []) (node true addr seq bytes ∷ [])
unfolding join_data find_bdr until data_packet set_data new node get_flag
one-IsWhole addr seq bytes = record {
  joined = ap (λ (xs : List ℕ). xs ++ []) (payload-received bytes);
  ends = ground arith;
  taken = ground arith;
}

more-IsWhole :
    (addr seq : ℕ) (bytes : List ℕ) (q : UmpPacket) (ps : List UmpPacket) (ns : List Node)
    → IsWhole (suc addr) (q ∷ ps) ns
    → IsWhole addr (data_packet bytes ∷ q ∷ ps) (node false addr seq bytes ∷ ns)
unfolding join_data find_bdr until data_packet set_data new node get_flag
more-IsWhole addr seq bytes q ps ns w =
    let later : suc addr + (length (q ∷ ps) - 1)
        ≡ addr + (length (data_packet bytes ∷ q ∷ ps) - 1) =
      omega arith in
    record {
      joined =
          ap (λ (xs : List ℕ). xs ++ join_data ns) (payload-received bytes)
          ∙ ap (λ (ys : List ℕ). bytes ++ ys) w.joined;
      ends = w.ends ∙ ap some (omega arith);
      taken = ground (arith, subst (λ (k : ℕ). until k ns ≡ ns) later w.taken);
    }

arrive-IsWhole :
    (addr seq : ℕ) (q : UmpPacket) (ps : List UmpPacket)
    → seq < u16_mod
    → All IsData (q ∷ ps)
    → IsWhole addr (q ∷ ps) (arrive addr (mark_last (number_packets seq (q ∷ ps))))
unfolding arrive node
arrive-IsWhole addr seq q [] h (d, ds) =
    subst
      (λ (p : UmpPacket).
        IsWhole addr (p ∷ []) (arrive addr (mark_last (number_packets seq (p ∷ [])))))
      (sym d.made)
      (subst (λ (ps : List UmpPacket). IsWhole addr (data_packet d.bytes ∷ []) (arrive addr ps))
        (sym (sealed-last seq d.bytes))
        (subst (IsWhole addr (data_packet d.bytes ∷ []))
          (sym (arrive-sealed true addr seq d.bytes [] h)) (one-IsWhole addr seq d.bytes)))
arrive-IsWhole addr seq q (r ∷ ps) h (d, ds) =
    let rest = arrive-IsWhole (suc addr) (u16 (seq + 1)) r ps (omega arith) ds in
    subst
      (λ (p : UmpPacket).
        IsWhole addr (p ∷ r ∷ ps) (arrive addr (mark_last (number_packets seq (p ∷ r ∷ ps)))))
      (sym d.made)
      (subst (λ (qs : List UmpPacket). IsWhole addr (data_packet d.bytes ∷ r ∷ ps) (arrive addr qs))
        (sym (sealed-more seq d.bytes r ps))
        (subst (IsWhole addr (data_packet d.bytes ∷ r ∷ ps))
          (sym (
            arrive-sealed false addr seq d.bytes
              (mark_last (number_packets (u16 (seq + 1)) (r ∷ ps))) h))
          (more-IsWhole addr seq d.bytes r ps _ rest)))

pub prepared-IsWhole :
    (mss seq addr x : ℕ) (xs : List ℕ)
    → seq < u16_mod
    → IsWhole addr (split_message mss (x ∷ xs)) (arrive addr (prepared mss seq (x ∷ xs)))
unfolding prepared split_message
prepared-IsWhole mss seq addr x xs h =
    subst
      (λ (ps : List UmpPacket). IsWhole addr ps (arrive addr (mark_last (number_packets seq ps))))
      (sym (fill_step (length xs) mss x xs))
      (arrive-IsWhole addr seq _ _ h
        (record { bytes = _; made = refl }, fill-IsData (length xs) mss _))
