-- ===== src/Message/Tests.antt =====
-- A message of five bytes in packets of two.
use user_message_protocol.Base.{
  ℕ, zero, suc, ◌+◌, u16, ap, subst, ◌∙◌, get_elem?, Option, none, ◌≡◌, ◌<◌, ◌≤◌, refl, true, List,
  [], ◌∷◌, some, length, All, arith,
}
use user_message_protocol.Base.Int.{ℤ, pos}
use user_message_protocol.Message.{split_message, packets_count, fill, receive_message}
use user_message_protocol.Message.Split.{Fits, split_message-Fits}
use user_message_protocol.Message.Whole.{prepared}
use user_message_protocol.Message.Network.{arrivals, comes, of_packets}
use user_message_protocol.Packet.{UmpPacket}
use user_message_protocol.Packet.Codec.{write, from_binary}
use user_message_protocol.Sock.Calls.{sock_send}
use user_message_protocol.Sock.Sending.{handle_send}
use user_message_protocol.Sock.Data.Sent.{Sent, has_number}
use user_message_protocol.Message.Network.{has_number-arrivals, heard}
use user_message_protocol.Message.Whole.{IsData, fill-IsData}
use user_message_protocol.Message.Carried.{Carries, Sound, write-Sound}
use user_message_protocol.Message.Outgoing.{IsLoaded, IsSending}
use user_message_protocol.Message.EndToEnd.{
  heard_all, brought, prepared-IsLoaded, handle_send-IsSending, message_delivered,
}
use user_message_protocol.Sock.{UmpSocket, established, locked}
use user_message_protocol.Sock.Data.{handle_data_packets}
use user_message_protocol.Sock.Data.Reordering.{IsReady}
use user_message_protocol.Samples.{sample_sock, sample_env}

abbrev hello : List ℕ
hello = 5 ∷ 6 ∷ 7 ∷ 8 ∷ 9 ∷ []

split_message-Fits_example :
    (length (split_message 2 hello) ≡ packets_count 2 (length hello))
    × All (Fits 2) (split_message 2 hello)
split_message-Fits_example = split_message-Fits 2 hello (omega arith)

abbrev waiting : UmpSocket ℤ
waiting = record sample_sock {
  state = established;
  their_data_seq_base = 65534;
  rec_locked = locked;
}

waiting-IsReady : IsReady (of_packets 65534 (split_message 2 hello)) waiting
waiting-IsReady = record {
  state = refl;
  base = refl;
  list = refl;
  so_far = refl;
  none_complete = refl;
  none_taken = refl;
}

-- The third datagram first, and twice.
abbrev order : List ℕ
order = 2 ∷ 0 ∷ 2 ∷ 1 ∷ []

hello_packets : length (split_message 2 hello) ≡ 3
unfolding split_message fill
hello_packets = refl

order-inside : All (λ (j : ℕ). j < length (split_message 2 hello)) order
order-inside =
    let e = hello_packets in (omega arith, (omega arith, (omega arith, (omega arith, tt))))

order-whole : (i : ℕ) → i < length (split_message 2 hello) → comes i order ≡ true
order-whole i h = let e = hello_packets in ground arith

hello_count : packets_count 2 (length hello) ≤ 32768
unfolding packets_count
hello_count = omega arith

abbrev parts : List UmpPacket
parts = split_message 2 hello

abbrev message : Sent
message = of_packets 65534 parts

parts-IsData : All IsData parts
unfolding split_message
parts-IsData = fill-IsData 5 2 hello

abbrev array : List UmpPacket
array = prepared 2 65534 hello

array-IsLoaded : IsLoaded message array
unfolding prepared
array-IsLoaded = prepared-IsLoaded 65534 parts (omega arith) parts-IsData

abbrev datagrams : List UmpPacket → List (List ℕ)
datagrams [] = []
datagrams (p ∷ ps) = (write p).1 ∷ datagrams ps

datagrams-Sound :
    (m : Sent) (ps : List UmpPacket) (k : ℕ)
    → ((j : ℕ) (p : UmpPacket) → get_elem? ps j ≡ some p → Carries m (k + j) p)
    → All (Sound m) (datagrams ps)
datagrams-Sound m [] k h = tt
datagrams-Sound m (p ∷ ps) k h = (
  write-Sound m (k + 0) p (h 0 p refl),
  datagrams-Sound m ps (suc k)
      (λ j q e. subst (λ (i : ℕ). Carries m i q) (omega arith) (h (suc j) q e)),
)

get-datagrams :
    (ps : List UmpPacket) (j : ℕ)
    → get_elem? (datagrams ps) j
      ≡ elim (get_elem? ps j) as (λ _. Option (List ℕ)) [ none ↦ none | some p ↦ some (write p).1 ]
get-datagrams [] j = refl
get-datagrams (p ∷ ps) zero = refl
get-datagrams (p ∷ ps) (suc j) = get-datagrams ps j

heard_all-brought :
    (ps : List UmpPacket) (js : List ℕ) → heard_all (brought (datagrams ps) js) ≡ arrivals ps js
unfolding heard_all brought arrivals
heard_all-brought ps [] = refl
heard_all-brought ps (j ∷ js) =
    ap
      (λ (o : Option (List ℕ)). heard_all (elim o as (λ _. List (List ℕ)) [
        | none ↦ brought (datagrams ps) js
        | some d ↦ d ∷ brought (datagrams ps) js
      ]))
      (get-datagrams ps j)
    ∙ one (get_elem? ps j) (heard_all-brought ps js)
  where
    one :
        (o : Option UmpPacket)
        → heard_all (brought (datagrams ps) js) ≡ arrivals ps js
        → heard_all
            (elim (elim o as (λ _. Option (List ℕ)) [ none ↦ none | some p ↦ some (write p).1 ])
              as (λ _. List (List ℕ)) [
                | none ↦ brought (datagrams ps) js
                | some d ↦ d ∷ brought (datagrams ps) js
              ])
          ≡ elim o as (λ _. List UmpPacket) [
            | none ↦ arrivals ps js
            | some p ↦ heard (from_binary (write p).1) (arrivals ps js)
          ]
    one none ih = ih
    one (some p) ih = ap (heard (from_binary (write p).1)) ih

-- A sender that has sent each packet once.
abbrev sender : UmpSocket ℤ
sender = record sample_sock {
  state = established;
  our_data_start_seq = 65534;
  snd_locked = locked;
  snd_packets = some array;
  sent = datagrams array;
}

sender-IsSending : IsSending message sender
sender-IsSending = record {
  packets = array;
  given = refl;
  loaded = array-IsLoaded;
  ack = record { seq = omega arith; wnd = omega arith };
  sound =
      datagrams-Sound message array 0
        (λ j p e. subst (λ (i : ℕ). Carries message i p) (omega arith) (array-IsLoaded.at j p e));
}

comes_through :
    (i : ℕ)
    → i < length parts
    → has_number (u16 (65534 + i)) (heard_all (brought (datagrams array) order)) ≡ true
unfolding prepared
comes_through i h =
    ap (has_number (u16 (65534 + i))) (heard_all-brought array order)
    ∙ has_number-arrivals 65534 parts (omega arith) parts-IsData i order order-inside
        (order-whole i h)

message_delivered_example :
    let u = handle_data_packets sample_env waiting (heard_all (brought sender.sent order)) in
    let r = receive_message u in
    (u.rec_done ≡ true) × (r.0 ≡ pos 0) × (r.1 ≡ (some hello, length hello))
message_delivered_example =
    message_delivered sample_env sender waiting 2 5 (6 ∷ 7 ∷ 8 ∷ 9 ∷ []) order (omega arith)
      (omega arith) hello_count sender-IsSending waiting-IsReady refl comes_through

-- A sender that has sent nothing yet.
abbrev fresh : UmpSocket ℤ
fresh = record sample_sock { state = established; our_data_start_seq = 65534 }

parts_some : 0 < length parts
parts_some = let e = hello_packets in omega arith

handle_send-IsSending_example : IsSending message (handle_send (sock_send fresh parts) true)
handle_send-IsSending_example =
    handle_send-IsSending fresh parts (omega arith) parts-IsData parts_some refl refl refl
      (record { seq = omega arith; wnd = omega arith }) tt
