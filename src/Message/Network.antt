-- ===== src/Message/Network.antt =====
-- A message in a network that reorders, doubles and loses datagrams: what the peer makes of the
-- datagrams that reach it.
use user_message_protocol.Base.{
  ℕ, zero, suc, ◌+◌, ◌<◌, ◌≡◌, refl, sym, ap, subst, ◌∙◌, List, [], ◌∷◌, ◌++◌, Option, none, some,
  arith, true, false, Bool, ◌==◌, ◌||◌, length, get_elem?, All, Bool-cases, inl, inr, u16, u16_mod,
}
use user_message_protocol.Packet.{UmpPacket, user, new, get_flag}
use user_message_protocol.Packet.Codec.{
  payload, from_binary, write, Parsed, parsed, rejected, overread,
}
use user_message_protocol.Packet.Codec.RoundTrip.{from_binary-write, seen}
use user_message_protocol.Sock.Sending.{number_packets, mark_last}
use user_message_protocol.Sock.Data.Sent.{Sent, IsPart, Incoming, part, number, loads, has_number}
use user_message_protocol.Message.{data_packet}
use user_message_protocol.Message.Split.{contents, payload-data_packet}
use user_message_protocol.Message.Whole.{
  IsData, sealed, sealed-last, sealed-more, sealed-IsSendable, payload-received,
}

-- What the receiving thread makes of a datagram, in front of what it makes of the later ones.
unfoldable pub heard : Parsed → List UmpPacket → List UmpPacket
heard (parsed p) rest = p ∷ rest
heard (rejected freed) rest = rest
heard overread rest = rest

-- What it makes of the datagrams of the packets `sent` that the network brings: `js` are their
-- places, in the order in which they come in.
unfoldable pub arrivals : List UmpPacket → List ℕ → List UmpPacket
unfolding heard
arrivals sent [] = []
arrivals sent (j ∷ js) = elim (get_elem? sent j) [
  | none ↦ arrivals sent js
  | some p ↦ heard (from_binary (write p).1) (arrivals sent js)
]

-- Whether the place is among them.
abbrev pub comes : ℕ → List ℕ → Bool
comes i [] = false
comes i (j ∷ js) = (j == i) || comes i js

-- The payload of the packet at a place.
abbrev pub chunk : List UmpPacket → ℕ → List ℕ
chunk [] j = []
chunk (p ∷ ps) zero = payload p.user_data
chunk (p ∷ ps) (suc j) = chunk ps j

-- The packets as their receiver sees them.
abbrev pub of_packets : ℕ → List UmpPacket → Sent
of_packets seq ps = record { start = seq; count = length ps; load = chunk ps }

pub loads-contents :
    (m : Sent) (i : ℕ) (ps : List UmpPacket)
    → ((j : ℕ) → m.load (i + j) ≡ chunk ps j)
    → loads m i (length ps) ≡ contents ps
unfolding loads
loads-contents m i [] h = refl
loads-contents m i (p ∷ ps) h =
    ap (λ (xs : List ℕ). xs ++ loads m (suc i) (length ps)) (ap m.load (omega arith) ∙ h 0)
    ∙ ap (λ (xs : List ℕ). payload p.user_data ++ xs)
        (loads-contents m (suc i) ps (λ j. ap m.load (omega arith) ∙ h (suc j)))

-- What is at a place of the array when the packets are numbered and marked.
abbrev pub At : ℕ → ℕ → List UmpPacket → Type 0
At seq j ps =
    get_elem? (mark_last (number_packets seq ps)) j
    ≡ some (sealed (suc j == length ps) (u16 (seq + j)) (chunk ps j))

first-At :
    (seq : ℕ) (b : Bool) (bytes : List ℕ)
    → seq < u16_mod
    → ◌≡◌ {A = Option UmpPacket}
        (some (sealed b seq bytes))
        (some (sealed b (u16 (seq + 0)) (payload (data_packet bytes).user_data)))
first-At seq b bytes h =
    ap (λ (q : ℕ). some (sealed b q bytes)) (omega arith)
    ∙ ap (λ (xs : List ℕ). some (sealed b (u16 (seq + 0)) xs)) (sym (payload-data_packet bytes))

not_last : (n : ℕ) → false ≡ (1 == suc (suc n))
not_last n = ground arith

suc-same : (i j : ℕ) → (i == j) ≡ (suc i == suc j)
suc-same i j = ground arith

data_packet-At :
    (seq j : ℕ) (bytes : List ℕ) (ps : List UmpPacket)
    → seq < u16_mod
    → All IsData ps
    → j < suc (length ps)
    → At seq j (data_packet bytes ∷ ps)
data_packet-At seq zero bytes [] hs ds h =
    ap (λ (qs : List UmpPacket). get_elem? qs 0) (sealed-last seq bytes)
    ∙ first-At seq true bytes hs
data_packet-At seq (suc j) bytes [] hs ds h = absurd (omega arith)
data_packet-At seq zero bytes (q ∷ ps) hs ds h =
    ap (λ (qs : List UmpPacket). get_elem? qs 0) (sealed-more seq bytes q ps)
    ∙ first-At seq false bytes hs
    ∙ ap (λ (b : Bool). some (sealed b (u16 (seq + 0)) (payload (data_packet bytes).user_data)))
        (not_last (length ps))
data_packet-At seq (suc j) bytes (q ∷ ps) hs (d, ds) h =
    let later : At (u16 (seq + 1)) j (q ∷ ps) =
      subst (λ (p : UmpPacket). At (u16 (seq + 1)) j (p ∷ ps)) (sym d.made)
        (data_packet-At (u16 (seq + 1)) j d.bytes ps (omega arith) ds (omega arith)) in
    ap (λ (qs : List UmpPacket). get_elem? qs (suc j)) (sealed-more seq bytes q ps)
    ∙ later
    ∙ ap (λ (b : Bool). some (sealed b (u16 (u16 (seq + 1) + j)) (chunk (q ∷ ps) j)))
        (suc-same (suc j) (suc (length ps)))
    ∙ ap (λ (x : ℕ). some (sealed (suc (suc j) == suc (suc (length ps))) x (chunk (q ∷ ps) j)))
        (omega arith)

pub prepared-At :
    (seq j : ℕ) (ps : List UmpPacket) → seq < u16_mod → All IsData ps → j < length ps → At seq j ps
prepared-At seq j [] hs h u = absurd (omega arith)
prepared-At seq j (p ∷ ps) hs (d, ds) u =
    subst (λ (q : UmpPacket). At seq j (q ∷ ps)) (sym d.made)
      (data_packet-At seq j d.bytes ps hs ds u)

-- The packet that the peer reads.
sealed-IsPart :
    (m : Sent) (j : ℕ) (b : Bool)
    → b ≡ (suc j == m.count)
    → j < m.count
    → IsPart m j (seen user (sealed b (number m j) (m.load j)))
unfolding get_flag new
sealed-IsPart m j true e h = record {
  inside = h;
  numbered = refl;
  in_sequence = refl;
  ending = e;
  bytes = payload-received (m.load j);
}
sealed-IsPart m j false e h = record {
  inside = h;
  numbered = refl;
  in_sequence = refl;
  ending = e;
  bytes = payload-received (m.load j);
}

module _ (seq : ℕ) (ps : List UmpPacket) (hs : seq < u16_mod) (ds : All IsData ps) where
  abbrev m : Sent
  m = of_packets seq ps

  abbrev sent : List UmpPacket
  sent = mark_last (number_packets seq ps)

  -- The packet at the place `j`, read by the peer.
  abbrev read : ℕ → UmpPacket
  read j = seen user (sealed (suc j == length ps) (number m j) (chunk ps j))

  read-IsPart : (j : ℕ) → j < length ps → IsPart m j (read j)
  read-IsPart j u = sealed-IsPart m j (suc j == length ps) refl u

  arrivals_step :
      (j : ℕ) (js : List ℕ) → j < length ps → arrivals sent (j ∷ js) ≡ read j ∷ arrivals sent js
  unfolding arrivals heard new
  arrivals_step j js u =
      ap
        (λ (o : Option UmpPacket). elim o as (λ _. List UmpPacket) [
          | none ↦ arrivals sent js
          | some p ↦ heard (from_binary (write p).1) (arrivals sent js)
        ])
        (prepared-At seq j ps hs ds u)
      ∙ ap (λ (r : Parsed). heard r (arrivals sent js))
          (from_binary-write _
            (sealed-IsSendable (suc j == length ps) (number m j) (chunk ps j) (omega arith)))

  -- What comes in are packets of the message.
  pub arrivals-Incoming :
      (js : List ℕ) → All (λ (j : ℕ). j < length ps) js → All (Incoming m) (arrivals sent js)
  unfolding arrivals
  arrivals-Incoming [] h = tt
  arrivals-Incoming (j ∷ js) (u, h) =
      subst (All (Incoming m)) (sym (arrivals_step j js u))
        (part j (read-IsPart j u), arrivals-Incoming js h)

  -- The places that come are the numbers that are there.
  pub has_number-arrivals :
      (i : ℕ) (js : List ℕ)
      → All (λ (j : ℕ). j < length ps) js
      → comes i js ≡ true
      → has_number (number m i) (arrivals sent js) ≡ true
  unfolding has_number
  has_number-arrivals i [] h e = absurd (ground arith)
  has_number-arrivals i (j ∷ js) (u, h) e =
      ap (has_number (number m i)) (arrivals_step j js u)
      ∙ rw ((read-IsPart j u).in_sequence, (read-IsPart j u).numbered)
          (elim (Bool-cases (j == i)) [
            | inl same ↦ let here : j ≡ i = ground arith in ground (arith, ap (number m) here)
            | inr other ↦ ground (arith, has_number-arrivals i js h)
          ])
