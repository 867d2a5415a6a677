-- ===== src/Core/Release.antt =====
-- The end of a core: `ump_core_close` of user_message_protocol/ump.c.
use user_message_protocol.Base.{
  ℕ, ◌≡◌, refl, ◌∙◌, ap, Option, none, some, Bool, true, ◌&&◌, List, arith, if_both, if◌then◌else◌,
}
use user_message_protocol.Core.{Peer, UmpCore, free_where, always}
use user_message_protocol.Core.Clean.{core_close}
use user_message_protocol.Core.Place.{
  Place, nowhere, in_backlog, calling, in_use, at_rest, occupant, At,
}
use user_message_protocol.Core.Table.{SockAddr, GHashTable, IsTable, contains, spare}

spare-none : (o : Option ℕ) → spare always o ≡ none
spare-none none = refl
spare-none (some i) = refl

module _ {D : Type 0} (socks : ℕ → Option (Peer D)) (is : List ℕ) (i : ℕ) where
  freed_here : contains i is ≡ true → free_where always is socks i ≡ none
  freed_here e = ap (λ (b : Bool). if b && true then none else socks i) e

  freed_before : socks i ≡ none → free_where always is socks i ≡ none
  freed_before e = if_both (λ o. o ≡ none) (contains i is && always i) refl e

module _ {D : Type 0} {h : GHashTable} (laws : IsTable h) where
  -- When a core is closed, no table has an entry any more, and the socket that was in a table at an
  -- address is freed, whichever table it was.
  pub core_close_frees :
      (c : UmpCore D h) (a : SockAddr) (p : Place)
      → At c a p
      → At (core_close c) a nowhere
        × ((i : ℕ) → occupant p ≡ some i → (core_close c).socks i ≡ none)
  unfolding core_close
  core_close_frees c a p at = (
    record {
      umps_at = emptied c.umps;
      backlog_at = emptied c.backlog_umps;
      act_at = emptied c.act_connect;
      closed_at = emptied c.closed_umps;
      live = λ i o. absurd (ground (arith, o));
    },
    λ i e. gone p at i e,
  )
    where
      emptied : (t : h.Table) → h.lookup (h.foreach_remove always t) a ≡ none
      emptied t = laws.lookup-foreach_remove t always a ∙ spare-none (h.lookup t a)

      us : List ℕ
      us = h.values c.umps

      cs : List ℕ
      cs = h.values c.closed_umps

      xs : List ℕ
      xs = h.values c.act_connect

      bs : List ℕ
      bs = h.values c.backlog_umps

      s1 : ℕ → Option (Peer D)
      s1 = free_where always us c.socks

      s2 : ℕ → Option (Peer D)
      s2 = free_where always cs s1

      s3 : ℕ → Option (Peer D)
      s3 = free_where always xs s2

      gone :
          (p : Place) → At c a p → (i : ℕ) → occupant p ≡ some i → free_where always bs s3 i ≡ none
      gone nowhere w i e = absurd (ground (arith, e))
      gone (in_backlog j) w i e =
          freed_here s3 bs i (laws.key→value c.backlog_umps a i (w.backlog_at ∙ e))
      gone (calling j) w i e =
          freed_before s3 bs i
            (freed_here s2 xs i (laws.key→value c.act_connect a i (w.act_at ∙ e)))
      gone (at_rest j) w i e = freed_before s3 bs i (
          freed_before s2 xs i
            (freed_here s1 cs i (laws.key→value c.closed_umps a i (w.closed_at ∙ e))))
      gone (in_use j) w i e = freed_before s3 bs i (
          freed_before s2 xs i (
            freed_before s1 cs i
              (freed_here c.socks us i (laws.key→value c.umps a i (w.umps_at ∙ e)))))
