-- ===== src/Check/Exchange/Replies.antt =====
-- From which datagram the result of a UDP exchange comes.
use qnatter.Common.{
  ◌≡◌, refl, sym, ◌↔◌, Option, none, some, List, [], ◌∷◌, ◌++◌, Outcome, ok, err, panic, stuck,
  take, Bytes, All, ap,
}
use qnatter.Check.Exchange.{
  buffer_size, Read, received, failed, reply_of, with_addresses, on_parsed, read_reply,
}
use qnatter.Check.Message.{StunError, parse_stun_mapped_address}
use qnatter.Check.Nat.{StunTestResult}
use qnatter.Errors.{Error}
use qnatter.Net.{AddrPort}

ok-injective : {x y : StunTestResult} → ◌≡◌ {A = Outcome Error StunTestResult} (ok x) (ok y) → x ≡ y
ok-injective h = cc

module _ (server : AddrPort) (txid : Bytes) where
  -- A datagram that the parser refuses.
  abbrev pub IsNoAnswer : Read → Type 0
  IsNoAnswer (received datagram from) =
      (e : StunError) × (parse_stun_mapped_address (take buffer_size datagram) txid ≡ err e)
  IsNoAnswer (failed e) = ⊥

  -- The first datagram that the parser reads, and what is made of it.
  pub record IsReply (source : AddrPort) (reads : List Read) (r : StunTestResult) : Type 0 where
    pub skipped : List Read
    pub datagram : Bytes
    pub from : AddrPort
    pub rest : List Read
    pub mapped : AddrPort
    pub parts : reads ≡ skipped ++ (received datagram (some from) ∷ rest)
    pub no_answers : All IsNoAnswer skipped
    pub is_answer : parse_stun_mapped_address (take buffer_size datagram) txid ≡ ok mapped
    pub result : r ≡ reply_of server source mapped from

  module _ (source : AddrPort) (r : StunTestResult) where
    later :
        (read : Read) (reads : List Read)
        → IsNoAnswer read
        → IsReply source reads r
        → IsReply source (read ∷ reads) r
    later read reads refused h = record {
      skipped = read ∷ h.skipped;
      datagram = h.datagram;
      from = h.from;
      rest = h.rest;
      mapped = h.mapped;
      parts = ap (◌∷◌ read) h.parts;
      no_answers = (refused, h.no_answers);
      is_answer = h.is_answer;
      result = h.result;
    }

    answered :
        (datagram : Bytes) (from : Option AddrPort) (reads : List Read) (mapped : AddrPort)
        → parse_stun_mapped_address (take buffer_size datagram) txid ≡ ok mapped
        → with_addresses server (some source) mapped from ≡ ok r
        → IsReply source (received datagram from ∷ reads) r
    answered datagram none reads mapped e h = cc
    answered datagram (some from) reads mapped e h = record {
      skipped = [];
      datagram = datagram;
      from = from;
      rest = reads;
      mapped = mapped;
      parts = refl;
      no_answers = tt;
      is_answer = e;
      result = sym (ok-injective h);
    }

    found :
        (reads : List Read)
        → read_reply server txid (some source) reads ≡ ok r
        → IsReply source reads r
    unfolding read_reply
    found [] h = cc
    found (failed e ∷ reads) h = cc
    found (received datagram from ∷ reads) h =
        by_parse (parse_stun_mapped_address (take buffer_size datagram) txid) refl (found reads) h
      where
        by_parse :
            (o : Outcome StunError AddrPort)
            → parse_stun_mapped_address (take buffer_size datagram) txid ≡ o
            → (read_reply server txid (some source) reads ≡ ok r → IsReply source reads r)
            → on_parsed server (some source) from o (read_reply server txid (some source) reads)
              ≡ ok r
            → IsReply source (received datagram from ∷ reads) r
        by_parse (ok mapped) e rest h = answered datagram from reads mapped e h
        by_parse (err x) e rest h = later (received datagram from) reads (x, e) (rest h)
        by_parse panic e rest h = cc
        by_parse stuck e rest h = cc

    skips :
        (skipped : List Read) (datagram : Bytes) (from : AddrPort) (rest : List Read)
        (mapped : AddrPort)
        → All IsNoAnswer skipped
        → parse_stun_mapped_address (take buffer_size datagram) txid ≡ ok mapped
        → read_reply server txid (some source) (skipped ++ (received datagram (some from) ∷ rest))
          ≡ ok (reply_of server source mapped from)
    unfolding read_reply
    skips [] datagram from rest mapped refused e = rw e refl
    skips (received other_one sender ∷ skipped) datagram from rest mapped refused e =
        rw refused.0.1 (skips skipped datagram from rest mapped refused.1 e)
    skips (failed x ∷ skipped) datagram from rest mapped refused e = elim refused.0 [ ]

    -- The loop of `UDPSTUNTest` gives a result exactly if one of the datagrams is a response to its
    -- transaction whose sender is known: the first that the parser reads, behind any number of others
    -- that it refuses, with no failed read before it.
    pub read_reply_iff :
        (reads : List Read)
        → (read_reply server txid (some source) reads ≡ ok r) ↔ IsReply source reads r
    read_reply_iff reads = (
      found reads,
      λ h.
          rw (h.parts, h.result)
            (skips h.skipped h.datagram h.from h.rest h.mapped h.no_answers h.is_answer),
    )
