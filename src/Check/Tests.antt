-- ===== src/Check/Tests.antt =====
-- Servers and messages that the theorems on the NAT check are tried on.
use qnatter.Common.{
  ◌≡◌, refl, true, false, some, arith, List, [], ◌∷◌, ◌++◌, ok, Bytes, put_uint32, slice, byte_at,
  uint16, uint32, bytes_eq,
}
use qnatter.Net.{v4, AddrPort, addr_eq}
use qnatter.Stun.Message.{
  magic_cookie, parse_mapped_address, read_payload, attribute_loop, read_attribute,
  parse_address_attribute, address_field, unmask_ip, unmask_port,
}
use qnatter.Check.Message.{
  parse_stun_mapped_address, stun_loop, parse_stun_address_attribute, stun_address,
}
use qnatter.Check.Message.Lockstep.{parse_stun_mapped_address-parse_mapped_address}
use qnatter.Check.Nat.{StunTestResult, Probed, probed, no_answer, UdpServer, check_udp_nat_type}
use qnatter.Check.Nat.Decided.{Decides, answered_count, check_udp_nat_type-Decides}
use qnatter.Check.Exchange.{Read, received, read_reply}
use qnatter.Check.Exchange.Replies.{IsReply, read_reply_iff}
use qnatter.Check.Cone.{check_tcp_cone}
use qnatter.Check.Cone.Answers.{AllAnswer, check_tcp_cone-cone_of, cone_of, answers}

abbrev outer : AddrPort
outer = record { addr = v4 (203 ∷ 0 ∷ 113 ∷ 7 ∷ []); port = 40000 }

abbrev inner : AddrPort
inner = record { addr = v4 (192 ∷ 168 ∷ 1 ∷ 2 ∷ []); port = 5000 }

abbrev txid : Bytes
txid = 1 ∷ 2 ∷ 3 ∷ 4 ∷ 5 ∷ 6 ∷ 7 ∷ 8 ∷ 9 ∷ 10 ∷ 11 ∷ 12 ∷ []

-- A success response with the plain form of the address.
abbrev response : Bytes
response =
    1 ∷ 1 ∷ 0 ∷ 12 ∷ 33 ∷ 18 ∷ 164 ∷ 66 ∷ 1 ∷ 2 ∷ 3 ∷ 4 ∷ 5 ∷ 6 ∷ 7 ∷ 8 ∷ 9 ∷ 10 ∷ 11 ∷ 12 ∷ 0 ∷ 1
    ∷ 0 ∷ 8 ∷ 0 ∷ 1 ∷ 156 ∷ 64 ∷ 203 ∷ 0 ∷ 113 ∷ 7 ∷ []

response_parses : parse_mapped_address response txid ≡ ok outer
unfolding parse_mapped_address read_payload attribute_loop read_attribute parse_address_attribute
    address_field unmask_ip unmask_port slice byte_at uint16 uint32 bytes_eq
response_parses = refl

abbrev answer : Probed
answer = probed (record { source = inner; mapped = outer; ip_changed = true; port_changed = true })

abbrev tcp_servers : List Probed
tcp_servers = answer ∷ no_answer ∷ answer ∷ answer ∷ []

check_tcp_cone-cone_of_example : check_tcp_cone tcp_servers ≡ ok (cone_of (answers tcp_servers))
check_tcp_cone-cone_of_example =
    check_tcp_cone-cone_of tcp_servers (unfold AllAnswer in (refl, (refl, (refl, tt))))

abbrev udp_server : UdpServer
udp_server = record { normal = answer; changed = no_answer; changed_port = answer }

check_udp_nat_type-Decides_example :
    Decides
      (answered_count (udp_server ∷ udp_server ∷ []))
      (check_udp_nat_type (udp_server ∷ udp_server ∷ []))
check_udp_nat_type-Decides_example = check_udp_nat_type-Decides (udp_server ∷ udp_server ∷ [])

parse_stun_mapped_address-parse_mapped_address_example :
    parse_stun_mapped_address response (put_uint32 magic_cookie ++ txid) ≡ ok outer
parse_stun_mapped_address-parse_mapped_address_example =
    parse_stun_mapped_address-parse_mapped_address response txid outer (ground arith) refl
      response_parses

-- A datagram that is too short comes before the answer, which another port sends.
abbrev server : AddrPort
server = record { addr = v4 (203 ∷ 0 ∷ 113 ∷ 1 ∷ []); port = 3478 }

abbrev other_port : AddrPort
other_port = record { addr = v4 (203 ∷ 0 ∷ 113 ∷ 1 ∷ []); port = 3479 }

abbrev reads : List Read
reads = received (1 ∷ 2 ∷ []) (some server) ∷ received response (some other_port) ∷ []

abbrev full_txid : Bytes
full_txid = put_uint32 magic_cookie ++ txid

abbrev test_result : StunTestResult
test_result = record { source = inner; mapped = outer; ip_changed = false; port_changed = true }

reads_answer : read_reply server full_txid (some inner) reads ≡ ok test_result
unfolding read_reply parse_stun_mapped_address stun_loop parse_stun_address_attribute stun_address
    slice byte_at uint16 uint32 bytes_eq put_uint32 addr_eq
reads_answer = refl

read_reply_iff_example : IsReply server full_txid inner reads test_result
read_reply_iff_example = (read_reply_iff server full_txid inner test_result reads).0 reads_answer
