-- ===== src/Mdns/Responder.antt =====
-- compute_space/src/compute_space/core/mdns/responder.py: `_handle` of one packet, and the start and stop of
-- `update`. The socket, and the library calls inet_ntoa and inet_aton, are parameters.
pub mod Silence
use cloud_in_a_bottle.Shared.{
  Bool, List, List_eq, Option, Result, String_eq, Text, codes, false, filter, if◌then◌else◌, length,
  ltb, map, none, not, ok, raise, some, true, when_set, ℕ, ℕ_eq, ◌==◌, ◌>>=◌, ◌||◌,
}
use cloud_in_a_bottle.Mdns.Bytes.{
  Bytes, MdnsError, illegal_address, not_a_byte, not_encodable, not_in_format,
}
use cloud_in_a_bottle.Mdns.Answers.{mdns_port, build_answer}
use cloud_in_a_bottle.Mdns.Packets.{Query, parse_query}
use cloud_in_a_bottle.Domains.{Domain, mdns, name_no_port}

pub record Address : Type 0 where
  pub host : Text
  pub port : ℕ

-- IP_PKTINFO: the interface, and its address.
pub record PacketInfo : Type 0 where
  pub ifindex : ℕ
  pub local_addr : Bytes

pub record Reply : Type 0 where
  pub packet : Bytes
  pub ifindex : ℕ
  pub source : Bytes
  pub destination : Address

pub record MdnsResponder : Type 0 where
  pub domains : List Text
  pub listening : Bool

abbrev pub group : Address
group = record { host = codes "224.0.0.251"; port = mdns_port }

-- What an exception of the two calls comes to: a malformed packet is passed over, the rest propagates.
unfoldable pub is_malformed : MdnsError → Bool
is_malformed not_in_format = false
is_malformed not_a_byte = false
is_malformed not_encodable = false
is_malformed illegal_address = false
is_malformed _ = true

unfoldable pub parsed_or_none : Result MdnsError (Option Query) → Result MdnsError (Option Query)
parsed_or_none (raise why) = if is_malformed why then ok none else raise why
parsed_or_none (ok query) = ok query

module _ (inet_aton : Text → Result MdnsError Bytes) (inet_ntoa : Bytes → Text) where
  unfoldable pub answer_to :
      PacketInfo → Address → List Text → Option Query → Result MdnsError (Option Reply)
  answer_to info addr domains none = ok none
  answer_to info addr domains (some query) =
      build_answer inet_aton domains (inet_ntoa info.local_addr) query addr.port >>= (λ reply. ok (
        when_set reply (λ packet. some (record {
          packet = packet;
          ifindex = info.ifindex;
          source = info.local_addr;
          destination = if not (addr.port == mdns_port) then addr else group;
        }))))

  module _ (str_lower : Text → Text) where
    -- A packet with its IP_PKTINFO; the reply that is sent, if any.
    unfoldable pub handle :
        Bytes → PacketInfo → Address → MdnsResponder → Result MdnsError (Option Reply)
    handle data' info addr r =
        if inet_ntoa info.local_addr == codes "0.0.0.0"
        then ok none
        else (parsed_or_none (parse_query str_lower data') >>= answer_to info addr r.domains)

-- `update`, with whether the socket can be bound.
unfoldable pub update : Bool → List Domain → MdnsResponder → MdnsResponder
update can_bind domains r =
    let published = map name_no_port (filter mdns domains) in
    record {
      domains = published;
      listening = if ltb 0 (length published) then r.listening || can_bind else false;
    }
