-- ===== src/Packet/Types.antt =====
-- The structures of include/packet/packet.hpp.
use packet_guard.Base.{ℕ, Bool, List, Option, Text}
use packet_guard.Core.Diagnostics.{Diagnostics}
use packet_guard.Core.Ip.{IPv4Address}
use packet_guard.Core.Time.{Timestamp}

pub record MacAddress : Type 0 where
  pub octets : List ℕ

pub record EthernetFrame : Type 0 where
  pub destination : MacAddress
  pub source : MacAddress
  pub ether_type : ℕ
  pub header_length : ℕ

pub record IPv4Packet : Type 0 where
  pub version : ℕ
  pub ihl : ℕ
  pub dscp_ecn : ℕ
  pub total_length : ℕ
  pub identification : ℕ
  pub flags_fragment : ℕ
  pub ttl : ℕ
  pub protocol : ℕ
  pub header_checksum : ℕ
  pub source : IPv4Address
  pub destination : IPv4Address
  pub checksum_valid : Bool
  pub fragmented : Bool
  pub header_length : ℕ
  pub payload_length : ℕ

pub record TcpSegment : Type 0 where
  pub source_port : ℕ
  pub destination_port : ℕ
  pub sequence : ℕ
  pub acknowledgment : ℕ
  pub data_offset : ℕ
  pub flags : ℕ
  pub window : ℕ
  pub checksum : ℕ
  pub urgent : ℕ
  pub payload_length : ℕ
  pub options : List ℕ

pub record UdpDatagram : Type 0 where
  pub source_port : ℕ
  pub destination_port : ℕ
  pub length : ℕ
  pub checksum : ℕ
  pub payload_length : ℕ

pub record DnsQuestion : Type 0 where
  pub name : Text
  pub type : ℕ
  pub klass : ℕ

pub record DnsRecord : Type 0 where
  pub name : Text
  pub type : ℕ
  pub klass : ℕ
  pub ttl : ℕ
  pub rdata : List ℕ
  pub data_text : Text

pub record DnsMessage : Type 0 where
  pub id : ℕ
  pub response : Bool
  pub opcode : ℕ
  pub authoritative : Bool
  pub truncated : Bool
  pub recursion_desired : Bool
  pub recursion_available : Bool
  pub rcode : ℕ
  pub questions : List DnsQuestion
  pub answers : List DnsRecord
  pub authorities : List DnsRecord
  pub additionals : List DnsRecord

pub record PacketMetadata : Type 0 where
  pub timestamp : Timestamp
  pub original_length : ℕ
  pub captured_length : ℕ
  pub ethernet : Option EthernetFrame
  pub ipv4 : Option IPv4Packet
  pub tcp : Option TcpSegment
  pub udp : Option UdpDatagram
  pub dns : Option DnsMessage
  pub notes : List Text

pub record PcapPacket : Type 0 where
  pub metadata : PacketMetadata
  pub payload : List ℕ

-- `this_zone` is the bit pattern of the `std::int32_t`.
pub record PcapFile : Type 0 where
  pub nanosecond_resolution : Bool
  pub little_endian : Bool
  pub major : ℕ
  pub minor : ℕ
  pub this_zone : ℕ
  pub snaplen : ℕ
  pub link_type : ℕ
  pub packets : List PcapPacket
  pub diagnostics : Diagnostics
