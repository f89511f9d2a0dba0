-- ===== src/Packet.antt =====
-- The packets of src/protocol.h, and the constructors, pack_* and unpack_* of src/protocol.c.
-- A string is the block that its pointer leads to, less the zero at the block's end. The header that
-- `Header *` leads to is a part of its packet: no two packets share one.
pub mod Opcode
pub mod Wire
pub mod Unpack
pub mod Fit
pub mod Roundtrip
pub mod Bounds
pub mod Order
pub mod Release
pub mod Freed
mod Tests
use sizigy.Base.{ℕ, ◌+◌, ◌*◌, ◌%◌, ◌^◌, List}
use sizigy.Buffer.{
  Buf, ◌>>=◌, ◌>>◌, pure, strlen, read_uint8, read_uint16, read_uint32, read_string, write_uint8,
  write_uint16, write_uint32, write_string,
}
use Opcode

pub record Header : Type 0 where
  pub opcode : ℕ
  pub size : ℕ

pub record Connect : Type 0 where
  pub header : Header
  pub idlen : ℕ
  pub id : List ℕ
  pub keepalive : ℕ
  pub clean_session : ℕ

pub record Subscribe : Type 0 where
  pub header : Header
  pub topic_len : ℕ
  pub qos : ℕ
  pub topic : List ℕ

pub record Unsubscribe : Type 0 where
  pub header : Header
  pub topic_len : ℕ
  pub topic : List ℕ

pub record Publish : Type 0 where
  pub header : Header
  pub topic_len : ℕ
  pub message_len : ℕ
  pub qos : ℕ
  pub retain : ℕ
  pub dup : ℕ
  pub topic : List ℕ
  pub message : List ℕ

pub record Ack : Type 0 where
  pub header : Header
  pub id : ℕ
  pub rc : ℕ

-- `sizeof` of the integer types
abbrev pub uint8_size : ℕ
uint8_size = 1

abbrev pub uint16_size : ℕ
uint16_size = 2

abbrev pub uint32_size : ℕ
uint32_size = 4

abbrev pub headerlen : ℕ
headerlen = uint8_size + uint32_size

-- The length of a packet goes into a `uint32_t`.
abbrev header : ℕ → ℕ → Header
header opcode size = record { opcode = opcode; size = size % 2 ^ 32 }

unfoldable pub connect_pkt : List ℕ → ℕ → ℕ → Connect
connect_pkt id keepalive clean_session = record {
  header = header Opcode.connect (headerlen + strlen id + 2 * uint16_size + 2 * uint8_size);
  idlen = strlen id % 2 ^ 16;
  id = id;
  keepalive = keepalive;
  clean_session = clean_session;
}

unfoldable pub subscribe_pkt : List ℕ → ℕ → Subscribe
subscribe_pkt topic qos = record {
  header = header Opcode.subscribe (headerlen + strlen topic + uint16_size + 3 * uint8_size);
  topic_len = strlen topic % 2 ^ 16;
  qos = qos;
  topic = topic;
}

unfoldable pub unsubscribe_pkt : List ℕ → Unsubscribe
unsubscribe_pkt topic = record {
  header = header Opcode.unsubscribe (headerlen + strlen topic + uint16_size + uint8_size);
  topic_len = strlen topic % 2 ^ 16;
  topic = topic;
}

unfoldable pub publish_pkt : List ℕ → List ℕ → ℕ → ℕ → ℕ → Publish
publish_pkt topic message qos retain dup = record {
  header =
      header Opcode.publish
        (headerlen + strlen topic + strlen message + uint16_size + uint32_size + 5 * uint8_size);
  topic_len = strlen topic % 2 ^ 16;
  message_len = strlen message % 2 ^ 32;
  qos = qos;
  retain = retain;
  dup = dup;
  topic = topic;
  message = message;
}

unfoldable pub ack_pkt : ℕ → ℕ → ℕ → Ack
ack_pkt opcode id rc = record {
  header = header opcode (headerlen + uint16_size + uint8_size);
  id = id;
  rc = rc;
}

-- The size that goes out is the buffer's, not the header's.
unfoldable pub pack_header : Header → Buf (Unit {0})
pack_header h b = (do write_uint8 h.opcode; write_uint32 b.size) b

unfoldable pub unpack_header : Buf Header
unpack_header = do
  opcode ← read_uint8
  size ← read_uint32
  pure (record { opcode = opcode; size = size })

unfoldable pub unpack_connect : Buf Connect
unpack_connect = do
  h ← unpack_header
  idlen ← read_uint16
  clean_session ← read_uint8
  keepalive ← read_uint16
  id ← read_string idlen
  pure (record {
    header = h;
    idlen = idlen;
    id = id;
    keepalive = keepalive;
    clean_session = clean_session;
  })

unfoldable pub unpack_subscribe : Buf Subscribe
unpack_subscribe = do
  h ← unpack_header
  topic_len ← read_uint16
  qos ← read_uint8
  topic ← read_string topic_len
  pure (record { header = h; topic_len = topic_len; qos = qos; topic = topic })

unfoldable pub unpack_unsubscribe : Buf Unsubscribe
unpack_unsubscribe = do
  h ← unpack_header
  topic_len ← read_uint16
  topic ← read_string topic_len
  pure (record { header = h; topic_len = topic_len; topic = topic })

unfoldable pub unpack_publish : Buf Publish
unpack_publish = do
  h ← unpack_header
  topic_len ← read_uint16
  message_len ← read_uint32
  qos ← read_uint8
  retain ← read_uint8
  dup ← read_uint8
  topic ← read_string topic_len
  message ← read_string message_len
  pure (record {
    header = h;
    topic_len = topic_len;
    message_len = message_len;
    qos = qos;
    retain = retain;
    dup = dup;
    topic = topic;
    message = message;
  })

unfoldable pub unpack_ack : Buf Ack
unpack_ack = do
  h ← unpack_header
  id ← read_uint16
  rc ← read_uint8
  pure (record { header = h; id = id; rc = rc })

unfoldable pub pack_connect : Connect → Buf (Unit {0})
pack_connect pkt = do
  pack_header pkt.header
  write_uint16 (strlen pkt.id)
  write_string pkt.id
  write_uint16 pkt.keepalive
  write_uint8 pkt.clean_session

unfoldable pub pack_subscribe : Subscribe → Buf (Unit {0})
pack_subscribe pkt = do
  pack_header pkt.header
  write_uint16 (strlen pkt.topic)
  write_uint8 pkt.qos
  write_string pkt.topic

-- This one writes the field `topic_len`, where the others measure the string.
unfoldable pub pack_unsubscribe : Unsubscribe → Buf (Unit {0})
pack_unsubscribe u = do pack_header u.header; write_uint16 u.topic_len; write_string u.topic

unfoldable pub pack_publish : Publish → Buf (Unit {0})
pack_publish pkt = do
  pack_header pkt.header
  write_uint16 (strlen pkt.topic)
  write_uint32 (strlen pkt.message)
  write_uint8 pkt.qos
  write_uint8 pkt.retain
  write_uint8 pkt.dup
  write_string pkt.topic
  write_string pkt.message

unfoldable pub pack_ack : Ack → Buf (Unit {0})
pack_ack pkt = do pack_header pkt.header; write_uint16 pkt.id; write_uint8 pkt.rc
