-- ===== src/Packet/Opcode.antt =====
-- The operation codes of src/protocol.h.
use sizigy.Base.{ℕ}

abbrev pub connect : ℕ
connect = 0x10

abbrev pub connack : ℕ
connack = 0x20

abbrev pub publish : ℕ
publish = 0x30

abbrev pub puback : ℕ
puback = 0x40

abbrev pub pubrec : ℕ
pubrec = 0x50

abbrev pub subscribe : ℕ
subscribe = 0x80

abbrev pub suback : ℕ
suback = 0x90

abbrev pub unsubscribe : ℕ
unsubscribe = 0xA0

abbrev pub unsuback : ℕ
unsuback = 0xB0

abbrev pub pingreq : ℕ
pingreq = 0xC0

abbrev pub pingresp : ℕ
pingresp = 0xD0

abbrev pub disconnect : ℕ
disconnect = 0xF0
