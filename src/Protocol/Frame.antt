-- ===== src/Protocol/Frame.antt =====
-- tarsRequest, the frame that sendResponse shares with it, and AppProtocol::parse.
use horse_rpc.Base.{
  ℕ, ◌*◌, ◌%◌, ◌^◌, Option, none, some, List, [], ◌++◌, ltb, if◌then◌else◌, length, drop,
}
use horse_rpc.Base.Bytes.{be_bytes}
use horse_rpc.Tars.Writer.{Writer, Write, ◌>>◌, write_buf}
use horse_rpc.Packet.Request.{RequestPacket, write_to}
use horse_rpc.Net.Buffer.{NetWorkBuffer, PacketType, parse_buffer}

-- TARS_NET_MIN_PACKAGE_SIZE and TARS_NET_MAX_PACKAGE_SIZE
abbrev pub min_package_size : ℕ
min_package_size = 5

abbrev pub max_package_size : ℕ
max_package_size = 1024 * 1024 * 10

-- BufferWriterVector()
abbrev pub empty_writer : Writer
empty_writer = record { bytes = []; buf_len = 0 }

-- Four bytes are reserved before the packet is written, and then hold its length. `none` is a
-- throw or a failed assert.
unfoldable pub framed : Write → Option (List ℕ)
framed packet = elim ((write_buf (be_bytes 4 0) >> packet) empty_writer) [
  | none ↦ none
  | some w ↦
      if ltb (length w.bytes) 4
      then none
      else some (be_bytes 4 (length w.bytes % 2 ^ 32) ++ drop 4 w.bytes)
]

-- tarsRequest
unfoldable pub tars_request : RequestPacket → Option (List ℕ)
tars_request request = framed (write_to request)

-- AppProtocol::parse
unfoldable pub parse : NetWorkBuffer → PacketType × List ℕ × NetWorkBuffer
parse in_buffer = parse_buffer 4 min_package_size max_package_size in_buffer
