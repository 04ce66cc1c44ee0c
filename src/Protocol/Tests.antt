-- ===== src/Protocol/Tests.antt =====
-- Runs of the protocols on small inputs.
use horse_rpc.Base.{
  ltb, if◌then◌else◌, ℕ, ◌+◌, ◌≡◌, refl, true, false, some, List, [], ◌∷◌, ◌++◌, length, arith,
}
use horse_rpc.Base.Int.{pos, negsuc, to_word}
use horse_rpc.Base.Bytes.{be_bytes}
use horse_rpc.Tars.Wire.{ok}
use horse_rpc.Tars.Layout.{
  int_bytes, head_bytes, int_width, int_type, string_bytes, chars_bytes, map_bytes, each_bytes,
}
use horse_rpc.Tars.Reader.Skip.{input}
use horse_rpc.Packet.Request.{RequestPacket, read_from}
use horse_rpc.Packet.Request.RoundTrip as RequestLayout
use horse_rpc.Packet.Response.{ResponsePacket}
use horse_rpc.Packet.Response.Layout.{IsPacket, packet_bytes, desc_bytes, context_bytes}
use horse_rpc.Net.Buffer.{NetWorkBuffer, packet_less, packet_full, new}
use horse_rpc.Net.Buffer.Contents.{contents, IsValid}
use horse_rpc.Net.Buffer.Streams.{frame, receive, concat}
use horse_rpc.Protocol.Frame.{tars_request, parse}
use horse_rpc.Protocol.Outcome.{returns}
use horse_rpc.Protocol.Heads.{equals, below_unknown, tars_version, tars_normal}
use horse_rpc.Protocol.Responses.{new_request, tars_response}
use horse_rpc.Protocol.Current.{Current, digits, tostr, initialize, answer, sends, send_response}
use horse_rpc.Protocol.Requests.{tars_request-parse}
use horse_rpc.Protocol.Replies.{received, tars_response-receive}
use horse_rpc.Protocol.HeadReads.{packet_head, with_head}
use horse_rpc.Protocol.Partial.{tars_response-partial}
use horse_rpc.Protocol.Calls.{taking, call-answer}

minus_forty : tostr (negsuc 39) ≡ b'-' ∷ b'4' ∷ b'0' ∷ []
unfolding tostr digits
minus_forty = refl

abbrev ping : RequestPacket
ping = record {
  i_version = pos 1;
  c_packet_type = pos 0;
  i_message_type = pos 0;
  i_request_id = pos 300;
  s_servant_name = 104 ∷ 105 ∷ [];
  s_func_name = 112 ∷ [];
  s_buffer = 1 ∷ 2 ∷ 3 ∷ [];
  i_timeout = pos 3000;
  context = [];
  status = [];
}

ping-IsPacket : RequestLayout.IsPacket ping
ping-IsPacket = record {
  version = omega arith;
  packet_type = omega arith;
  message_type = omega arith;
  request_id = omega arith;
  servant_name = omega arith;
  func_name = omega arith;
  buffer = omega arith;
  timeout = omega arith;
  context = record { size = omega arith; sorted = tt; keys = tt; values = tt };
  status = record { size = omega arith; sorted = tt; keys = tt; values = tt };
}

abbrev ping_bytes : List ℕ
ping_bytes = frame 4 (RequestLayout.packet_bytes ping)

ping_size : 4 + length (RequestLayout.packet_bytes ping) ≡ 32
unfolding RequestLayout.packet_bytes int_bytes head_bytes be_bytes int_width string_bytes
    chars_bytes map_bytes each_bytes int_type to_word
ping_size = refl

abbrev no_response : ResponsePacket
no_response = record {
  i_version = pos 0;
  c_packet_type = pos 0;
  i_request_id = pos 0;
  i_message_type = pos 0;
  i_ret = pos 0;
  s_buffer = [];
  status = [];
  s_result_desc = [];
  context = [];
}

abbrev worker : Current
worker = record { request = new_request; response_context = []; ret = pos 0 }

-- The function did not find what it looked for.
abbrev outcome : ResponsePacket
outcome = record no_response { s_buffer = 9 ∷ 9 ∷ [] }

abbrev reply : ResponsePacket
reply = answer (negsuc 6) outcome [] (110 ∷ 111 ∷ []) (taking worker ping)

abbrev reply_bytes : List ℕ
reply_bytes = frame 4 (packet_bytes reply)

-- Each in two pieces, with a byte of what comes next.
abbrev ping_pieces : List (List ℕ)
ping_pieces =
    (0 ∷ 0 ∷ 0 ∷ [])
    ∷ (32 ∷ 16 ∷ 1 ∷ 44 ∷ 60 ∷ 65 ∷ 1 ∷ 44 ∷ 86 ∷ 2 ∷ 104 ∷ 105 ∷ 102 ∷ 1 ∷ 112 ∷ 125 ∷ 0 ∷ 0 ∷ 3
        ∷ 1 ∷ 2 ∷ 3 ∷ 129 ∷ 11 ∷ 184 ∷ 152 ∷ 12 ∷ 168 ∷ 12 ∷ 0 ∷ [])
    ∷ []

ping_pieces-frame : concat ping_pieces ≡ ping_bytes ++ 0 ∷ []
unfolding frame RequestLayout.packet_bytes int_bytes head_bytes be_bytes int_width string_bytes
    chars_bytes map_bytes each_bytes int_type to_word
ping_pieces-frame = refl

abbrev reply_pieces : List (List ℕ)
reply_pieces =
    (0 ∷ 0 ∷ 0 ∷ [])
    ∷ (25 ∷ 16 ∷ 1 ∷ 44 ∷ 49 ∷ 1 ∷ 44 ∷ 76 ∷ 80 ∷ 249 ∷ 109 ∷ 0 ∷ 0 ∷ 2 ∷ 9 ∷ 9 ∷ 120 ∷ 12 ∷ 134 ∷ 2
        ∷ 110 ∷ 111 ∷ 0 ∷ [])
    ∷ []

reply_pieces-frame : concat reply_pieces ≡ reply_bytes ++ 0 ∷ []
unfolding frame answer packet_bytes desc_bytes context_bytes int_bytes head_bytes be_bytes int_width
    string_bytes chars_bytes map_bytes each_bytes int_type to_word
reply_pieces-frame = refl

reply_size : length (packet_bytes reply) ≡ 21
unfolding answer packet_bytes desc_bytes context_bytes int_bytes head_bytes be_bytes int_width
    string_bytes chars_bytes map_bytes each_bytes int_type to_word
reply_size = refl

reply-IsPacket : IsPacket reply
unfolding answer
reply-IsPacket = record {
  version = omega arith;
  packet_type = omega arith;
  request_id = omega arith;
  message_type = omega arith;
  ret = omega arith;
  buffer = omega arith;
  status = record { size = omega arith; sorted = tt; keys = tt; values = tt };
  result_desc = omega arith;
  context = record { size = omega arith; sorted = tt; keys = tt; values = tt };
}

normal_version : equals reply.i_version tars_version ≡ true
unfolding equals answer
normal_version = refl

normal_type : equals reply.c_packet_type tars_normal ≡ true
unfolding equals answer
normal_type = refl

known_ret : below_unknown reply.i_ret ≡ false
unfolding below_unknown answer
known_ret = refl

ping_version : equals ping.i_version tars_version ≡ true
unfolding equals
ping_version = refl

ping_type : equals ping.c_packet_type tars_normal ≡ true
unfolding equals
ping_type = refl

outcome_ret : below_unknown (negsuc 6) ≡ false
unfolding below_unknown
outcome_ret = refl

tars_request-parse_example :
    (tars_request ping ≡ some ping_bytes)
    × (b' : NetWorkBuffer) × (parse (receive ping_pieces new)
        ≡ (packet_full, RequestLayout.packet_bytes ping, b'))
    × IsValid b'
    × (contents b' ≡ 0 ∷ [])
    × (read_from (input (RequestLayout.packet_bytes ping)) new_request 0
        ≡ ok ping (length (RequestLayout.packet_bytes ping)))
tars_request-parse_example =
    tars_request-parse ping new_request ping_pieces (0 ∷ []) ping-IsPacket
      (omega (arith, ping_size)) (omega arith) ping_pieces-frame

tars_response-receive_example :
    (b' : NetWorkBuffer) × (tars_response [] (receive reply_pieces new) no_response
      ≡ returns packet_full (received reply no_response) b')
    × IsValid b'
    × (contents b' ≡ 0 ∷ [])
tars_response-receive_example =
    tars_response-receive reply no_response reply_pieces (0 ∷ []) [] reply-IsPacket normal_version
      normal_type known_ret (omega (arith, reply_size)) (omega (arith, reply_size)) (omega arith)
      reply_pieces-frame

call-answer_example :
    (tars_request ping ≡ some ping_bytes)
    × (b : NetWorkBuffer) × (parse (receive ping_pieces new)
        ≡ (packet_full, RequestLayout.packet_bytes ping, b))
    × (contents b ≡ 0 ∷ [])
    × (initialize (RequestLayout.packet_bytes ping) worker ≡ some (taking worker ping))
    × ((send_response (negsuc 6) outcome [] (110 ∷ 111 ∷ []) (taking worker ping)).1
        ≡ sends reply_bytes)
    × (r : ResponsePacket) × (b' : NetWorkBuffer) × (tars_response []
          (receive reply_pieces new)
          no_response
        ≡ returns packet_full r b')
    × (contents b' ≡ 0 ∷ [])
    × (r.i_request_id ≡ pos 300)
    × (r.i_ret ≡ negsuc 6)
    × (r.s_buffer ≡ 9 ∷ 9 ∷ [])
    × (r.status ≡ [])
    × (r.s_result_desc ≡ 110 ∷ 111 ∷ [])
call-answer_example =
    call-answer (negsuc 6) outcome [] (110 ∷ 111 ∷ []) ping worker no_response ping_pieces
      reply_pieces (0 ∷ []) (0 ∷ []) [] ping-IsPacket (omega (arith, ping_size)) (omega arith)
      ping_pieces-frame ping_version ping_type outcome_ret reply-IsPacket
      (omega (arith, reply_size)) (omega (arith, reply_size)) (omega arith) reply_pieces-frame

-- The last three bytes are missing.
abbrev reply_beginning : List (List ℕ)
reply_beginning =
    (0 ∷ 0 ∷ 0 ∷ [])
    ∷ (25 ∷ 16 ∷ 1 ∷ 44 ∷ 49 ∷ 1 ∷ 44 ∷ 76 ∷ 80 ∷ 249 ∷ 109 ∷ 0 ∷ 0 ∷ 2 ∷ 9 ∷ 9 ∷ 120 ∷ 12 ∷ 134
        ∷ [])
    ∷ []

reply_beginning-frame : concat reply_beginning ++ 2 ∷ 110 ∷ 111 ∷ [] ≡ reply_bytes
unfolding frame answer packet_bytes desc_bytes context_bytes int_bytes head_bytes be_bytes int_width
    string_bytes chars_bytes map_bytes each_bytes int_type to_word
reply_beginning-frame = refl

head_size : length (packet_head reply) ≡ 9
unfolding answer packet_head int_bytes head_bytes be_bytes int_width string_bytes chars_bytes
    map_bytes each_bytes int_type to_word
head_size = refl

tars_response-partial_example :
    tars_response [] (receive reply_beginning new) no_response
    ≡ returns packet_less
        (if ltb 22 20 then no_response else with_head reply no_response)
        (receive reply_beginning new)
tars_response-partial_example =
    tars_response-partial reply no_response reply_beginning (2 ∷ 110 ∷ 111 ∷ []) [] reply-IsPacket
      normal_version normal_type known_ret (omega (arith, head_size)) (omega (arith, reply_size))
      (omega arith) reply_beginning-frame (omega arith)
