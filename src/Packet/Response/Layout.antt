-- ===== src/Packet/Response/Layout.antt =====
-- The bytes of a ResponsePacket, and that writeTo writes them.
use horse_rpc.Base.{ℕ, ◌^◌, ◌<◌, ◌≤◌, List, [], ◌∷◌, ◌++◌, length, arith, if◌then◌else◌}
use horse_rpc.Base.Int.{Fits, Fits→fits}
use horse_rpc.Tars.Layout.{int_bytes, string_bytes, chars_bytes, map_bytes}
use horse_rpc.Tars.Reader.Fields.{max_string_length}
use horse_rpc.Tars.Reader.At.{length-int_bytes_append}
use horse_rpc.Tars.Writer.{done, write_string, write_map}
use horse_rpc.Tars.Writer.Appends.{Appends, >>-Appends, done-Appends}
use horse_rpc.Tars.Writer.Ints.{write_short-Appends, write_char-Appends, write_int32-Appends}
use horse_rpc.Tars.Writer.Fields.{write_string-Appends, write_chars-Appends}
use horse_rpc.Packet.Maps.{StringMap, IsMap, write_string_map}
use horse_rpc.Packet.Response.{ResponsePacket, write_to, empty}

-- The ranges of the C++ types, and the sizes that the stream carries.
pub record IsPacket (p : ResponsePacket) : Type 0 where
  pub version : Fits (2 ^ 16) p.i_version
  pub packet_type : Fits (2 ^ 8) p.c_packet_type
  pub request_id : Fits (2 ^ 32) p.i_request_id
  pub message_type : Fits (2 ^ 32) p.i_message_type
  pub ret : Fits (2 ^ 32) p.i_ret
  pub buffer : length p.s_buffer < 2 ^ 31
  pub status : IsMap p.status
  pub result_desc : length p.s_result_desc ≤ max_string_length
  pub context : IsMap p.context

unfoldable pub desc_bytes : List ℕ → List ℕ
desc_bytes [] = []
desc_bytes (x ∷ xs) = string_bytes (x ∷ xs) 8

unfoldable pub context_bytes : StringMap → List ℕ
context_bytes [] = []
context_bytes (x ∷ xs) = map_bytes string_bytes (x ∷ xs) 9

unfoldable pub packet_bytes : ResponsePacket → List ℕ
packet_bytes p =
    int_bytes p.i_version 1
    ++ (int_bytes p.c_packet_type 2
        ++ (int_bytes p.i_request_id 3
            ++ (int_bytes p.i_message_type 4
                ++ (int_bytes p.i_ret 5
                    ++ (chars_bytes p.s_buffer 6
                        ++ (map_bytes string_bytes p.status 7
                            ++ (desc_bytes p.s_result_desc ++ context_bytes p.context)))))))

write_desc :
    (s : List ℕ)
    → length s ≤ max_string_length
    → Appends (if empty s then done else write_string s 8) (desc_bytes s)
unfolding desc_bytes
write_desc [] h = done-Appends
write_desc (x ∷ xs) h = write_string-Appends (x ∷ xs) 8 h (omega arith)

write_context :
    (m : StringMap)
    → IsMap m
    → Appends (if empty m then done else write_map write_string m 9) (context_bytes m)
unfolding context_bytes
write_context [] h = done-Appends
write_context (x ∷ xs) h = write_string_map (x ∷ xs) 9 (omega arith) h

pub length-packet_bytes_pos : (p : ResponsePacket) → 1 ≤ length (packet_bytes p)
unfolding packet_bytes
length-packet_bytes_pos p = length-int_bytes_append p.i_version 1 _

pub write_to-Appends : (p : ResponsePacket) → IsPacket p → Appends (write_to p) (packet_bytes p)
unfolding write_to packet_bytes
write_to-Appends p v =
    >>-Appends _ _ _ _
      (write_short-Appends p.i_version 1 (Fits→fits (2 ^ 16) _ v.version) (omega arith))
      (>>-Appends _ _ _ _
        (write_char-Appends p.c_packet_type 2 (Fits→fits (2 ^ 8) _ v.packet_type) (omega arith))
        (>>-Appends _ _ _ _
          (write_int32-Appends p.i_request_id 3 (Fits→fits (2 ^ 32) _ v.request_id) (omega arith))
          (>>-Appends _ _ _ _
            (write_int32-Appends p.i_message_type 4 (Fits→fits (2 ^ 32) _ v.message_type)
              (omega arith))
            (>>-Appends _ _ _ _
              (write_int32-Appends p.i_ret 5 (Fits→fits (2 ^ 32) _ v.ret) (omega arith))
              (>>-Appends _ _ _ _ (write_chars-Appends p.s_buffer 6 v.buffer (omega arith)) (
                >>-Appends _ _ _ _ (write_string_map p.status 7 (omega arith) v.status) (
                  >>-Appends _ _ _ _ (write_desc p.s_result_desc v.result_desc)
                    (write_context p.context v.context))))))))
