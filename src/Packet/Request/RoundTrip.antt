-- ===== src/Packet/Request/RoundTrip.antt =====
-- readFrom reads back the RequestPacket that writeTo wrote.
use horse_rpc.Base.{
  ℕ, suc, ◌^◌, ◌<◌, ◌≤◌, ◌≡◌, refl, ap, ◌∙◌, true, some, List, ◌++◌, length, length-append, arith,
  sym, append_assoc,
}
use horse_rpc.Base.Int.{Fits, Fits→fits}
use horse_rpc.Tars.Wire.{ok}
use horse_rpc.Tars.Layout.{int_bytes, string_bytes, chars_bytes, map_bytes}
use horse_rpc.Tars.Reader.Skip.{Input, input}
use horse_rpc.Tars.Reader.Fields.{
  max_string_length, read_short, read_char, read_int32, read_string, read_chars, read_map,
}
use horse_rpc.Tars.Reader.At.{length-int_bytes_append, At-start}
use horse_rpc.Tars.Reader.Ints.{read_short-At, read_char-At, read_int32-At}
use horse_rpc.Tars.Reader.Takes.{Takes, >>=-Takes, last-Takes}
use horse_rpc.Tars.Reader.Values.{read_string-At, read_chars-At}
use horse_rpc.Tars.Writer.{Writer}
use horse_rpc.Tars.Writer.Appends.{Appends, >>-Appends}
use horse_rpc.Tars.Writer.Ints.{write_short-Appends, write_char-Appends, write_int32-Appends}
use horse_rpc.Tars.Writer.Fields.{write_string-Appends, write_chars-Appends}
use horse_rpc.Packet.Maps.{string_value, IsMap, write_string_map, read_string_map}
use horse_rpc.Packet.Request.{RequestPacket, write_to, read_from, reset_default}

-- The ranges of the C++ types, and the sizes that the stream carries.
pub record IsPacket (p : RequestPacket) : Type 0 where
  pub version : Fits (2 ^ 16) p.i_version
  pub packet_type : Fits (2 ^ 8) p.c_packet_type
  pub message_type : Fits (2 ^ 32) p.i_message_type
  pub request_id : Fits (2 ^ 32) p.i_request_id
  pub servant_name : length p.s_servant_name ≤ max_string_length
  pub func_name : length p.s_func_name ≤ max_string_length
  pub buffer : length p.s_buffer < 2 ^ 31
  pub timeout : Fits (2 ^ 32) p.i_timeout
  pub context : IsMap p.context
  pub status : IsMap p.status

-- The bytes of a packet, field by field.
unfoldable pub packet_bytes : RequestPacket → List ℕ
packet_bytes p =
    int_bytes p.i_version 1
    ++ (int_bytes p.c_packet_type 2
        ++ (int_bytes p.i_message_type 3
            ++ (int_bytes p.i_request_id 4
                ++ (string_bytes p.s_servant_name 5
                    ++ (string_bytes p.s_func_name 6
                        ++ (chars_bytes p.s_buffer 7
                            ++ (int_bytes p.i_timeout 8
                                ++ (map_bytes string_bytes p.context 9
                                    ++ map_bytes string_bytes p.status 10))))))))

pub length-packet_bytes_pos : (p : RequestPacket) → 1 ≤ length (packet_bytes p)
unfolding packet_bytes
length-packet_bytes_pos p = length-int_bytes_append p.i_version 1 _

pub write_to-Appends : (p : RequestPacket) → IsPacket p → Appends (write_to p) (packet_bytes p)
unfolding write_to packet_bytes
write_to-Appends p v =
    >>-Appends _ _ _ _
      (write_short-Appends p.i_version 1 (Fits→fits (2 ^ 16) _ v.version) (omega arith))
      (>>-Appends _ _ _ _
        (write_char-Appends p.c_packet_type 2 (Fits→fits (2 ^ 8) _ v.packet_type) (omega arith))
        (>>-Appends _ _ _ _
          (write_int32-Appends p.i_message_type 3 (Fits→fits (2 ^ 32) _ v.message_type)
            (omega arith))
          (>>-Appends _ _ _ _
            (write_int32-Appends p.i_request_id 4 (Fits→fits (2 ^ 32) _ v.request_id) (omega arith))
            (>>-Appends _ _ _ _
              (write_string-Appends p.s_servant_name 5 v.servant_name (omega arith))
              (>>-Appends _ _ _ _ (write_string-Appends p.s_func_name 6 v.func_name (omega arith)) (
                >>-Appends _ _ _ _ (write_chars-Appends p.s_buffer 7 v.buffer (omega arith)) (
                  >>-Appends _ _ _ _
                    (write_int32-Appends p.i_timeout 8 (Fits→fits (2 ^ 32) _ v.timeout)
                      (omega arith))
                    (>>-Appends _ _ _ _ (write_string_map p.context 9 (omega arith) v.context)
                      (write_string_map p.status 10 (omega arith) v.status)))))))))

module _ (is : Input) (rounds : ℕ) (e : is.rounds ≡ suc rounds) where
  pub read_from-Takes :
      (p old : RequestPacket) → IsPacket p → Takes is.buf (read_from is old) (packet_bytes p) p
  unfolding read_from packet_bytes
  read_from-Takes p old v =
      let o = reset_default old in
      >>=-Takes is.buf (read_short is o.i_version 1 true) _ _ _ _ _
        (λ c a.
          read_short-At is p.i_version o.i_version 1 c rounds true e (omega arith) a v.version)
        (>>=-Takes is.buf (read_char is o.c_packet_type 2 true) _ _ _ _ _
          (λ c a.
            read_char-At is p.c_packet_type o.c_packet_type 2 c rounds true e (omega arith) a
              v.packet_type)
          (>>=-Takes is.buf (read_int32 is o.i_message_type 3 true) _ _ _ _ _
            (λ c a.
              read_int32-At is p.i_message_type o.i_message_type 3 c rounds true e (omega arith) a
                v.message_type)
            (>>=-Takes is.buf (read_int32 is o.i_request_id 4 true) _ _ _ _ _
              (λ c a.
                read_int32-At is p.i_request_id o.i_request_id 4 c rounds true e (omega arith) a
                  v.request_id)
              (>>=-Takes is.buf (read_string is o.s_servant_name 5 true) _ _ _ _ _
                (λ c a.
                  read_string-At is rounds e p.s_servant_name o.s_servant_name 5 c true
                    v.servant_name (omega arith) a)
                (>>=-Takes is.buf (read_string is o.s_func_name 6 true) _ _ _ _ _
                  (λ c a.
                    read_string-At is rounds e p.s_func_name o.s_func_name 6 c true v.func_name
                      (omega arith) a)
                  (>>=-Takes is.buf (read_chars is o.s_buffer 7 true) _ _ _ _ _
                    (λ c a.
                      read_chars-At is rounds e p.s_buffer o.s_buffer 7 c true v.buffer
                        (omega arith) a)
                    (>>=-Takes is.buf (read_int32 is o.i_timeout 8 true) _ _ _ _ _
                      (λ c a.
                        read_int32-At is p.i_timeout o.i_timeout 8 c rounds true e (omega arith) a
                          v.timeout)
                      (>>=-Takes is.buf (read_map is (string_value is) o.context 9 true) _ _ _ _ _
                        (read_string_map is rounds e p.context o.context 9 true (omega arith)
                          v.context)
                        (last-Takes is.buf (read_map is (string_value is) o.status 10 true) _ _ _ _
                          (read_string_map is rounds e p.status o.status 10 true (omega arith)
                            v.status)
                          (λ c. refl))))))))))

-- On every packet within the ranges of its types and the sizes that the stream carries, writeTo
-- does not throw, and readFrom at the place where it wrote returns the packet and stops behind it,
-- whatever the packet read into held and whatever bytes follow.
pub read_from-write_to_request :
    (p old : RequestPacket) (w : Writer) (tail : List ℕ)
    → IsPacket p
    → (w' : Writer) × (write_to p w ≡ some w')
      × (read_from (input (w'.bytes ++ tail)) old (length w.bytes) ≡ ok p (length w'.bytes))
unfolding input
read_from-write_to_request p old w tail v =
    let (w', wrote, bytes, _) = write_to-Appends p v w in
    (
      w',
      wrote,
      rw (bytes, append_assoc w.bytes (packet_bytes p) tail)
          (read_from-Takes (input (w.bytes ++ (packet_bytes p ++ tail)))
              (length (w.bytes ++ (packet_bytes p ++ tail))) refl p old v (length w.bytes)
              (At-start w.bytes (packet_bytes p) tail)
            ∙ ap (ok p) (sym (length-append w.bytes (packet_bytes p)))),
    )
