-- ===== src/Packet/Response/RoundTrip.antt =====
-- readFrom reads back the ResponsePacket that writeTo wrote.
use horse_rpc.Base.{
  ℕ, suc, ◌+◌, ◌≤◌, ◌≡◌, refl, ap, ◌∙◌, true, false, some, List, [], ◌∷◌, ◌++◌, length,
  length-append, arith, subst, sym, append-nil, if◌then◌else◌,
}
use horse_rpc.Base.Int.{pos}
use horse_rpc.Tars.Wire.{M, ok, ◌>>=◌, >>=_ok, head_map}
use horse_rpc.Tars.Layout.{head_bytes, string_bytes, map_bytes}
use horse_rpc.Tars.Reader.Skip.{Input, input, seek}
use horse_rpc.Tars.Reader.Fields.{
  max_string_length, read_short, read_char, read_int32, read_string, read_chars, read_map,
}
use horse_rpc.Tars.Reader.At.{At, At-start, At-head, At-tail}
use horse_rpc.Tars.Reader.Absent.{seek_at_end, seek_before_greater}
use horse_rpc.Tars.Reader.Ints.{read_short-At, read_char-At, read_int32-At}
use horse_rpc.Tars.Reader.Takes.{Takes}
use horse_rpc.Tars.Reader.Values.{read_string-At, read_chars-At}
use horse_rpc.Tars.Writer.{Writer}
use horse_rpc.Packet.Maps.{StringMap, string_value, IsMap, read_string_map}
use horse_rpc.Packet.Response.{ResponsePacket, write_to, read_from, reset_default, empty}
use horse_rpc.Packet.Response.Layout.{
  IsPacket, desc_bytes, context_bytes, packet_bytes, write_to-Appends,
}

-- A reader that takes the last bytes of the buffer.
unfoldable pub TakesLast : {A : Type 0} → List ℕ → M A → List ℕ → A → Type 0
TakesLast buf f bytes x =
    (c : ℕ) → At buf c bytes → c + length bytes ≡ length buf → f c ≡ ok x (length buf)

module _ {A B : Type 0} (buf : List ℕ) (m : M A) (f : A → M B) where
  >>=-TakesLast :
      (xs ys : List ℕ) (v : A) (r : B)
      → Takes buf m xs v
      → TakesLast buf (f v) ys r
      → TakesLast buf (m >>= f) (xs ++ ys) r
  unfolding TakesLast
  >>=-TakesLast xs ys v r h k c a e =
      >>=_ok m f (h c (At-head xs ys a))
      ∙ k (c + length xs) (At-tail xs ys a) (omega (arith, length-append xs ys))

module _ (is : Input) (rounds : ℕ) (e : is.rounds ≡ suc rounds) where
  -- The optional fields at the end of the packet: an absent one keeps what the packet held.
  read_context :
      (m old : StringMap)
      → IsMap m
      → TakesLast is.buf
          (read_map is (string_value is) old 9 false)
          (context_bytes m)
          (if empty m then old else m)
  unfolding context_bytes read_map TakesLast
  read_context [] old h c a end =
      >>=_ok (seek is 9) _ (seek_at_end is 9 c rounds e (omega arith)) ∙ ap (ok old) (omega arith)
  read_context (x ∷ xs) old h c a end =
      read_string_map is rounds e (x ∷ xs) old 9 false (omega arith) h c a ∙ ap (ok (x ∷ xs)) end

  read_desc :
      {B : Type 0} (s : List ℕ) (m : StringMap) (f : List ℕ → M B) (r : B)
      → length s ≤ max_string_length
      → TakesLast is.buf (f s) (context_bytes m) r
      → TakesLast is.buf (read_string is [] 8 false >>= f) (desc_bytes s ++ context_bytes m) r
  unfolding desc_bytes context_bytes read_string TakesLast map_bytes
  read_desc [] [] f r h k c a end =
      >>=_ok (read_string is [] 8 false) f
        (>>=_ok (seek is 8) _ (seek_at_end is 8 c rounds e (omega arith)))
      ∙ k c a end
  read_desc [] (x ∷ xs) f r h k c a end =
      >>=_ok (read_string is [] 8 false) f (
        >>=_ok (seek is 8) _ (
          seek_before_greater is 8 9 head_map c rounds e (omega arith) (omega arith) (omega arith)
            (At-head (head_bytes head_map 9) _ a)))
      ∙ k c a end
  read_desc (x ∷ xs) m f r h k c a end =
      >>=-TakesLast is.buf (read_string is [] 8 false) f (string_bytes (x ∷ xs) 8) (context_bytes m)
        (x ∷ xs) r (λ c a. read_string-At is rounds e (x ∷ xs) [] 8 c false h (omega arith) a) k c a
        end

  -- What readFrom leaves of a packet read into `old`.
  pub read_from-TakesLast :
      (p old : ResponsePacket)
      → IsPacket p
      → TakesLast is.buf
          (read_from is old)
          (packet_bytes p)
          (record p { context = if empty p.context then old.context else p.context })
  unfolding read_from packet_bytes TakesLast reset_default
  read_from-TakesLast p old v =
      >>=-TakesLast is.buf (read_short is (pos 0) 1 true) _ _ _ _ _
        (λ c a. read_short-At is p.i_version (pos 0) 1 c rounds true e (omega arith) a v.version)
        (>>=-TakesLast is.buf (read_char is (pos 0) 2 true) _ _ _ _ _
          (λ c a.
            read_char-At is p.c_packet_type (pos 0) 2 c rounds true e (omega arith) a v.packet_type)
          (>>=-TakesLast is.buf (read_int32 is (pos 0) 3 true) _ _ _ _ _
            (λ c a.
              read_int32-At is p.i_request_id (pos 0) 3 c rounds true e (omega arith) a
                v.request_id)
            (>>=-TakesLast is.buf (read_int32 is (pos 0) 4 true) _ _ _ _ _
              (λ c a.
                read_int32-At is p.i_message_type (pos 0) 4 c rounds true e (omega arith) a
                  v.message_type)
              (>>=-TakesLast is.buf (read_int32 is (pos 0) 5 true) _ _ _ _ _
                (λ c a. read_int32-At is p.i_ret (pos 0) 5 c rounds true e (omega arith) a v.ret)
                (>>=-TakesLast is.buf (read_chars is old.s_buffer 6 true) _ _ _ _ _
                  (λ c a.
                    read_chars-At is rounds e p.s_buffer old.s_buffer 6 c true v.buffer
                      (omega arith) a)
                  (>>=-TakesLast is.buf (read_map is (string_value is) old.status 7 true) _ _ _ _ _
                    (read_string_map is rounds e p.status old.status 7 true (omega arith) v.status)
                    (read_desc p.s_result_desc p.context _ _ v.result_desc (λ c a end.
                      >>=_ok (read_map is (string_value is) old.context 9 false) _
                        (read_context p.context old.context v.context c a end)))))))))

-- On every ResponsePacket within the ranges of its types and the sizes that the stream carries,
-- writeTo at the end of the buffer does not throw, and readFrom returns the packet and stops at the
-- end of the buffer, with one exception: when the packet's context is empty, it is not written, and
-- the packet read into keeps its own.
pub read_from-write_to_response :
    (p old : ResponsePacket) (w : Writer)
    → IsPacket p
    → (w' : Writer) × (write_to p w ≡ some w')
      × (read_from (input w'.bytes) old (length w.bytes)
          ≡ ok
              (record p { context = if empty p.context then old.context else p.context })
              (length w'.bytes))
unfolding input TakesLast
read_from-write_to_response p old w v =
    let (w', wrote, bytes, _) = write_to-Appends p v w in
    (
      w',
      wrote,
      rw bytes (
          read_from-TakesLast (input (w.bytes ++ packet_bytes p))
            (length (w.bytes ++ packet_bytes p)) refl p old v (length w.bytes)
            (subst (λ bs. At (w.bytes ++ bs) (length w.bytes) (packet_bytes p))
              (append-nil (packet_bytes p)) (At-start w.bytes (packet_bytes p) []))
            (sym (length-append w.bytes (packet_bytes p)))),
    )
