-- ===== src/Protocol/HeadReads.antt =====
-- The first fields of a response, read from its first 20 bytes.
use horse_rpc.Base.{
  ℕ, suc, ◌-◌, ◌≤◌, ◌≡◌, refl, sym, ap, ap₂, ◌∙◌, Bool, true, false, List, ◌++◌, length, take, drop,
  append_assoc, drop-length_append, arith,
}
use horse_rpc.Base.Int.{ℤ}
use horse_rpc.Tars.Wire.{M, ◌>>◌}
use horse_rpc.Tars.Layout.{int_bytes, chars_bytes, map_bytes, string_bytes}
use horse_rpc.Tars.Reader.Skip.{Input}
use horse_rpc.Tars.Reader.Fields.{read_short, read_char, read_int32}
use horse_rpc.Tars.Reader.At.{At}
use horse_rpc.Tars.Reader.Takes.{Takes, >>=-Takes, last-Takes}
use horse_rpc.Tars.Reader.Ints.{read_short-At, read_char-At, read_int32-At}
use horse_rpc.Packet.Response.{ResponsePacket}
use horse_rpc.Packet.Response.Layout.{IsPacket, packet_bytes, desc_bytes, context_bytes}
use horse_rpc.Net.Buffer.Contents.{take_inside, take_across}
use horse_rpc.Protocol.Outcome.{expect}
use horse_rpc.Protocol.Heads.{equals, below_unknown, tars_normal, check_head}

-- The fields of a response that are looked at first.
unfoldable pub packet_head : ResponsePacket → List ℕ
packet_head p =
    int_bytes p.i_version 1
    ++ (int_bytes p.c_packet_type 2
        ++ (int_bytes p.i_request_id 3 ++ (int_bytes p.i_message_type 4 ++ int_bytes p.i_ret 5)))

abbrev pub with_head : ResponsePacket → ResponsePacket → ResponsePacket
with_head p old = record old {
  i_version = p.i_version;
  c_packet_type = p.c_packet_type;
  i_request_id = p.i_request_id;
  i_message_type = p.i_message_type;
  i_ret = p.i_ret;
}

expect-true : {A : Type 0} (b : Bool) (f : M A) (cur : ℕ) → b ≡ true → (expect b >> f) cur ≡ f cur
unfolding expect
expect-true b f cur e = rw e refl

expect-Takes :
    {A : Type 0} {b : Bool} {f : M A} {bytes : List ℕ} {x : A} (buf : List ℕ)
    → b ≡ true
    → Takes buf f bytes x
    → Takes buf (expect b >> f) bytes x
expect-Takes {b} {f} buf e h c a = expect-true b f c e ∙ h c a

module _ (has_version : ℤ → Bool) (is : Input) (rounds : ℕ) (e : is.rounds ≡ suc rounds) where
  pub check_head-Takes :
      (p old : ResponsePacket)
      → IsPacket p
      → has_version p.i_version ≡ true
      → equals p.c_packet_type tars_normal ≡ true
      → below_unknown p.i_ret ≡ false
      → Takes is.buf (check_head has_version is old) (packet_head p) (with_head p old)
  unfolding check_head packet_head
  check_head-Takes p old v hv ht hr =
      >>=-Takes is.buf (read_short is old.i_version 1 false) _ _ _ _ _
        (λ c a.
          read_short-At is p.i_version old.i_version 1 c rounds false e (omega arith) a v.version)
        (expect-Takes is.buf hv (
          >>=-Takes is.buf (read_char is old.c_packet_type 2 false) _ _ _ _ _
            (λ c a.
              read_char-At is p.c_packet_type old.c_packet_type 2 c rounds false e (omega arith) a
                v.packet_type)
            (expect-Takes is.buf ht (
              >>=-Takes is.buf (read_int32 is old.i_request_id 3 false) _ _ _ _ _
                (λ c a.
                  read_int32-At is p.i_request_id old.i_request_id 3 c rounds false e (omega arith)
                    a v.request_id)
                (>>=-Takes is.buf (read_int32 is old.i_message_type 4 false) _ _ _ _ _
                  (λ c a.
                    read_int32-At is p.i_message_type old.i_message_type 4 c rounds false e
                      (omega arith) a v.message_type)
                  (last-Takes is.buf (read_int32 is old.i_ret 5 false) _ _ _ _
                    (λ c a.
                      read_int32-At is p.i_ret old.i_ret 5 c rounds false e (omega arith) a v.ret)
                    (λ c. expect-true _ _ c (rw hr refl))))))))

five_then :
    (a b c d e rest : List ℕ)
    → a ++ (b ++ (c ++ (d ++ (e ++ rest)))) ≡ (a ++ (b ++ (c ++ (d ++ e)))) ++ rest
five_then a b c d e rest = simp append_assoc

-- The packet begins with its head.
pub packet_bytes-head :
    (p : ResponsePacket) → (rest : List ℕ) × (packet_bytes p ≡ packet_head p ++ rest)
unfolding packet_bytes packet_head
packet_bytes-head p = (
  _,
  five_then (int_bytes p.i_version 1) (int_bytes p.c_packet_type 2) (int_bytes p.i_request_id 3)
      (int_bytes p.i_message_type 4) (int_bytes p.i_ret 5)
      (chars_bytes p.s_buffer 6
        ++ (map_bytes string_bytes p.status 7
            ++ (desc_bytes p.s_result_desc ++ context_bytes p.context))),
)

-- The stream over the first 20 bytes of a package whose packet begins with `head`.
pub head_stream-At :
    (len head rest bytes missing beyond : List ℕ)
    → length len ≡ 4
    → length head ≤ 16
    → 20 ≤ length bytes
    → bytes ++ missing ≡ len ++ (head ++ rest)
    → At (take 20 (drop 4 (take 20 bytes) ++ beyond)) 0 head
head_stream-At len head rest bytes missing beyond four small some_bytes e =
    let cut : take 20 bytes ≡ len ++ (head ++ take (20 - length len - length head) rest) =
      sym (take_inside 20 bytes missing some_bytes)
      ∙ ap (take 20) e
      ∙ take_across 20 len (head ++ rest) (omega (arith, four))
      ∙ ap (◌++◌ len) (take_across (20 - length len) head rest (omega (arith, four))) in
    let more = take (20 - length len - length head) rest in
    let all : take 20 (drop 4 (take 20 bytes) ++ beyond)
        ≡ head ++ take (20 - length head) (more ++ beyond) =
      ap (λ t. take 20 (t ++ beyond))
        (ap₂ drop (sym four) cut ∙ drop-length_append len (head ++ more))
      ∙ ap (take 20) (append_assoc head more beyond)
      ∙ take_across 20 head (more ++ beyond) (omega arith) in
    record { rest = take (20 - length head) (more ++ beyond); here = all; within = omega arith }
