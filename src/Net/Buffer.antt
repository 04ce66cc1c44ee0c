-- ===== src/Net/Buffer.antt =====
-- class TC_NetWorkBuffer: a list of chunks, each with the position up to which it has been read,
-- and the number of bytes that are left. A chunk that another owner holds a pointer to is not
-- modelled.
pub mod Contents
pub mod Header
pub mod Frames
pub mod Streams
use horse_rpc.Base.{
  ℕ, zero, suc, ◌+◌, ◌-◌, ◌*◌, ◌%◌, ◌^◌, Bool, true, false, ◌||◌, Option, none, some, List, [], ◌∷◌,
  ◌++◌, ltb, leb, ◌==◌, if◌then◌else◌, length, take, drop, min,
}
use horse_rpc.Base.Bytes.{be_value}

-- TC_NetWorkBuffer::Buffer
pub record Chunk : Type 0 where
  pub buffer : List ℕ
  pub pos : ℕ

pub record NetWorkBuffer : Type 0 where
  pub buffer_list : List Chunk
  pub buffer_length : ℕ

-- PACKET_TYPE
pub data PacketType : Type 0 where
  packet_less packet_full packet_full_close packet_err : PacketType

-- What buffer() points to, and length().
unfoldable pub chunk_bytes : Chunk → List ℕ
chunk_bytes c = drop c.pos c.buffer

unfoldable pub chunk_length : Chunk → ℕ
chunk_length c = (length c.buffer + 2 ^ 64 - c.pos) % 2 ^ 64

-- Buffer::add takes a uint32_t.
unfoldable pub chunk_add : ℕ → Chunk → Chunk
chunk_add n c = record c { pos = c.pos + n % 2 ^ 32 }

unfoldable pub new : NetWorkBuffer
new = record { buffer_list = []; buffer_length = 0 }

-- addBuffer: nothing for an empty one.
unfoldable pub add_buffer : List ℕ → NetWorkBuffer → NetWorkBuffer
add_buffer [] b = b
add_buffer (x ∷ xs) b = record {
  buffer_list = b.buffer_list ++ record { buffer = x ∷ xs; pos = 0 } ∷ [];
  buffer_length = b.buffer_length + length (x ∷ xs);
}

-- getBuffers(buffer, length): the loop over the chunks.
unfoldable pub get_buffers : List Chunk → ℕ → List ℕ
get_buffers [] left = []
get_buffers (c ∷ cs) left =
    let len = min left (chunk_length c) in
    let rest = get_buffers cs (left - len) in
    if left == 0 then [] else take len (chunk_bytes c) ++ rest

-- getHeader(len, buffer): `none` for false.
unfoldable pub get_header : ℕ → NetWorkBuffer → Option (List ℕ)
get_header len b = if ltb b.buffer_length len then none else some (get_buffers b.buffer_list len)

-- mergeBuffers: one chunk of all that is left.
unfoldable pub merge_buffers : NetWorkBuffer → NetWorkBuffer
merge_buffers b =
    if ltb 1 (length b.buffer_list)
    then record b {
      buffer_list = record { buffer = get_buffers b.buffer_list b.buffer_length; pos = 0 } ∷ [];
    }
    else b

-- moveHeader(len), on the chunks and the length. A list without chunks holds no bytes.
unfoldable pub move_chunks : ℕ → List Chunk → ℕ → Bool × NetWorkBuffer
move_chunks len [] total =
    let b : NetWorkBuffer = record { buffer_list = []; buffer_length = total } in
    if ltb total len then (false, b) else (true, b)
move_chunks len (c ∷ cs) total =
    let left = chunk_length c in
    let rest = move_chunks (len - left) cs (total - left) in
    if ltb total len
    then (false, record { buffer_list = c ∷ cs; buffer_length = total })
    else if len == 0
    then (true, record { buffer_list = c ∷ cs; buffer_length = total })
    else if ltb len left
    then (true, record { buffer_list = chunk_add len c ∷ cs; buffer_length = total - len })
    else if left == len
    then (true, record { buffer_list = cs; buffer_length = total - len })
    else rest

unfoldable pub move_header : ℕ → NetWorkBuffer → Bool × NetWorkBuffer
move_header len b = move_chunks len b.buffer_list b.buffer_length

-- getValue<T> for a T of `n` bytes: 0 when there are not as many.
unfoldable pub get_value : ℕ → NetWorkBuffer → ℕ
get_value n b = elim (get_header n b) [ none ↦ 0 | some bs ↦ be_value bs ]

-- parseBuffer<T>(buffer, minLength, maxLength) for a T of `n` bytes: what it returns, the packet,
-- and the buffer behind it.
unfoldable pub parse_body : ℕ → NetWorkBuffer → PacketType × List ℕ × NetWorkBuffer
parse_body n b = elim (get_header n b) [
  | none ↦ (packet_less, [], b)
  | some bs ↦ (packet_full, bs, (move_header n b).1)
]

unfoldable pub parse_buffer : ℕ → ℕ → ℕ → NetWorkBuffer → PacketType × List ℕ × NetWorkBuffer
parse_buffer n min_length max_length b =
    let least = if ltb min_length n then n else min_length in
    let len = get_value n b in
    if ltb b.buffer_length n
    then (packet_less, [], b)
    else if ltb len least || ltb max_length len
    then (packet_err, [], b)
    else if ltb b.buffer_length len
    then (packet_less, [], b)
    else parse_body (len - n) (move_header n b).1

unfoldable pub parse_echo : NetWorkBuffer → PacketType × List ℕ × NetWorkBuffer
parse_echo b = (packet_full, get_buffers b.buffer_list b.buffer_length, new)
