-- ===== src/Net/Buffer/Header.antt =====
-- addBuffer, getHeader, getValue and moveHeader on the contents of a TC_NetWorkBuffer.
use horse_rpc.Base.{
  ℕ, zero, suc, ◌+◌, ◌-◌, ◌^◌, ◌≤◌, ◌<◌, ◌≡◌, refl, ap, sym, ◌∙◌, Bool, true, false, none, some,
  List, [], ◌∷◌, ◌++◌, ltb, ◌==◌, if◌then◌else◌, length, take, drop, All, arith, append_assoc,
  append-nil, length-append, length-drop, drop-drop, Bool-cases, inl, inr, ltb→lt, ltb_false→le,
  ==_iff, subst,
}
use horse_rpc.Net.Buffer.{
  Chunk, NetWorkBuffer, chunk_bytes, chunk_length, chunk_add, add_buffer, get_header, move_chunks,
  move_header,
}
use horse_rpc.Net.Buffer.Contents.{
  chunks_bytes, contents, HasBytes, IsValid, length-chunk_bytes, get_buffers-take, drop_inside,
  drop_across,
}

chunks_bytes-append :
    (cs ds : List Chunk) → chunks_bytes (cs ++ ds) ≡ chunks_bytes cs ++ chunks_bytes ds
unfolding chunks_bytes
chunks_bytes-append [] ds = refl
chunks_bytes-append (c ∷ cs) ds =
    ap (λ t. chunk_bytes c ++ t) (chunks_bytes-append cs ds)
    ∙ sym (append_assoc (chunk_bytes c) (chunks_bytes cs) (chunks_bytes ds))

All-snoc :
    (cs : List Chunk) (c : Chunk) → All HasBytes cs → HasBytes c → All HasBytes (cs ++ c ∷ [])
All-snoc [] c h k = (k, tt)
All-snoc (d ∷ cs) c (h, hs) k = (h, All-snoc cs c hs k)

-- addBuffer appends.
pub add_buffer-contents :
    (bs : List ℕ) (b : NetWorkBuffer) → contents (add_buffer bs b) ≡ contents b ++ bs
unfolding add_buffer chunks_bytes chunk_bytes
add_buffer-contents [] b = sym (append-nil (contents b))
add_buffer-contents (x ∷ xs) b =
    chunks_bytes-append b.buffer_list (record { buffer = x ∷ xs; pos = 0 } ∷ [])
    ∙ ap (λ t. contents b ++ t) (append-nil (x ∷ xs))

pub add_buffer-IsValid :
    (bs : List ℕ) (b : NetWorkBuffer) → length bs < 2 ^ 32 → IsValid b → IsValid (add_buffer bs b)
unfolding add_buffer
add_buffer-IsValid [] b h v = v
add_buffer-IsValid (x ∷ xs) b h v = record {
  chunks = All-snoc b.buffer_list (record { buffer = x ∷ xs; pos = 0 }) v.chunks (omega arith, h);
  count =
      ap (λ n. n + length (x ∷ xs)) v.count
      ∙ sym (length-append (contents b) (x ∷ xs))
      ∙ ap length (sym (add_buffer-contents (x ∷ xs) b));
}

-- getHeader returns the first bytes, or false when there are not as many.
pub get_header-take :
    (n : ℕ) (b : NetWorkBuffer)
    → IsValid b
    → get_header n b ≡ (if ltb (length (contents b)) n then none else some (take n (contents b)))
unfolding get_header
get_header-take n b v = rw v.count (elim (Bool-cases (ltb (length (contents b)) n)) [
  | inl e ↦ rw e refl
  | inr e ↦
      rw e (
        ap some
          (get_buffers-take b.buffer_list n v.chunks (ltb_false→le (length (contents b)) n e)))
])

-- A chunk that is read on.
add-HasBytes : (n : ℕ) (c : Chunk) → HasBytes c → n < chunk_length c → HasBytes (chunk_add n c)
unfolding chunk_add chunk_length
add-HasBytes n c h lt = omega arith

add-bytes :
    (n : ℕ) (c : Chunk)
    → HasBytes c
    → n < chunk_length c
    → chunk_bytes (chunk_add n c) ≡ drop n (chunk_bytes c)
unfolding chunk_add chunk_length chunk_bytes
add-bytes n c h lt = ap (λ k. drop k c.buffer) (omega arith) ∙ drop-drop c.pos n c.buffer

drop_nothing : (n : ℕ) (xs : List ℕ) → n ≡ 0 → drop n xs ≡ xs
drop_nothing zero xs h = refl
drop_nothing (suc n) xs h = absurd (omega arith)

-- What moveHeader leaves.
Moved : Bool × NetWorkBuffer → List ℕ → Type 0
Moved r rest = (b : NetWorkBuffer) × (r ≡ (true, b)) × IsValid b × (contents b ≡ rest)

Moved-empty :
    (n total : ℕ)
    → total ≡ 0
    → n ≡ 0
    → Moved (true, record { buffer_list = []; buffer_length = total }) (drop n [])
unfolding Moved chunks_bytes
Moved-empty n total e z = (_, refl, record { chunks = tt; count = e }, sym (drop_nothing n [] z))

module _ (c : Chunk) (cs : List Chunk) (h : HasBytes c) (hs : All HasBytes cs) (total n : ℕ)
    (e : total ≡ length (chunk_bytes c) + length (chunks_bytes cs)) where
  Moved-inside :
      n < chunk_length c
      → Moved
          (true, record { buffer_list = chunk_add n c ∷ cs; buffer_length = total - n })
          (drop n (chunk_bytes c ++ chunks_bytes cs))
  unfolding Moved chunks_bytes
  Moved-inside lt =
      let len = length-chunk_bytes c h in
      let bytes : chunk_bytes (chunk_add n c) ++ chunks_bytes cs
          ≡ drop n (chunk_bytes c ++ chunks_bytes cs) =
        ap (λ t. t ++ chunks_bytes cs) (add-bytes n c h lt)
        ∙ sym (drop_inside n (chunk_bytes c) (chunks_bytes cs) (omega (arith, len))) in
      (
        _,
        refl,
        record {
          chunks = (add-HasBytes n c h lt, hs);
          count =
              omega (
                arith,
                e,
                len,
                length-drop n (chunk_bytes c ++ chunks_bytes cs),
                length-append (chunk_bytes c) (chunks_bytes cs),
              )
              ∙ ap length (sym bytes);
        },
        bytes,
      )

  Moved-exactly :
      chunk_length c ≡ n
      → Moved
          (true, record { buffer_list = cs; buffer_length = total - n })
          (drop n (chunk_bytes c ++ chunks_bytes cs))
  unfolding Moved
  Moved-exactly q =
      let len = length-chunk_bytes c h in
      (
        _,
        refl,
        record { chunks = hs; count = omega (arith, e, len) },
        sym (
            drop_across n (chunk_bytes c) (chunks_bytes cs) (omega (arith, len))
            ∙ drop_nothing (n - length (chunk_bytes c)) (chunks_bytes cs) (omega (arith, len))),
      )

  Moved-nothing :
      n ≡ 0
      → Moved
          (true, record { buffer_list = c ∷ cs; buffer_length = total })
          (drop n (chunk_bytes c ++ chunks_bytes cs))
  unfolding Moved chunks_bytes
  Moved-nothing z = (
    _,
    refl,
    record { chunks = (h, hs); count = e ∙ sym (length-append (chunk_bytes c) (chunks_bytes cs)) },
    sym (drop_nothing n (chunk_bytes c ++ chunks_bytes cs) z),
  )

if-Moved :
    (b : Bool) (x y : Bool × NetWorkBuffer) (rest : List ℕ)
    → (b ≡ true → Moved x rest)
    → (b ≡ false → Moved y rest)
    → Moved (if b then x else y) rest
if-Moved true x y rest h k = h refl
if-Moved false x y rest h k = k refl

move_chunks-Moved :
    (cs : List Chunk) (n total : ℕ)
    → All HasBytes cs
    → total ≡ length (chunks_bytes cs)
    → n ≤ total
    → Moved (move_chunks n cs total) (drop n (chunks_bytes cs))
unfolding move_chunks chunks_bytes
move_chunks-Moved [] n total h e le =
    if-Moved (ltb total n) _ _ _ (λ t. absurd (omega (arith, ltb→lt total n t)))
      (λ t. Moved-empty n total e (omega arith))
move_chunks-Moved (c ∷ cs) n total (h, hs) e le =
    let len = length-chunk_bytes c h in
    let sum : total ≡ length (chunk_bytes c) + length (chunks_bytes cs) =
      e ∙ length-append (chunk_bytes c) (chunks_bytes cs) in
    if-Moved (ltb total n) _ _ _ (λ t. absurd (omega (arith, ltb→lt total n t)))
      (λ t.
        if-Moved (n == 0) _ _ _ (λ z. Moved-nothing c cs h hs total n sum ((==_iff n 0).0 z))
          (λ z.
            if-Moved (ltb n (chunk_length c)) _ _ _
              (λ l. Moved-inside c cs h hs total n sum (ltb→lt n (chunk_length c) l))
              (λ l.
                if-Moved (chunk_length c == n) _ _ _
                  (λ q. Moved-exactly c cs h hs total n sum ((==_iff (chunk_length c) n).0 q))
                  (λ q.
                    let more = ltb_false→le n (chunk_length c) l in
                    subst (Moved (move_chunks (n - chunk_length c) cs (total - chunk_length c)))
                      (ap (λ k. drop (n - k) (chunks_bytes cs)) (sym len)
                        ∙ sym (
                            drop_across n (chunk_bytes c) (chunks_bytes cs)
                              (omega (arith, len, more))))
                      (move_chunks-Moved cs (n - chunk_length c) (total - chunk_length c) hs
                        (omega (arith, len, sum)) (omega (arith, le)))))))

-- moveHeader drops the first bytes, and fails on a buffer that does not hold as many.
pub move_header-drop :
    (n : ℕ) (b : NetWorkBuffer)
    → IsValid b
    → n ≤ length (contents b)
    → (b' : NetWorkBuffer) × (move_header n b ≡ (true, b'))
      × IsValid b'
      × (contents b' ≡ drop n (contents b))
unfolding move_header Moved
move_header-drop n b v h =
    move_chunks-Moved b.buffer_list n b.buffer_length v.chunks v.count (omega (arith, v.count))
