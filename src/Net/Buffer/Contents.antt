-- ===== src/Net/Buffer/Contents.antt =====
-- The bytes that a TC_NetWorkBuffer holds, whatever its chunks, and its invariant.
use horse_rpc.Base.{
  ℕ, zero, suc, ◌-◌, ◌^◌, ◌≤◌, ◌<◌, ◌≡◌, refl, ap, ap₂, sym, ◌∙◌, true, false, List, [], ◌∷◌, ◌++◌,
  leb, ◌==◌, length, take, drop, All, arith, min, append-nil, length-append, length-drop,
  Bool-cases, inl, inr, leb→le,
}
use horse_rpc.Net.Buffer.{Chunk, NetWorkBuffer, chunk_bytes, chunk_length, get_buffers}

unfoldable pub chunks_bytes : List Chunk → List ℕ
chunks_bytes [] = []
chunks_bytes (c ∷ cs) = chunk_bytes c ++ chunks_bytes cs

abbrev pub contents : NetWorkBuffer → List ℕ
contents b = chunks_bytes b.buffer_list

-- A chunk has bytes left, and a size below 2^32.
abbrev pub HasBytes : Chunk → Type 0
HasBytes c = (c.pos < length c.buffer) × (length c.buffer < 2 ^ 32)

pub record IsValid (b : NetWorkBuffer) : Type 0 where
  pub chunks : All HasBytes b.buffer_list
  pub count : b.buffer_length ≡ length (contents b)

pub length-chunk_bytes : (c : Chunk) → HasBytes c → length (chunk_bytes c) ≡ chunk_length c
unfolding chunk_bytes chunk_length
length-chunk_bytes c h = length-drop c.pos c.buffer ∙ omega arith

pub take_inside : (n : ℕ) (xs ys : List ℕ) → n ≤ length xs → take n (xs ++ ys) ≡ take n xs
take_inside zero xs ys h = refl
take_inside (suc n) [] ys h = absurd (omega arith)
take_inside (suc n) (x ∷ xs) ys h = ap (◌∷◌ x) (take_inside n xs ys (omega arith))

pub take_across :
    (n : ℕ) (xs ys : List ℕ) → length xs ≤ n → take n (xs ++ ys) ≡ xs ++ take (n - length xs) ys
take_across n [] ys h = ap (λ k. take k ys) (omega arith)
take_across zero (x ∷ xs) ys h = absurd (omega arith)
take_across (suc n) (x ∷ xs) ys h =
    ap (◌∷◌ x) (take_across n xs ys (omega arith) ∙ ap (λ k. xs ++ take k ys) (omega arith))

pub drop_inside : (n : ℕ) (xs ys : List ℕ) → n ≤ length xs → drop n (xs ++ ys) ≡ drop n xs ++ ys
drop_inside zero xs ys h = refl
drop_inside (suc n) [] ys h = absurd (omega arith)
drop_inside (suc n) (x ∷ xs) ys h = drop_inside n xs ys (omega arith)

pub drop_across :
    (n : ℕ) (xs ys : List ℕ) → length xs ≤ n → drop n (xs ++ ys) ≡ drop (n - length xs) ys
drop_across n [] ys h = ap (λ k. drop k ys) (omega arith)
drop_across zero (x ∷ xs) ys h = absurd (omega arith)
drop_across (suc n) (x ∷ xs) ys h =
    drop_across n xs ys (omega arith) ∙ ap (λ k. drop k ys) (omega arith)

take_all : (n : ℕ) (xs : List ℕ) → length xs ≤ n → take n xs ≡ xs
take_all zero [] h = refl
take_all (suc n) [] h = refl
take_all zero (x ∷ xs) h = absurd (omega arith)
take_all (suc n) (x ∷ xs) h = ap (◌∷◌ x) (take_all n xs (omega arith))

get_buffers-zero : (cs : List Chunk) → get_buffers cs 0 ≡ []
unfolding get_buffers
get_buffers-zero [] = refl
get_buffers-zero (c ∷ cs) = refl

pub leb_false→gt : (a b : ℕ) → leb a b ≡ false → b < a
leb_false→gt a b h = ground arith

not_zero : (n : ℕ) → (suc n == 0) ≡ false
not_zero n = ground arith

min_left : (a b : ℕ) → leb a b ≡ true → min a b ≡ a
min_left a b h = ground arith

min_right : (a b : ℕ) → leb a b ≡ false → min a b ≡ b
min_right a b h = ground arith

get_buffers_none : (cs : List Chunk) (n : ℕ) → get_buffers cs (n - n) ≡ []
get_buffers_none cs n = ap (get_buffers cs) (omega arith) ∙ get_buffers-zero cs

-- The loop over the chunks takes the first bytes of the contents.
pub get_buffers-take :
    (cs : List Chunk) (n : ℕ)
    → All HasBytes cs
    → n ≤ length (chunks_bytes cs)
    → get_buffers cs n ≡ take n (chunks_bytes cs)
unfolding get_buffers chunks_bytes
get_buffers-take [] n h le = rw (take_zero n (omega arith))
  where
    take_zero : (n : ℕ) → n ≡ 0 → take {A = ℕ} n [] ≡ []
    take_zero zero h = refl
    take_zero (suc n) h = refl
get_buffers-take (c ∷ cs) zero h le = refl
get_buffers-take (c ∷ cs) (suc n) (h, hs) le =
    let len = length-chunk_bytes c h in
    elim (Bool-cases (leb (suc n) (chunk_length c))) [
      | inl e ↦
          rw (min_left (suc n) (chunk_length c) e, not_zero n, get_buffers_none cs (suc n))
            (append-nil (take (suc n) (chunk_bytes c))
              ∙ sym (
                  take_inside (suc n) (chunk_bytes c) (chunks_bytes cs)
                    (omega (arith, len, leb→le (suc n) (chunk_length c) e))))
      | inr e ↦
          rw (min_right (suc n) (chunk_length c) e, not_zero n)
            (let more = leb_false→gt (suc n) (chunk_length c) e in
              ap₂ ◌++◌ (take_all (chunk_length c) (chunk_bytes c) (omega (arith, len))) (
                get_buffers-take cs (suc n - chunk_length c) hs
                  (omega (arith, le, len, length-append (chunk_bytes c) (chunks_bytes cs)))
                ∙ ap (λ k. take (suc n - k) (chunks_bytes cs)) (sym len))
              ∙ sym (
                  take_across (suc n) (chunk_bytes c) (chunks_bytes cs) (omega (arith, len, more))))
    ]
