-- ===== src/Tars/Reader/Values.antt =====
-- read(std::string&), read(std::vector<Char>&), read(std::vector<T>&) and read(std::map<K, V>&)
-- at a field of their kind.
use horse_rpc.Base.{
  ℕ, suc, ◌+◌, ◌^◌, ◌<◌, ◌≤◌, ◌≡◌, refl, ap, subst, ◌∙◌, ◌≢◌, Bool, true, inl, inr, List, ◌++◌, ltb,
  length, length-append, arith, Bool-cases, ltb_false→le, le→ltb_false,
}
use horse_rpc.Base.Int.{pos, to_word}
use horse_rpc.Base.Bytes.{be_bytes, be_value-be_bytes, length-be_bytes}
use horse_rpc.Tars.Wire.{
  M, ok, ◌>>=◌, >>=_ok, head_char, head_string1, head_string4, head_simple_list, head_struct_end,
}
use horse_rpc.Tars.Layout.{head_bytes, int_bytes, string_bytes, chars_bytes}
use horse_rpc.Tars.Reader.{read_type, read_head}
use horse_rpc.Tars.Reader.Skip.{Input, seek, field, read_uint32, read_int64}
use horse_rpc.Tars.Reader.Fields.{
  max_string_length, string4_size, string_size, string_case, read_string, checked_size,
  simple_list_case, chars_case, read_chars,
}
use horse_rpc.Tars.Reader.At.{
  At, At-head, At-tail, At-length, read_type-At, read_string_buf-At, read_buf-At, read_head-At,
  seek-At,
}
use horse_rpc.Tars.Reader.Ints.{read_int64-At}

-- A read whose switch takes the bytes behind the head takes the whole field.
pub field-At {ℓ} :
    {A : Type ℓ} (is : Input) (body : ℕ → M A) (type tag cur rounds : ℕ) (load : List ℕ)
    (require : Bool) (old v : A)
    → is.rounds ≡ suc rounds
    → type < 16
    → tag < 256
    → type ≢ head_struct_end
    → At is.buf cur (head_bytes type tag ++ load)
    → ((c : ℕ) → At is.buf c load → body type c ≡ ok v (c + length load))
    → (seek is tag >>= λ found. field found body require old) cur
      ≡ ok v (cur + length (head_bytes type tag ++ load))
field-At is body type tag cur rounds load require old v e ht hg ne a h =
    let head : List ℕ = head_bytes type tag in
    >>=_ok (seek is tag) _ (seek-At is type tag cur rounds e ht hg ne (At-head head load a))
    ∙ h (cur + length head) (At-tail head load a)
    ∙ ap (ok v) (omega (arith, length-append head load))

size_word : (n : ℕ) → n < 2 ^ 31 → to_word (2 ^ 32) (pos n) ≡ n
unfolding to_word
size_word n h = omega arith

module _ (is : Input) (rounds : ℕ) (e : is.rounds ≡ suc rounds) where
  pub read_uint32-At :
      (n old tag cur : ℕ) (require : Bool)
      → n < 2 ^ 31
      → tag < 256
      → At is.buf cur (int_bytes (pos n) tag)
      → read_uint32 is old tag require cur ≡ ok n (cur + length (int_bytes (pos n) tag))
  unfolding read_uint32
  read_uint32-At n old tag cur require h hg a =
      >>=_ok (read_int64 is (pos old) tag require) _
        (read_int64-At is (pos n) (pos old) tag cur rounds require e hg a (omega arith))
      ∙ ap (λ v. ok v (cur + length (int_bytes (pos n) tag))) (size_word n h)

  -- The size of a container that is not larger than the buffer.
  pub checked_size-At :
      (n cur : ℕ)
      → n < 2 ^ 31
      → n ≤ length is.buf
      → At is.buf cur (int_bytes (pos n) 0)
      → checked_size is cur ≡ ok n (cur + length (int_bytes (pos n) 0))
  unfolding checked_size
  checked_size-At n cur h le a =
      >>=_ok (read_uint32 is 0 0 true) _ (read_uint32-At n 0 0 cur true h (omega arith) a)
      ∙ rw (le→ltb_false (length is.buf) n le)

  sized_string :
      (k type : ℕ) (s : List ℕ) (cur : ℕ)
      → ((c : ℕ)
          → At is.buf c (be_bytes k (length s))
          → string_size is type c ≡ ok (length s) (c + k))
      → At is.buf cur (be_bytes k (length s) ++ s)
      → string_case is type cur ≡ ok s (cur + length (be_bytes k (length s) ++ s))
  unfolding string_case
  sized_string k type s cur h a =
      >>=_ok (string_size is type) _ (h cur (At-head (be_bytes k (length s)) s a))
      ∙ read_string_buf-At (length s) (cur + k) refl (
          subst (λ n. At is.buf (cur + n) s) (length-be_bytes k (length s))
            (At-tail (be_bytes k (length s)) s a))
      ∙ ap (ok s)
          (omega (arith, length-append (be_bytes k (length s)) s, length-be_bytes k (length s)))

  size-At :
      (k n c : ℕ) → n < 256 ^ k → At is.buf c (be_bytes k n) → read_type is.buf k c ≡ ok n (c + k)
  size-At k n c h a =
      read_type-At k c (length-be_bytes k n) a ∙ ap (λ v. ok v (c + k)) (be_value-be_bytes k n h)

  string1-At :
      (s : List ℕ) (c : ℕ)
      → length s < 256
      → At is.buf c (be_bytes 1 (length s) ++ s)
      → string_case is head_string1 c ≡ ok s (c + length (be_bytes 1 (length s) ++ s))
  string1-At s c h a =
      sized_string 1 head_string1 s c (unfold string_size in λ c a. size-At 1 (length s) c h a) a

  string4-At :
      (s : List ℕ) (c : ℕ)
      → length s ≤ max_string_length
      → At is.buf c (be_bytes 4 (length s) ++ s)
      → string_case is head_string4 c ≡ ok s (c + length (be_bytes 4 (length s) ++ s))
  string4-At s c h a =
      sized_string 4 head_string4 s c
        (unfold string_size string4_size in
          λ c a.
            >>=_ok (read_type is.buf 4) _ (size-At 4 (length s) c (omega arith) a)
            ∙ rw (le→ltb_false max_string_length (length s) h))
        a

  -- A string field of at most TARS_MAX_STRING_LENGTH bytes.
  pub read_string-At :
      (s old : List ℕ) (tag cur : ℕ) (require : Bool)
      → length s ≤ max_string_length
      → tag < 256
      → At is.buf cur (string_bytes s tag)
      → read_string is old tag require cur ≡ ok s (cur + length (string_bytes s tag))
  unfolding read_string string_bytes
  read_string-At s old tag cur require h hg a = elim (Bool-cases (ltb 255 (length s))) [
    | inl t ↦ rw t (
        field-At is (string_case is) head_string4 tag cur rounds (be_bytes 4 (length s) ++ s)
          require old s e (omega arith) hg (omega arith) (rw t at a) (λ c b. string4-At s c h b))
    | inr t ↦ rw t (
        field-At is (string_case is) head_string1 tag cur rounds (be_bytes 1 (length s) ++ s)
          require old s e (omega arith) hg (omega arith) (rw t at a)
          (λ c b. string1-At s c (omega (arith, ltb_false→le 255 (length s) t)) b))
  ]

  simple_list-At :
      (v : List ℕ) (c : ℕ)
      → length v < 2 ^ 31
      → At is.buf c (head_bytes head_char 0 ++ (int_bytes (pos (length v)) 0 ++ v))
      → chars_case is head_simple_list c
        ≡ ok v (c + length (head_bytes head_char 0 ++ (int_bytes (pos (length v)) 0 ++ v)))
  unfolding chars_case simple_list_case
  simple_list-At v c h a =
      let head : List ℕ = head_bytes head_char 0 in
      let size : List ℕ = int_bytes (pos (length v)) 0 in
      let a' : At is.buf (c + length head) (size ++ v) = At-tail head (size ++ v) a in
      >>=_ok (read_head is.buf) _
        (read_head-At head_char 0 c (omega arith) (omega arith) (At-head head (size ++ v) a))
      ∙ >>=_ok (checked_size is) _ (
          checked_size-At (length v) (c + length head) h
            (omega (arith, At-length a', length-append size v)) (At-head size v a'))
      ∙ read_buf-At (length v) (c + length head + length size) refl (At-tail size v a')
      ∙ ap (ok v) (omega (arith, length-append head (size ++ v), length-append size v))

  -- A field of bytes, shorter than 2^31.
  pub read_chars-At :
      (v old : List ℕ) (tag cur : ℕ) (require : Bool)
      → length v < 2 ^ 31
      → tag < 256
      → At is.buf cur (chars_bytes v tag)
      → read_chars is old tag require cur ≡ ok v (cur + length (chars_bytes v tag))
  unfolding read_chars chars_bytes
  read_chars-At v old tag cur require h hg a =
      field-At is (chars_case is) head_simple_list tag cur rounds _ require old v e (omega arith) hg
        (omega arith) a (λ c b. simple_list-At v c h b)
