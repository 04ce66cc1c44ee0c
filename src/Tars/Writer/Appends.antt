-- ===== src/Tars/Writer/Appends.antt =====
-- What the writes of TarsOutputStream append to the buffer.
use horse_rpc.Base.{
  ℕ, ◌+◌, ◌*◌, ◌<◌, ◌≤◌, ◌≡◌, refl, sym, ap, subst, ◌∙◌, Bool, true, false, some, List, [], ◌∷◌,
  ◌++◌, ltb, if◌then◌else◌, length, length-append, append_assoc, append-nil, arith, ltb→lt,
}
use horse_rpc.Base.Bytes.{be_bytes}
use horse_rpc.Tars.Layout.{head_bytes}
use horse_rpc.Tars.Writer.{Writer, reserve, Write, ◌>>◌, done, write_buf, write_type, write_head}

-- The room is never less than what is written.
abbrev pub IsValid : Writer → Type 0
IsValid w = length w.bytes ≤ w.buf_len

-- `f` does not throw, appends `bs` and keeps the writer valid.
abbrev pub Appends : Write → List ℕ → Type 0
Appends f bs =
    (w : Writer)
    → (w' : Writer) × (f w ≡ some w') × (w'.bytes ≡ w.bytes ++ bs) × (IsValid w → IsValid w')

pub >>-Appends :
    (f g : Write) (xs ys : List ℕ) → Appends f xs → Appends g ys → Appends (f >> g) (xs ++ ys)
>>-Appends f g xs ys hf hg w =
    let (w', e, p, v) = hf w in
    let (w'', e', p', v') = hg w' in
    (w'', rw (e, ◌>>◌) e', p' ∙ rw p (append_assoc w.bytes xs ys), λ h. v' (v h))

pub done-Appends : Appends done []
done-Appends w = (w, refl, sym (append-nil w.bytes), λ h. h)

pub write_buf-Appends : (bs : List ℕ) → Appends (write_buf bs) bs
unfolding write_buf reserve
write_buf-Appends bs w = (_, refl, ground (arith), ground (arith, length-append w.bytes bs))

pub write_type-Appends : (n v : ℕ) → Appends (write_type n v) (be_bytes n v)
unfolding write_type
write_type-Appends n v = write_buf-Appends (be_bytes n v)

-- A test that picks the write picks the bytes.
pub if-Appends :
    (b : Bool) (f g : Write) (xs ys : List ℕ)
    → (b ≡ true → Appends f xs)
    → (b ≡ false → Appends g ys)
    → Appends (if b then f else g) (if b then xs else ys)
if-Appends true f g xs ys h k = h refl
if-Appends false f g xs ys h k = k refl

one_byte : (v : ℕ) → v < 256 → be_bytes 1 v ≡ v ∷ []
unfolding be_bytes
one_byte v h = ap (λ x. x ∷ []) (omega arith)

write_byte-Appends : (v : ℕ) → v < 256 → Appends (write_type 1 v) (v ∷ [])
write_byte-Appends v h = subst (Appends (write_type 1 v)) (one_byte v h) (write_type-Appends 1 v)

-- TarsWriteToHead writes the head of every type and tag.
pub write_head-Appends :
    (type tag : ℕ) → type < 16 → tag < 256 → Appends (write_head type tag) (head_bytes type tag)
unfolding write_head head_bytes
write_head-Appends type tag ht hg =
    if-Appends (ltb tag 15) _ _ _ _
      (λ e. write_byte-Appends (type + tag * 16) (omega (arith, ltb→lt tag 15 e)))
      (λ e.
        >>-Appends _ _ _ _ (write_byte-Appends (type + 240) (omega arith))
          (write_byte-Appends tag hg))

pub either_way :
    (b : Bool) (f g : Write) (xs : List ℕ)
    → (b ≡ true → Appends f xs)
    → (b ≡ false → Appends g xs)
    → Appends (if b then f else g) xs
either_way true f g xs h k = h refl
either_way false f g xs h k = k refl
