-- ===== src/Tars/Wire.antt =====
-- The wire types of Tars.h (TarsHeade*), the decode exceptions, and the monad of the input stream:
-- a decoder moves the cursor `_cur` of the BufferReader, also when it throws.
use horse_rpc.Base.{◌≡◌, ℕ}

abbrev pub head_char : ℕ
head_char = 0

abbrev pub head_short : ℕ
head_short = 1

abbrev pub head_int32 : ℕ
head_int32 = 2

abbrev pub head_int64 : ℕ
head_int64 = 3

abbrev pub head_float : ℕ
head_float = 4

abbrev pub head_double : ℕ
head_double = 5

abbrev pub head_string1 : ℕ
head_string1 = 6

abbrev pub head_string4 : ℕ
head_string4 = 7

abbrev pub head_map : ℕ
head_map = 8

abbrev pub head_list : ℕ
head_list = 9

abbrev pub head_struct_begin : ℕ
head_struct_begin = 10

abbrev pub head_struct_end : ℕ
head_struct_end = 11

abbrev pub head_zero_tag : ℕ
head_zero_tag = 12

abbrev pub head_simple_list : ℕ
head_simple_list = 13

-- The exceptions under TarsDecodeException: the base class, thrown when the buffer ends, or by the
-- functions of ProxyProtocol for a packet that they refuse, and its
-- subclasses TarsDecodeMismatch, TarsDecodeRequireNotExist and TarsDecodeInvalidValue.
pub data DecodeError : Type 0 where
  overflow mismatch require_not_exist invalid_value protocol : DecodeError

-- `ok a cur` returns with the cursor at `cur`, `err e cur` throws with the cursor at `cur`.
-- `stuck` is no behaviour of the program: a loop of the model ran out of fuel.
pub data Result {ℓ} (A : Type ℓ) : Type ℓ where
  ok : A → ℕ → Result A
  err : DecodeError → ℕ → Result A
  stuck : Result A

abbrev pub M {ℓ} : Type ℓ → Type ℓ
M A = ℕ → Result A

infixl 5 ◌>>=◌ ◌>>◌
abbrev pub ◌>>=◌ {ℓ κ} : {A : Type ℓ} {B : Type κ} → M A → (A → M B) → M B
◌>>=◌ m f cur = elim (m cur) [ ok a c ↦ f a c | err e c ↦ err e c | stuck ↦ stuck ]

abbrev pub ◌>>◌ {ℓ κ} : {A : Type ℓ} {B : Type κ} → M A → M B → M B
m >> k = m >>= λ _. k

abbrev pub return {ℓ} : {A : Type ℓ} → A → M A
return a cur = ok a cur

abbrev pub throw {ℓ} : {A : Type ℓ} → DecodeError → M A
throw e cur = err e cur

-- `catch (TarsDecodeException& e) {}` around code that leaves a default behind.
abbrev pub catch {ℓ} : {A : Type ℓ} → A → Result A → Result A
catch a (ok b c) = ok b c
catch a (err e c) = ok a c
catch a stuck = stuck

-- A step that returns hands its value and cursor on.
pub >>=_ok {ℓ κ} :
    {A : Type ℓ} {B : Type κ} (m : M A) (f : A → M B) {cur c : ℕ} {a : A}
    → m cur ≡ ok a c
    → (m >>= f) cur ≡ f a c
>>=_ok m f e = rw (e, ◌>>=◌)
