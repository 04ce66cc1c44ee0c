-- ===== src/Packet/Maps.antt =====
-- The string maps that both packets carry: map<std::string, std::string>.
use horse_rpc.Base.{ℕ, suc, ◌^◌, ◌<◌, ◌≤◌, ◌≡◌, Bool, true, List, [], ◌∷◌, length, arith, All}
use horse_rpc.Tars.Wire.{M}
use horse_rpc.Tars.Layout.{string_bytes, map_bytes}
use horse_rpc.Tars.Reader.Skip.{Input}
use horse_rpc.Tars.Reader.Fields.{max_string_length, read_string, read_map}
use horse_rpc.Tars.Reader.Takes.{Takes}
use horse_rpc.Tars.Reader.Values.{read_string-At}
use horse_rpc.Tars.Reader.Containers.{IsSorted, read_map-At}
use horse_rpc.Tars.Writer.{write_string, write_map}
use horse_rpc.Tars.Writer.Appends.{Appends}
use horse_rpc.Tars.Writer.Fields.{write_string-Appends, write_map-Appends}

-- By rising key.
abbrev pub StringMap : Type 0
StringMap = List (List ℕ × List ℕ)

-- The element of a string map: a fresh std::string is read, and required.
abbrev pub string_value : Input → ℕ → M (List ℕ)
string_value is tag = read_string is [] tag true

-- A map that a std::map can hold and the stream can carry.
pub record IsMap (m : StringMap) : Type 0 where
  pub size : length m < 2 ^ 31
  pub sorted : IsSorted m
  pub keys : All (λ p. length p.0 ≤ max_string_length) m
  pub values : All (λ p. length p.1 ≤ max_string_length) m

pub write_string_map :
    (m : StringMap) (tag : ℕ)
    → tag < 256
    → IsMap m
    → Appends (write_map write_string m tag) (map_bytes string_bytes m tag)
write_string_map m tag hg h =
    write_map-Appends write_string string_bytes m tag h.size hg (pairs m h.keys h.values)
  where
    pairs :
        (m : StringMap)
        → All (λ p. length p.0 ≤ max_string_length) m
        → All (λ p. length p.1 ≤ max_string_length) m
        → All
            (λ p.
              (length p.0 ≤ max_string_length) × Appends (write_string p.1 1) (string_bytes p.1 1))
            m
    pairs [] k v = tt
    pairs (p ∷ m) (k, ks) (v, vs) = ((k, write_string-Appends p.1 1 v (omega arith)), pairs m ks vs)

module _ (is : Input) (rounds : ℕ) (e : is.rounds ≡ suc rounds) where
  pub read_string_map :
      (m old : StringMap) (tag : ℕ) (require : Bool)
      → tag < 256
      → IsMap m
      → Takes is.buf
          (read_map is (string_value is) old tag require)
          (map_bytes string_bytes m tag)
          m
  read_string_map m old tag require hg h c a =
      read_map-At is rounds (string_value is) string_bytes m old tag c require e h.size hg h.sorted
        h.keys (values m h.values) a
    where
      values :
          (m : StringMap)
          → All (λ p. length p.1 ≤ max_string_length) m
          → All (λ p. Takes is.buf (string_value is 1) (string_bytes p.1 1) p.1) m
      values [] h = tt
      values (p ∷ m) (h, hs) =
          ((λ c a. read_string-At is rounds e p.1 [] 1 c true h (omega arith) a), values m hs)
