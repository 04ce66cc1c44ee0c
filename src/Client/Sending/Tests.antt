-- ===== src/Client/Sending/Tests.antt =====
-- A request that the socket takes in pieces.
use horse_rpc.Base.{ℕ, ◌≡◌, ◌≤◌, refl, true, List, [], ◌∷◌, length, min, arith}
use horse_rpc.Base.Succeeds.{Succeeds}
use horse_rpc.Net.Buffer.{new}
use horse_rpc.Net.Buffer.Contents.{IsValid, chunks_bytes}
use horse_rpc.Client.Sending.{SocketAnswer, takes, Sender, send_request}
use horse_rpc.Client.Sending.Requests.{Outcome, send_request-Outcome}

-- At most two bytes at a time.
abbrev kernel : ℕ → List ℕ → SocketAnswer
kernel k bytes = takes (min 2 (length bytes))

taken : (a b : ℕ) → takes a ≡ takes b → a ≡ b
taken a b e = cc

fits : (k : ℕ) (bytes : List ℕ) (n : ℕ) → kernel k bytes ≡ takes n → n ≤ length bytes
fits k bytes n e = omega (arith, taken (min 2 (length bytes)) n e)

progress : (k : ℕ) (bytes : List ℕ) (n : ℕ) → kernel k bytes ≡ takes n → 1 ≤ length bytes → 1 ≤ n
progress k bytes n e h = omega (arith, taken (min 2 (length bytes)) n e, h)

abbrev idle : Sender
idle = record { is_connected = true; is_valid = true; send_buffer = new; wire = 9 ∷ [] }

new-IsValid : IsValid new
unfolding new chunks_bytes
new-IsValid = record { chunks = tt; count = refl }

send_request-Outcome_example :
    Succeeds (Outcome (1 ∷ 2 ∷ 3 ∷ []) idle) (send_request kernel (1 ∷ 2 ∷ 3 ∷ []) idle)
send_request-Outcome_example =
    send_request-Outcome kernel fits progress (1 ∷ 2 ∷ 3 ∷ []) idle new-IsValid (omega arith)
      (λ e. refl)
