-- ===== src/Client/Sending.antt =====
-- Transceiver::sendRequest, doRequest and TcpTransceiver::send: the bytes of a connection on their way
-- to the socket. What ::send answers for some bytes is the parameter `kernel`, which is asked with a
-- number that counts the calls still possible; `wire` is what the socket has taken so far.
pub mod Delivery
pub mod Requests
mod Tests
use horse_rpc.Base.{
  ℕ, zero, suc, ◌+◌, Bool, true, false, not, Option, none, some, List, [], ◌∷◌, ◌++◌, ◌==◌,
  if◌then◌else◌, length, take,
}
use horse_rpc.Base.Int.{ℤ, pos, negsuc}
use horse_rpc.Net.Buffer.{NetWorkBuffer, chunk_bytes, new, add_buffer, move_header}
use horse_rpc.Client.Messages.{ReturnStatus, ret_error, ret_ok, ret_full, ret_not_send}

-- What ::send returns: a number of bytes, or -1 with an errno that isPending() accepts or refuses.
pub data SocketAnswer : Type 0 where
  takes : ℕ → SocketAnswer
  pending fails : SocketAnswer

-- `is_connected` is _connStatus == eConnected, and `is_valid` is isValid().
pub record Sender : Type 0 where
  pub is_connected : Bool
  pub is_valid : Bool
  pub send_buffer : NetWorkBuffer
  pub wire : List ℕ

-- TC_NetWorkBuffer::empty
unfoldable pub is_empty : NetWorkBuffer → Bool
is_empty b = b.buffer_length == 0

-- TC_NetWorkBuffer::getBufferPointer: the bytes of the first chunk.
unfoldable pub get_buffer_pointer : NetWorkBuffer → List ℕ
get_buffer_pointer b =
    if is_empty b then [] else elim b.buffer_list [ [] ↦ [] | c ∷ cs ↦ chunk_bytes c ]

-- close(), as far as it concerns what is sent.
unfoldable pub closed : Sender → Sender
closed σ =
    if σ.is_valid then record σ { is_connected = false; is_valid = false; send_buffer = new } else σ

abbrev pub with_buffer : NetWorkBuffer → Sender → Sender
with_buffer b σ = record σ { send_buffer = b }

module _ (kernel : ℕ → List ℕ → SocketAnswer) where
  -- TcpTransceiver::send: `none` for a negative result.
  unfoldable pub send : ℕ → List ℕ → Sender → Option ℕ × Sender
  send call bytes σ =
      if σ.is_connected
      then elim (kernel call bytes) [
        | takes n ↦ (some n, record σ { wire = σ.wire ++ take n bytes })
        | pending ↦ (none, σ)
        | fails ↦ (none, closed σ)
      ]
      else (none, σ)

  -- The loop of sendRequest: whether the buffer is empty behind it. `none` is the end of the fuel.
  unfoldable pub send_all : ℕ → Sender → Option (Bool × Sender)
  send_all zero σ = none
  send_all (suc fuel) σ =
      let (ret, σ') = send fuel (get_buffer_pointer σ.send_buffer) σ in
      elim ret [
        | none ↦ some (false, σ')
        | some n ↦
            let τ = with_buffer (move_header n σ'.send_buffer).1 σ' in
            let rest = send_all fuel τ in if is_empty τ.send_buffer then some (true, τ) else rest
      ]

  -- sendRequest for the bytes of a request.
  unfoldable pub send_request : List ℕ → Sender → Option (ReturnStatus × Sender)
  send_request bytes σ =
      let filled = with_buffer (add_buffer bytes σ.send_buffer) σ in
      if length bytes == 0
      then some (ret_ok, σ)
      else if not (is_empty σ.send_buffer)
      then some (ret_not_send, σ)
      else if not σ.is_connected
      then some (ret_not_send, σ)
      else elim (send_all (length bytes) filled) [
        | none ↦ none
        | some (emptied, τ) ↦ some (
            if emptied
            then (ret_ok, τ)
            else if not τ.is_valid
            then (ret_error, with_buffer new τ)
            else (ret_full, τ))
      ]

  -- doRequest up to the call of doInvoke, which follows when the result is 0.
  unfoldable pub do_request : Sender → Option (ℤ × Sender)
  do_request σ =
      if not σ.is_valid
      then some (negsuc 0, σ)
      else if is_empty σ.send_buffer
      then some (pos 0, σ)
      else elim (send_all σ.send_buffer.buffer_length σ) [
        | none ↦ none
        | some (emptied, τ) ↦ some (if emptied then pos 0 else negsuc 1, τ)
      ]
