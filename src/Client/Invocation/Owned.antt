-- ===== src/Client/Invocation/Owned.antt =====
-- How often a request lies in the queue or has ended.
use horse_rpc.Base.{
  ℕ, ◌+◌, ◌≡◌, refl, ap, subst, Bool, true, false, not, ◌&&◌, some, List, [], ◌∷◌, ◌++◌, ◌==◌, All,
  arith, Bool-cases, inl, inr, length,
}
use horse_rpc.Queues.TimeoutQueue.{Entry, find, remove, mark_sent}
use horse_rpc.Queues.TimeoutQueue.Counts.{bit}
use horse_rpc.Client.Messages.{sync_call, async_call, one_way, thread_exit, ReqMessage, is_req}
use horse_rpc.Client.Invocation.{Ending, Invoker}

-- A push message is not a request.
abbrev pub is_request : ℕ → ReqMessage → Bool
is_request p msg = (msg.address == p) && not msg.b_push

-- finishInvoke cannot end a THREAD_EXIT message, nor a synchronous one that has neither a coroutine
-- nor a monitor.
abbrev pub is_endless : ReqMessage → Bool
is_endless msg = elim msg.e_type [
  | sync_call ↦ not msg.b_coro_flag && not msg.has_monitor
  | async_call ↦ false
  | one_way ↦ false
  | thread_exit ↦ true
]

-- What each message of the queue is.
abbrev pub is_waiting : ReqMessage → Bool
is_waiting msg = is_req msg.e_status && not msg.b_push && not (is_endless msg)

abbrev pub held : ℕ → List (Entry ReqMessage) → ℕ
held p [] = 0
held p (e ∷ es) = bit (is_request p e.ptr) + held p es

abbrev pub over : ℕ → List (Ending × ReqMessage) → ℕ
over p [] = 0
over p (x ∷ xs) = bit (is_request p x.1) + over p xs

pub over-append :
    (p : ℕ) (xs : List (Ending × ReqMessage)) (how : Ending) (msg : ReqMessage)
    → over p (xs ++ (how, msg) ∷ []) ≡ over p xs + bit (is_request p msg)
over-append p [] how msg = omega arith
over-append p (x ∷ xs) how msg = omega (arith, over-append p xs how msg)

abbrev pub owned : {T : Type 0} → ℕ → Invoker T → ℕ
owned p σ = held p σ.queue.entries + over p σ.ended

same_entry : (x e : Entry ReqMessage) → some x ≡ some e → x ≡ e
same_entry x e h = cc

-- The entry that find gives is the one that remove takes out.
pub held-remove :
    (p id : ℕ) (es : List (Entry ReqMessage)) (e : Entry ReqMessage)
    → find id es ≡ some e
    → held p es ≡ bit (is_request p e.ptr) + held p (remove (λ e. e.id) id es)
unfolding find remove
held-remove p id [] e f = ground arith
held-remove p id (x ∷ es) e f = elim (Bool-cases (x.id == id)) [
  | inl g ↦ rw g (
      ap (λ (y : Entry ReqMessage). bit (is_request p y.ptr) + held p es)
        (same_entry x e (rw g at f)))
  | inr g ↦ rw g (omega (arith, held-remove p id es e (rw g at f)))
]

pub length-remove :
    (id : ℕ) (es : List (Entry ReqMessage)) (e : Entry ReqMessage)
    → find id es ≡ some e
    → length es ≡ length (remove (λ e. e.id) id es) + 1
unfolding find remove
length-remove id [] e f = ground arith
length-remove id (x ∷ es) e f = elim (Bool-cases (x.id == id)) [
  | inl g ↦ rw g (omega arith)
  | inr g ↦ rw g (omega (arith, length-remove id es e (rw g at f)))
]

pub held-mark_sent :
    (p id : ℕ) (es : List (Entry ReqMessage)) → held p (mark_sent id es) ≡ held p es
unfolding mark_sent
held-mark_sent p id [] = refl
held-mark_sent p id (x ∷ es) = elim (Bool-cases (x.id == id)) [
  | inl g ↦ rw g refl
  | inr g ↦ rw g (ap (λ n. bit (is_request p x.ptr) + n) (held-mark_sent p id es))
]

abbrev pub AllWaiting : List (Entry ReqMessage) → Type 0
AllWaiting es = All (λ (e : Entry ReqMessage). is_waiting e.ptr ≡ true) es

pub find-AllWaiting :
    (id : ℕ) (es : List (Entry ReqMessage)) (e : Entry ReqMessage)
    → AllWaiting es
    → find id es ≡ some e
    → is_waiting e.ptr ≡ true
unfolding find
find-AllWaiting id [] e a f = cc
find-AllWaiting id (x ∷ es) e a f = elim (Bool-cases (x.id == id)) [
  | inl g ↦
      subst (λ (y : Entry ReqMessage). is_waiting y.ptr ≡ true) (same_entry x e (rw g at f)) a.0
  | inr g ↦ find-AllWaiting id es e a.1 (rw g at f)
]

pub remove-AllWaiting :
    (id : ℕ) (es : List (Entry ReqMessage)) → AllWaiting es → AllWaiting (remove (λ e. e.id) id es)
unfolding remove
remove-AllWaiting id [] a = tt
remove-AllWaiting id (x ∷ es) a =
    let rest = remove-AllWaiting id es a.1 in
    elim (Bool-cases (x.id == id)) [ inl g ↦ rw g a.1 | inr g ↦ rw g (a.0, rest) ]

pub mark_sent-AllWaiting :
    (id : ℕ) (es : List (Entry ReqMessage)) → AllWaiting es → AllWaiting (mark_sent id es)
unfolding mark_sent
mark_sent-AllWaiting id [] a = tt
mark_sent-AllWaiting id (x ∷ es) a =
    let rest = mark_sent-AllWaiting id es a.1 in
    elim (Bool-cases (x.id == id)) [ inl g ↦ rw g (a.0, a.1) | inr g ↦ rw g (a.0, rest) ]
