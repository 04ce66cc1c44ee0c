-- ===== src/Client/EndpointManager.antt =====
-- EndpointManager::getNextValidProxy of src/client/EndpointManager.cpp: the choice of an endpoint in
-- turn. A proxy is named by its place in _activeProxys, whose pointers are distinct. What
-- checkActive does to a proxy, whether one has failed to connect, and the random numbers are
-- parameters.
pub mod Choice
use horse_rpc.Base.{
  ℕ, zero, suc, ◌+◌, ◌%◌, ◌^◌, Bool, true, false, List, [], ◌∷◌, ◌++◌, Option, none, some, leb,
  ◌==◌, if◌then◌else◌, length, get_elem?, set,
}

pub record EndpointManager (A : Type 0) : Type 0 where
  pub active_proxys : List A
  pub last_round_position : ℕ

-- ++_lastRoundPosition, and back to 0 at the end.
unfoldable pub next_position : ℕ → ℕ → ℕ
next_position n last = if leb n (last + 1) then 0 else last + 1

module _ {A : Type 0} (check_active : Bool → A → Bool × A) (is_conn_failed : A → Bool) where
  -- A call of checkActive on the proxy at a place.
  unfoldable pub check_at : Bool → ℕ → A → EndpointManager A → EndpointManager A
  check_at force p a m = record m { active_proxys = set m.active_proxys p (check_active force a).1 }

  -- A round of the loop at a place, with the rounds that follow: it returns the place, or notes a
  -- proxy that has not failed to connect. A place outside of _activeProxys cannot be read.
  unfoldable pub visit :
      ℕ
      → Option A
      → List ℕ
      → EndpointManager A
      → (List ℕ → EndpointManager A → Option (Option ℕ × List ℕ × EndpointManager A))
      → Option (Option ℕ × List ℕ × EndpointManager A)
  visit p none conn m rest = none
  visit p (some a) conn m rest =
      if (check_active false a).0
      then some (some p, conn, check_at false p a m)
      else rest (if is_conn_failed (check_active false a).1 then conn else conn ++ p ∷ [])
          (check_at false p a m)

  -- The loop, for the rounds that are left.
  unfoldable pub search :
      ℕ → List ℕ → EndpointManager A → Option (Option ℕ × List ℕ × EndpointManager A)
  search zero conn m = some (none, conn, m)
  search (suc k) conn m =
      let p = next_position (length m.active_proxys) m.last_round_position in
      visit p (get_elem? m.active_proxys p) conn (record m { last_round_position = p }) (search k)

  -- The forced checkActive of the proxy at a place, which is returned.
  unfoldable pub force : ℕ → Option A → EndpointManager A → Option (Option ℕ × EndpointManager A)
  force p none m = none
  force p (some a) m = some (some p, check_at true p a m)

  -- The noted proxy that was drawn.
  unfoldable pub force_noted : Option ℕ → EndpointManager A → Option (Option ℕ × EndpointManager A)
  force_noted none m = none
  force_noted (some p) m = force p (get_elem? m.active_proxys p) m

  -- Behind the loop: `rand` draws from the noted proxies, or from all.
  unfoldable pub draw :
      ℕ → Option ℕ × List ℕ × EndpointManager A → Option (Option ℕ × EndpointManager A)
  draw rand (some p, conn, m) = some (some p, m)
  draw rand (none, [], m) =
      let p = rand % 2 ^ 32 % length m.active_proxys in force p (get_elem? m.active_proxys p) m
  draw rand (none, p ∷ conn, m) =
      force_noted (get_elem? (p ∷ conn) (rand % 2 ^ 32 % length (p ∷ conn))) m

  -- getNextValidProxy, which returns no proxy when there is none; the outer `none` is a read outside
  -- of a vector.
  unfoldable pub get_next_valid_proxy :
      ℕ → EndpointManager A → Option (Option ℕ × EndpointManager A)
  get_next_valid_proxy rand m =
      if length m.active_proxys == 0
      then some (none, m)
      else elim (search (length m.active_proxys) [] m) [
        | none ↦ none
        | some found ↦ draw rand found
      ]
