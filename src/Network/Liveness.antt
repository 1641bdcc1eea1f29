-- ===== src/Network/Liveness.antt =====
-- The sets of pids of the network manager of src/network.rs.
use gresse.Prelude.{
  ℕ, ◌≡◌, refl, Bool, true, false, none, some, List, [], ◌∷◌, ite, ℕ_discrete, nat_key, arith,
}
use gresse.Map
use gresse.Set
use gresse.Dots.{Pid}
use gresse.Network.{
  Addr, Member, NetworkManager, new, handle_new_member, is_passed_over, handle_failure,
  ConnectionResult, established, failed, register, handle_connection_result, Event, member, result,
  handle, run,
}

-- No dead replica is connected, or being connected.
pub record IsApart (n : NetworkManager) : Type 0 where
  pub connected :
      (p : Pid) → Set.contains p n.dead_members ≡ true → Set.contains p n.connected_members ≡ false
  pub connecting :
      (p : Pid) → Set.contains p n.dead_members ≡ true → Set.contains p n.connecting_members ≡ false

new-IsApart : (pid : Pid) (address : Addr) → IsApart (new pid address)
unfolding new Set.contains
new-IsApart pid address = record { connected = λ p h. refl; connecting = λ p h. refl }

new_member-connected :
    (now : ℕ) (m : Member) (n : NetworkManager)
    → IsApart n
    → (p : Pid) → Set.contains p ((handle_new_member now m n).0).dead_members ≡ true
    → Set.contains p ((handle_new_member now m n).0).connected_members ≡ false
unfolding handle_new_member is_passed_over
new_member-connected now m n a p h = ground (
  arith,
  a.connected p,
  Set.contains-insert p m.pid n.dead_members,
  Set.contains-remove p m.pid n.connected_members,
)

new_member-connecting :
    (now : ℕ) (m : Member) (n : NetworkManager)
    → IsApart n
    → (p : Pid) → Set.contains p ((handle_new_member now m n).0).dead_members ≡ true
    → Set.contains p ((handle_new_member now m n).0).connecting_members ≡ false
unfolding handle_new_member is_passed_over
new_member-connecting now m n a p h = ground (
  arith,
  a.connecting p,
  Set.contains-insert p m.pid n.dead_members,
  Set.contains-remove p m.pid n.connecting_members,
  Set.contains-insert p m.pid n.connecting_members,
)

register-connected :
    (peer : Pid) (taken : Bool) (n : NetworkManager)
    → ((p : Pid)
        → Set.contains p n.dead_members ≡ true
        → Set.contains p n.connected_members ≡ false)
    → (p : Pid) → Set.contains p (register peer taken n).dead_members ≡ true
    → Set.contains p (register peer taken n).connected_members ≡ false
unfolding register
register-connected peer taken n a p h = ground (
  arith,
  a p,
  Set.contains-insert p peer n.connected_members,
  Set.contains-remove p peer (Set.insert peer n.connected_members),
)

register-connecting :
    (peer : Pid) (taken : Bool) (n : NetworkManager)
    → ((p : Pid)
        → Set.contains p n.dead_members ≡ true
        → Set.contains p n.connecting_members ≡ false)
    → (p : Pid) → Set.contains p (register peer taken n).dead_members ≡ true
    → Set.contains p (register peer taken n).connecting_members ≡ false
unfolding register
register-connecting peer taken n a p h = ground (arith, a p)

register-IsApart :
    (peer : Pid) (taken : Bool) (n : NetworkManager) → IsApart n → IsApart (register peer taken n)
register-IsApart peer taken n a = record {
  connected = register-connected peer taken n a.connected;
  connecting = register-connecting peer taken n a.connecting;
}

-- An attempt that is over.
ended :
    (p : Pid) (n : NetworkManager)
    → IsApart n
    → (q : Pid) → Set.contains q n.dead_members ≡ true
    → Set.contains q (Set.remove p n.connecting_members) ≡ false
ended p n a q h = ground (arith, a.connecting q, Set.contains-remove q p n.connecting_members)

result-IsApart :
    (now : ℕ) (r : ConnectionResult) (n : NetworkManager)
    → IsApart n
    → IsApart (handle_connection_result now r n)
unfolding handle_connection_result handle_failure
result-IsApart now (failed none) n a = a
result-IsApart now (failed (some p)) n a = record {
  connected = a.connected;
  connecting = ended p n a;
}
result-IsApart now (established none peer taken) n a = register-IsApart peer taken n a
result-IsApart now (established (some p) peer taken) n a =
    let forgotten : NetworkManager = record n {
      connecting_members = Set.remove p n.connecting_members;
      connection_retry_at = Map.remove p n.connection_retry_at;
      connection_failures = Map.remove p n.connection_failures;
    } in
    let apart : IsApart forgotten = record { connected = a.connected; connecting = ended p n a } in
    elim (ℕ_discrete peer p) as (λ d. IsApart (ite d (register peer taken forgotten) forgotten)) [
      | yes _ ↦ register-IsApart peer taken forgotten apart
      | no _ ↦ apart
    ]

handle-IsApart : (e : Event) (n : NetworkManager) → IsApart n → IsApart (handle e n)
unfolding handle
handle-IsApart (member now m) n a = record {
  connected = new_member-connected now m n a;
  connecting = new_member-connecting now m n a;
}
handle-IsApart (result now r) n a = result-IsApart now r n a

run-IsApart : (events : List Event) (n : NetworkManager) → IsApart n → IsApart (run events n)
unfolding run
run-IsApart [] n a = a
run-IsApart (e ∷ events) n a = run-IsApart events (handle e n) (handle-IsApart e n a)

-- After any events on a new manager, a replica that is known to have shut down is neither
-- connected nor being connected.
pub dead_stays_apart :
    (pid : Pid) (address : Addr) (events : List Event) (p : Pid)
    → Set.contains p (run events (new pid address)).dead_members ≡ true
    → (Set.contains p (run events (new pid address)).connected_members ≡ false)
      × (Set.contains p (run events (new pid address)).connecting_members ≡ false)
dead_stays_apart pid address events p h =
    let apart = run-IsApart events (new pid address) (new-IsApart pid address) in
    (apart.connected p h, apart.connecting p h)
